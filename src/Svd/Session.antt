-- ===== src/Svd/Session.antt =====
-- services/svdService.js: a session from its challenge to its token.
use patch_proof_api.Base.{
  ℕ, ◌+◌, ◌*◌, ◌<◌, ◌≡◌, refl, sym, ◌∙◌, subst, true, List, none, some, ==_self,
}
use patch_proof_api.Mongo.{Collection}
use patch_proof_api.Redis.{Redis}
use patch_proof_api.Svd.{
  Registration, ok, Crypto, Service, jti_key, challenge_key, replay_ttl, add_if_not_exists, begin,
  complete_with, complete,
}
use patch_proof_api.Svd.Attested.{add-keeps, challenge-ne-jti, registered}
use patch_proof_api.Svd.Replay.{begin-keeps, live}

module _ (redis : Redis) (crypto : Crypto) (db : Collection Registration) where
  open redis use {State}

  add_new :
      (v : Service) (now digest : ℕ) (s : State)
      → v.replay_ready ≡ true
      → redis.get now (jti_key digest) s ≡ none
      → (add_if_not_exists redis crypto db v now digest s).0 ≡ true
  unfolding add_if_not_exists
  add_new v now digest s rep gone =
      rw (rep, redis.set_nx_law now (jti_key digest) 1 (replay_ttl v) s, gone) refl

  begun :
      (v : Service) (now later user m : ℕ) (rs : List Registration) (s : State)
      → v.is_ready ≡ true
      → v.challenge_ready ≡ true
      → later < now + v.challenge_ttl * 1000
      → redis.get later (challenge_key user) (begin redis crypto db v now user m rs s).1 ≡ some m
  unfolding begin
  begun v now later user m rs s up cha soon =
      rw (up, cha)
        (redis.get_set now (challenge_key user) m (v.challenge_ttl * 1000) later
            (challenge_key user) s
          ∙ rw (==_self (challenge_key user)) (live redis crypto db _ m later soon))

  passed :
      (v : Service) (now user m der p : ℕ) (rs : List Registration) (s : State)
      → v.is_ready ≡ true
      → v.has_key ≡ true
      → registered redis crypto db user rs ≡ some p
      → complete redis crypto db v now user m der rs s
        ≡ complete_with redis crypto db v now user m der (some p) s
  unfolding complete
  passed v now user m der p rs s up key reg = simp (up, key, reg) refl

  signed :
      (v : Service) (now user m der p sig proof : ℕ) (s : State)
      → v.replay_ready ≡ true
      → v.challenge_ready ≡ true
      → crypto.from_der der ≡ some sig
      → crypto.is_low_s sig ≡ true
      → crypto.verify p m sig ≡ true
      → crypto.proof p m user ≡ some proof
      → redis.get now (jti_key (crypto.sha256 m)) s ≡ none
      → redis.get now (challenge_key user) s ≡ some m
      → let (r, s') = complete_with redis crypto db v now user m der (some p) s in
        (r ≡ ok (record { sub = user; jti = crypto.sha256 m; svd_proof = proof }))
        × (redis.get now (challenge_key user) s' ≡ some m)
  unfolding complete_with
  signed v now user m der p sig proof s rep cha parsed low good prf unseen there =
      let kept =
        add-keeps redis crypto db v now (crypto.sha256 m) now (challenge_key user) s
          (challenge-ne-jti redis crypto db user (crypto.sha256 m))
        ∙ there in
      (
        rw
            (
              add_new v now (crypto.sha256 m) s rep unseen,
              cha,
              kept,
              ==_self m,
              parsed,
              low,
              good,
              prf,
            )
            refl,
        kept,
      )

  -- A session that is begun is completed: with both caches up, a registered key, a canonical
  -- signature that verifies and a challenge of a digest that is not in the replay cache, `complete`
  -- before the challenge expires gives the token, and the challenge is still stored afterwards.
  pub begin-complete :
      (v : Service) (now later user m der p sig proof : ℕ) (rs : List Registration) (s : State)
      → v.is_ready ≡ true
      → v.has_key ≡ true
      → v.replay_ready ≡ true
      → v.challenge_ready ≡ true
      → registered redis crypto db user rs ≡ some p
      → crypto.from_der der ≡ some sig
      → crypto.is_low_s sig ≡ true
      → crypto.verify p m sig ≡ true
      → crypto.proof p m user ≡ some proof
      → redis.get later (jti_key (crypto.sha256 m)) s ≡ none
      → later < now + v.challenge_ttl * 1000
      → let (r, s') =
          complete redis crypto db v later user m der rs
            (begin redis crypto db v now user m rs s).1 in
        (r ≡ ok (record { sub = user; jti = crypto.sha256 m; svd_proof = proof }))
        × (redis.get later (challenge_key user) s' ≡ some m)
  begin-complete v now later user m der p sig proof rs s up key rep cha reg parsed low good prf
        unseen soon =
      let s1 = (begin redis crypto db v now user m rs s).1 in
      subst
        (λ q.
          (q.0 ≡ ok (record { sub = user; jti = crypto.sha256 m; svd_proof = proof }))
          × (redis.get later (challenge_key user) q.1 ≡ some m))
        (sym (passed v later user m der p rs s1 up key reg))
        (signed v later user m der p sig proof s1 rep cha parsed low good prf
          (begin-keeps redis crypto db v now user m rs later (crypto.sha256 m) s ∙ unseen)
          (begun v now later user m rs s up cha soon))
