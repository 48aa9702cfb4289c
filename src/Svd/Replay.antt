-- ===== src/Svd/Replay.antt =====
-- services/svdService.js and services/svdReplayCacheRedis.js: a challenge is good for one token.
use patch_proof_api.Base.{
  ℕ, ◌+◌, ◌*◌, ◌<◌, ◌≡◌, ◌≢◌, refl, sym, ap, ◌∙◌, true, List, [], ◌∷◌, Option, none, some, arith,
  ==_self, Bool-cases, Option-cases, inl, inr,
}
use patch_proof_api.Mongo.{Collection}
use patch_proof_api.Redis.{Redis, until}
use patch_proof_api.Svd.{
  Registration, ok, Token, Crypto, Service, jti_key, challenge_key, replay_ttl, add_if_not_exists,
  begin, complete_with, complete,
}
use patch_proof_api.Svd.Attested.{complete_ok, registered}

module _ (redis : Redis) (crypto : Crypto) (db : Collection Registration) where
  open redis use {State}

  add_first :
      (v : Service) (now digest : ℕ) (s : State)
      → (add_if_not_exists redis crypto db v now digest s).0 ≡ true
      → (redis.get now (jti_key digest) s ≡ none)
        × ((add_if_not_exists redis crypto db v now digest s).1
            ≡ redis.set now (jti_key digest) 1 (replay_ttl v) s)
  unfolding add_if_not_exists
  add_first v now digest s = elim (Bool-cases v.replay_ready) [
    | inr off ↦ rw off (λ h. absurd (cc))
    | inl on ↦
        rw (on, redis.set_nx_law now (jti_key digest) 1 (replay_ttl v) s)
          (elim (Option-cases (redis.get now (jti_key digest) s)) [
            | inr (x, there) ↦ rw there (λ h. absurd (cc))
            | inl gone ↦ rw gone (λ h. (refl, refl))
          ])
  ]

  with_first :
      (v : Service) (now user m der : ℕ) (t : Token) (o : Option ℕ) (s : State)
      → (complete_with redis crypto db v now user m der o s).0 ≡ ok t
      → (redis.get now (jti_key (crypto.sha256 m)) s ≡ none)
        × ((complete_with redis crypto db v now user m der o s).1
            ≡ redis.set now (jti_key (crypto.sha256 m)) 1 (replay_ttl v) s)
  unfolding complete_with
  with_first v now user m der t none s h = absurd (cc)
  with_first v now user m der t (some pmc) s h =
      elim (Bool-cases (add_if_not_exists redis crypto db v now (crypto.sha256 m) s).0) [
        | inr no_entry ↦ absurd (ground arith)
        | inl entry ↦ add_first v now (crypto.sha256 m) s entry
      ]

  complete_first :
      (v : Service) (now user m der : ℕ) (rs : List Registration) (t : Token) (s : State)
      → (complete redis crypto db v now user m der rs s).0 ≡ ok t
      → (redis.get now (jti_key (crypto.sha256 m)) s ≡ none)
        × ((complete redis crypto db v now user m der rs s).1
            ≡ redis.set now (jti_key (crypto.sha256 m)) 1 (replay_ttl v) s)
  complete_first v now user m der rs t s h =
      let same = complete_ok redis crypto db v now user m der rs t s h in
      let (free, next) =
        with_first v now user m der t (registered redis crypto db user rs) s
          (sym (ap (λ r. r.0) same) ∙ h) in
      (free, ap (λ r. r.1) same ∙ next)

  -- Sessions that others begin, each at a time, by a user, with a challenge.
  abbrev pub begins : Service → List Registration → List (ℕ × ℕ × ℕ) → State → State
  begins v rs [] s = s
  begins v rs ((now, user, m) ∷ bs) s = begins v rs bs (begin redis crypto db v now user m rs s).1

  pub begin-keeps :
      (v : Service) (now user m : ℕ) (rs : List Registration) (t digest : ℕ) (s : State)
      → redis.get t (jti_key digest) (begin redis crypto db v now user m rs s).1
        ≡ redis.get t (jti_key digest) s
  unfolding begin
  begin-keeps v now user m rs t digest s = elim (Bool-cases v.is_ready) [
    | inr off ↦ rw off refl
    | inl on ↦ elim (Bool-cases v.challenge_ready) [
      | inr off ↦ rw (on, off) refl
      | inl up ↦
          rw (on, up)
            (redis.get_set now (challenge_key user) m (v.challenge_ttl * 1000) t (jti_key digest) s
              ∙ ground arith)
    ]
  ]

  begins-keep :
      (v : Service) (rs : List Registration) (bs : List (ℕ × ℕ × ℕ)) (t digest : ℕ) (s : State)
      → redis.get t (jti_key digest) (begins v rs bs s) ≡ redis.get t (jti_key digest) s
  begins-keep v rs [] t digest s = refl
  begins-keep v rs ((now, user, m) ∷ bs) t digest s =
      begins-keep v rs bs t digest _ ∙ begin-keeps v now user m rs t digest s

  pub live : (e x t : ℕ) → t < e → until e x t ≡ some x
  live e x t h = ground arith

  none-ne-some : {x : ℕ} → none ≢ some x
  none-ne-some h = absurd (cc)

  -- Once `complete` has given out a token for a challenge, no later call with a challenge of the
  -- same digest gives one out, by whichever user and with whichever signature and whichever
  -- sessions begin in between, as long as the replay entry lasts, which is twice the lifetime
  -- of a challenge.
  pub replay_refused :
      (v : Service) (now user m der : ℕ) (rs : List Registration) (t : Token) (s : State)
      (bs : List (ℕ × ℕ × ℕ)) (later user' m' der' : ℕ) (rs' : List Registration) (t' : Token)
      → (complete redis crypto db v now user m der rs s).0 ≡ ok t
      → crypto.sha256 m' ≡ crypto.sha256 m
      → later < now + v.challenge_ttl * 2 * 1000
      → (complete redis crypto db v later user' m' der' rs'
          (begins v rs bs (complete redis crypto db v now user m der rs s).1)).0
        ≢ ok t'
  replay_refused v now user m der rs t s bs later user' m' der' rs' t' h same soon h' =
      let (_, next) = complete_first v now user m der rs t s h in
      let (free, _) = complete_first v later user' m' der' rs' t' _ h' in
      let seen =
        begins-keep v rs bs later (crypto.sha256 m) _
        ∙ ap (redis.get later (jti_key (crypto.sha256 m))) next
        ∙ redis.get_set now (jti_key (crypto.sha256 m)) 1 (replay_ttl v) later
            (jti_key (crypto.sha256 m)) s
        ∙ rw (==_self (jti_key (crypto.sha256 m))) (live (now + replay_ttl v) 1 later soon) in
      absurd (
        none-ne-some {x = 1} (
          sym free
          ∙ ap
              (λ d.
                redis.get later (jti_key d)
                  (begins v rs bs (complete redis crypto db v now user m der rs s).1))
              same
          ∙ seen))
