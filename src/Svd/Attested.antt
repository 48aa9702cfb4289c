-- ===== src/Svd/Attested.antt =====
-- services/svdService.js: what a token attests.
use patch_proof_api.Base.{
  ℕ, ◌≡◌, ◌≢◌, refl, sym, ap, ◌∙◌, true, List, Option, none, some, arith, ◌==◌, ==_iff, is_some,
  Bool-cases, inl, inr,
}
use patch_proof_api.Mongo.{Collection}
use patch_proof_api.Redis.{Redis}
use patch_proof_api.Svd.{
  Registration, ok, Token, Crypto, Service, jti_key, challenge_key, replay_ttl, pmc_of,
  add_if_not_exists, check_signature, check_challenge, complete_with, complete,
}

module _ (redis : Redis) (crypto : Crypto) (db : Collection Registration) where
  open redis use {State}

  abbrev pub registered : ℕ → List Registration → Option ℕ
  registered user rs = pmc_of (db.find_one (λ r. r.user_id == user) rs)

  -- What stands behind a token.
  abbrev pub Attested : ℕ → ℕ → ℕ → Option ℕ → Token → Type 0
  Attested user m der pmc t =
      (p : ℕ) × (sig : ℕ) × (pmc ≡ some p)
      × (crypto.from_der der ≡ some sig)
      × (crypto.is_low_s sig ≡ true)
      × (crypto.verify p m sig ≡ true)
      × (t.sub ≡ user)
      × (t.jti ≡ crypto.sha256 m)

  signature-Attested :
      (user m der pmc : ℕ) (t : Token) (o : Option ℕ)
      → crypto.from_der der ≡ o
      → check_signature crypto user m pmc o ≡ ok t
      → Attested user m der (some pmc) t
  signature-Attested user m der pmc t none e h = absurd (cc)
  signature-Attested user m der pmc t (some sig) e h =
      (pmc, sig, refl, e, ground arith, ground arith, ground arith, ground arith)

  challenge-Attested :
      (user m der pmc : ℕ) (t : Token) (o : Option ℕ)
      → check_challenge crypto user m pmc der o ≡ ok t
      → (o ≡ some m) × Attested user m der (some pmc) t
  challenge-Attested user m der pmc t none h = absurd (cc)
  challenge-Attested user m der pmc t (some issued) h = elim (Bool-cases (issued == m)) [
    | inl same ↦ (
      ap some ((==_iff issued m).0 same),
      signature-Attested user m der pmc t _ refl (sym (rw same refl) ∙ h),
    )
    | inr other ↦ absurd (ground arith)
  ]

  -- The replay entry of another key leaves a key as it is.
  pub add-keeps :
      (v : Service) (now digest t key : ℕ) (s : State)
      → key ≢ jti_key digest
      → redis.get t key (add_if_not_exists redis crypto db v now digest s).1 ≡ redis.get t key s
  unfolding add_if_not_exists
  add-keeps v now digest t key s ne = elim (Bool-cases v.replay_ready) [
    | inr off ↦ rw off refl
    | inl on ↦
        rw (on, redis.set_nx_law now (jti_key digest) 1 (replay_ttl v) s)
          (elim (Bool-cases (is_some (redis.get now (jti_key digest) s))) [
            | inl there ↦ rw there refl
            | inr gone ↦
                rw gone (redis.get_set now (jti_key digest) 1 (replay_ttl v) t key s ∙ ground arith)
          ])
  ]

  pub challenge-ne-jti : (user digest : ℕ) → challenge_key user ≢ jti_key digest
  challenge-ne-jti user digest h = absurd (omega arith)

  with-Attested :
      (v : Service) (now user m der : ℕ) (t : Token) (o : Option ℕ) (s : State)
      → (complete_with redis crypto db v now user m der o s).0 ≡ ok t
      → Attested user m der o t × (redis.get now (challenge_key user) s ≡ some m)
  unfolding complete_with
  with-Attested v now user m der t none s h = absurd (cc)
  with-Attested v now user m der t (some pmc) s h =
      let seen = (add_if_not_exists redis crypto db v now (crypto.sha256 m) s).0 in
      let kept =
        add-keeps v now (crypto.sha256 m) now (challenge_key user) s
          (challenge-ne-jti user (crypto.sha256 m)) in
      elim (Bool-cases seen) [
        | inr no_entry ↦ absurd (ground arith)
        | inl entry ↦ elim (Bool-cases v.challenge_ready) [
          | inr off ↦ absurd (ground arith)
          | inl on ↦
              let (issued, attested) =
                challenge-Attested user m der pmc t _ (sym (rw (entry, on) refl) ∙ h) in
              (attested, sym kept ∙ issued)
        ]
      ]

  -- What succeeds has passed the guards.
  pub complete_ok :
      (v : Service) (now user m der : ℕ) (rs : List Registration) (t : Token) (s : State)
      → (complete redis crypto db v now user m der rs s).0 ≡ ok t
      → complete redis crypto db v now user m der rs s
        ≡ complete_with redis crypto db v now user m der (registered user rs) s
  unfolding complete
  complete_ok v now user m der rs t s h = ground arith

  -- A token that `complete` gives out attests that the caller had registered a key, that the
  -- challenge was the one that is active for the user, and that the signature was canonical and
  -- verified for that key and that challenge; it names the user and the digest of the challenge.
  pub complete-Attested :
      (v : Service) (now user m der : ℕ) (rs : List Registration) (t : Token) (s : State)
      → (complete redis crypto db v now user m der rs s).0 ≡ ok t
      → Attested user m der (registered user rs) t × (redis.get now (challenge_key user) s ≡ some m)
  complete-Attested v now user m der rs t s h =
      let same = complete_ok v now user m der rs t s h in
      with-Attested v now user m der t (registered user rs) s (sym (ap (λ r. r.0) same) ∙ h)
