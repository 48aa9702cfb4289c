-- ===== src/Svd/Honest.antt =====
-- clients/svdSdk.js against services/svdService.js: a client with the key that the service has on
-- record logs in, and so does whoever has put a key there.
use mathlib.Core.Option
use patch_proof_api.Base.{
  ℕ, suc, ◌+◌, ◌*◌, ◌<◌, ◌≡◌, refl, sym, ap, ◌∙◌, subst, Bool, true, false, List, [], ◌∷◌, ◌++◌,
  Option, none, some, is_some, if◌then◌else◌, ◌==◌, ==_self, Bool-cases, inl, inr,
}
use patch_proof_api.Mongo.{Collection}
use patch_proof_api.Redis.{Redis}
use patch_proof_api.Svd.{Registration, Crypto, Service, begin, complete, jti_key}
use patch_proof_api.Svd.Attested.{registered}
use patch_proof_api.Svd.Session.{begin-complete}
use patch_proof_api.Svd.Keys.{
  Curve, Ecdsa, public_key, derive_v2_from_pmc, derive_p2, derive_shared_secret, derived_keys_agree,
}
use patch_proof_api.Svd.Sdk.{answered, ok, Client, login_from-answered, login}
use patch_proof_api.Mongo.{first, modify_first}
use patch_proof_api.Mongo.Laws.{first-modify_first_self, first-append}
use patch_proof_api.Svd.{register_pmc, pmc_of}
use patch_proof_api.Svd.Login.{Schedule, service_server, answer}

-- How the parties write what they exchange: the digest of a challenge, public keys as texts, the
-- salt of the key derivation, HKDF, and the proof in the token.
pub record Encoding (c : Curve) : Type 0 where
  pub digest : ℕ → ℕ
  pub decode : ℕ → c.Point
  pub is_pmc : ℕ → Bool
  pub salt : ℕ → ℕ → ℕ
  pub hkdf : ℕ → ℕ → ℕ
  pub jwt_proof : ℕ → ℕ → ℕ → ℕ

abbrev pub or_none : {A : Type 0} → Option ℕ → (ℕ → Option A) → Option A
or_none none f = none
or_none (some a) f = f a

module _ (c : Curve) (e : Ecdsa c) (enc : Encoding c) where
  open enc use {digest, decode, salt, hkdf, jwt_proof}

  -- What `complete` does with a key on the curve, with the server's private key `pms`.
  abbrev pub crypto_of : ℕ → Crypto
  crypto_of pms = record {
    sha256 = digest;
    is_pmc = enc.is_pmc;
    from_der = e.from_der;
    is_low_s = e.is_low_s;
    verify = λ pmc m sig. e.verify (digest m) sig (derive_v2_from_pmc c (decode pmc) (digest m));
    proof = λ pmc m user. Option.map (jwt_proof user (digest m)) (
        or_none (derive_p2 c pms (digest m)) (λ p2s.
          derive_shared_secret c hkdf p2s (derive_v2_from_pmc c (decode pmc) (digest m))
            (salt pmc m)));
  }

  -- The body of `login`: the signature of the challenge by the derived key.
  abbrev pub client_of : ℕ → (ℕ → Bool) → ℕ → Client
  client_of secret is_aborted max_attempts = record {
    sign =
        λ m. Option.map (λ p2c. e.to_der (e.sign (digest m) p2c)) (derive_p2 c secret (digest m));
    is_aborted = is_aborted;
    max_attempts = max_attempts;
  }

  -- The signature of an honest client verifies at the server.
  honest_verifies :
      (pms pmc secret m p2c : ℕ)
      → decode pmc ≡ public_key c secret
      → derive_p2 c secret (digest m) ≡ some p2c
      → (crypto_of pms).verify pmc m (e.sign (digest m) p2c) ≡ true
  honest_verifies pms pmc secret m p2c reg key =
      subst (λ p. e.verify (digest m) (e.sign (digest m) p2c) p ≡ true)
        (derived_keys_agree c secret (digest m) p2c key
          ∙ ap (λ p. derive_v2_from_pmc c p (digest m)) (sym reg))
        (e.verify_law (digest m) p2c)

  module _ (redis : Redis) (db : Collection Registration) (v : Service) (rs : List Registration)
      (at : Schedule) where
    open redis use {State}

    begin-challenge :
        (pms user i : ℕ) (s : State)
        → v.is_ready ≡ true
        → v.challenge_ready ≡ true
        → (service_server redis (crypto_of pms) db v user rs at).begin i s ≡ (
          answered (at.challenge i),
          (begin redis (crypto_of pms) db v (at.begins_at i) user (at.challenge i) rs s).1,
        )
    unfolding begin
    begin-challenge pms user i s up cha = rw (up, cha) refl

    -- An honest client logs in. A client whose public key is registered, and which signs with the
    -- key that it derives, gets a token for its user and for the challenge, with a shared secret
    -- that the server derives, if the service and its caches are up, the challenge's digest is not
    -- in the replay cache, the derived scalar is not zero, and the answer arrives before the
    -- challenge expires.
    pub honest_login :
        (pms secret pmc user k p2c proof : ℕ) (is_aborted : ℕ → Bool) (s : State)
        → v.is_ready ≡ true
        → v.has_key ≡ true
        → v.replay_ready ≡ true
        → v.challenge_ready ≡ true
        → is_aborted 1 ≡ false
        → registered redis (crypto_of pms) db user rs ≡ some pmc
        → decode pmc ≡ public_key c secret
        → derive_p2 c secret (digest (at.challenge 1)) ≡ some p2c
        → (crypto_of pms).proof pmc (at.challenge 1) user ≡ some proof
        → redis.get (at.completes_at 1) (jti_key (digest (at.challenge 1))) s ≡ none
        → at.completes_at 1 < at.begins_at 1 + v.challenge_ttl * 1000
        → (login
            (service_server redis (crypto_of pms) db v user rs at)
            (client_of secret is_aborted (suc k))
            s).0
          ≡ ok (record { sub = user; jti = digest (at.challenge 1); svd_proof = proof })
    unfolding login
    honest_login pms secret pmc user k p2c proof is_aborted s up key rep cha on reg own derived prf
          unseen soon =
        let m : ℕ = at.challenge 1 in
        let sig : ℕ = e.sign (digest m) p2c in
        let done =
          begin-complete redis (crypto_of pms) db v (at.begins_at 1) (at.completes_at 1) user m
            (e.to_der sig) pmc sig proof rs s up key rep cha reg (e.der_law sig)
            (e.low_s_law (digest m) p2c) (honest_verifies pms pmc secret m p2c own derived) prf
            unseen soon in
        let after : State =
          (complete redis (crypto_of pms) db v (at.completes_at 1) user m (e.to_der sig) rs
            (begin redis (crypto_of pms) db v (at.begins_at 1) user m rs s).1).1 in
        ap (λ r. r.0)
          (login_from-answered (service_server redis (crypto_of pms) db v user rs at)
            (client_of secret is_aborted (suc k)) k 1 m (e.to_der sig) _ s _ _ on
            (begin-challenge pms user 1 s up cha)
            (ap (Option.map (λ p2c. e.to_der (e.sign (digest m) p2c))) derived)
            (ap (λ r. (answer (λ t. t) r, after)) done.0))

    pmc_of-upsert :
        (user pmc : ℕ)
        → let p : Registration → Bool = λ r. r.user_id == user in
          pmc_of (
            first p (
              if is_some (first p rs)
              then modify_first p (λ r. record r { pmc = some pmc }) rs
              else rs ++ record { user_id = user; pmc = some pmc } ∷ []))
          ≡ some pmc
    pmc_of-upsert user pmc = elim (Bool-cases (is_some (first (λ r. r.user_id == user) rs))) [
      | inl there ↦ rw there (
          ap pmc_of (
            first-modify_first_self (λ r. r.user_id == user) (λ r. record r { pmc = some pmc }) rs
              (λ r h. h))
          ∙ stored (first (λ r. r.user_id == user) rs) there)
      | inr absent ↦ rw absent (
          ap pmc_of
            (first-append (λ r. r.user_id == user) rs (record { user_id = user; pmc = some pmc }))
          ∙ rw (absent, ==_self user) refl)
    ]
      where
        stored :
            (o : Option Registration)
            → is_some o ≡ true
            → pmc_of (Option.map {A = Registration} (λ r. record r { pmc = some pmc }) o) ≡ some pmc
        stored none h = absurd (cc)
        stored (some r) h = refl

    -- What `registerPMC` stores is what is on record afterwards, also where another key was.
    pub register_pmc-registered :
        (pms user pmc : ℕ)
        → enc.is_pmc pmc ≡ true
        → registered redis (crypto_of pms) db user (register_pmc db (crypto_of pms) user pmc rs).1
          ≡ some pmc
    unfolding register_pmc
    register_pmc-registered pms user pmc key =
        rw (key, db.find_one_law, db.upsert_law) (pmc_of-upsert user pmc)
