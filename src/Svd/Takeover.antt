-- ===== src/Svd/Takeover.antt =====
-- routes/svdAuth.js: POST /svd/register asks for no credential and replaces the key on record.
use patch_proof_api.Base.{ℕ, suc, ◌+◌, ◌*◌, ◌<◌, ◌≡◌, Bool, true, false, List, none, some}
use patch_proof_api.Mongo.{Collection}
use patch_proof_api.Redis.{Redis}
use patch_proof_api.Svd.{Registration, Service, jti_key}
use patch_proof_api.Svd.Keys.{Curve, Ecdsa, public_key, derive_p2}
use patch_proof_api.Svd.Sdk.{ok, login}
use patch_proof_api.Svd.{register_pmc}
use patch_proof_api.Svd.Login.{Schedule, service_server}
use patch_proof_api.Svd.Honest.{
  Encoding, crypto_of, client_of, honest_login, register_pmc-registered,
}

module _ (c : Curve) (e : Ecdsa c) (enc : Encoding c) (redis : Redis) (db : Collection Registration)
    (v : Service) (rs : List Registration) (at : Schedule) where
  -- Whoever registers a key for a user last logs in as this user. After `registerPMC` has stored a
  -- public key, whatever key was on record before, the holder of its private key obtains a token
  -- that names the user, under the conditions of any login: the service and its caches are up, the
  -- challenge is fresh, the derived scalar is not zero and the answer comes in time.
  pub last_key_logs_in :
      (pms secret pmc user k p2c proof : ℕ) (is_aborted : ℕ → Bool) (s : redis.State)
      → enc.is_pmc pmc ≡ true
      → v.is_ready ≡ true
      → v.has_key ≡ true
      → v.replay_ready ≡ true
      → v.challenge_ready ≡ true
      → is_aborted 1 ≡ false
      → enc.decode pmc ≡ public_key c secret
      → derive_p2 c secret (enc.digest (at.challenge 1)) ≡ some p2c
      → (crypto_of c e enc pms).proof pmc (at.challenge 1) user ≡ some proof
      → redis.get (at.completes_at 1) (jti_key (enc.digest (at.challenge 1))) s ≡ none
      → at.completes_at 1 < at.begins_at 1 + v.challenge_ttl * 1000
      → let rs' = (register_pmc db (crypto_of c e enc pms) user pmc rs).1 in
        (login
          (service_server redis (crypto_of c e enc pms) db v user rs' at)
          (client_of c e enc secret is_aborted (suc k))
          s).0
        ≡ ok (record { sub = user; jti = enc.digest (at.challenge 1); svd_proof = proof })
  last_key_logs_in pms secret pmc user k p2c proof is_aborted s key up has rep cha on own derived
        prf unseen soon =
      honest_login c e enc redis db v (register_pmc db (crypto_of c e enc pms) user pmc rs).1 at pms
        secret pmc user k p2c proof is_aborted s up has rep cha on
        (register_pmc-registered c e enc redis db v rs at pms user pmc key) own derived prf unseen
        soon
