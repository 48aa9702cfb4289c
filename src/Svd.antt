-- ===== src/Svd.antt =====
-- services/svdService.js, services/svdReplayCacheRedis.js, services/svdChallengeCacheRedis.js and
-- the error mapping of routes/svdAuth.js: authentication by a signed challenge. Users, challenges,
-- digests, public keys and signatures are numbers; the two caches share one Redis, under the keys
-- `svd:jti:` and `svd:challenge:`, which are here the even and the odd numbers.
pub mod Attested
pub mod Replay
pub mod Session
pub mod Keys
pub mod Sdk
pub mod Login
pub mod Honest
pub mod Takeover
pub mod Tests
use patch_proof_api.Base.{
  ℕ, ◌+◌, ◌*◌, Bool, true, false, not, List, [], ◌∷◌, Option, none, some, ◌==◌, if◌then◌else◌,
}
use patch_proof_api.Mongo.{Collection}
use patch_proof_api.Redis.{Redis}

-- A document of models/SvdRegistry.js.
pub record Registration : Type 0 where
  pub user_id : ℕ
  pub pmc : Option ℕ

pub data SvdError : Type 0 where
  not_ready server_key_missing no_pmc replayed expired bad_challenge malformed_signature : SvdError
  non_canonical invalid_signature derivation_failed cache_not_ready invalid_pmc : SvdError

pub data Result (A : Type 0) : Type 0 where
  ok : A → Result A
  err : SvdError → Result A

-- The claims of the JWT that depend on the session.
pub record Token : Type 0 where
  pub sub : ℕ
  pub jti : ℕ
  pub svd_proof : ℕ

-- What the code calls of `crypto`, `bsv` and the KMS: the digest, the parser of DER, the test
-- `s <= n/2`, the check of a signature against the key derived from PMC and challenge, and the
-- proof made of the shared secret, `none` when the derivation fails, or when `jwt.sign` throws,
-- since no JWT_SECRET is set: the routes answer both errors alike.
pub record Crypto : Type 0 where
  pub sha256 : ℕ → ℕ
  pub is_pmc : ℕ → Bool
  pub from_der : ℕ → Option ℕ
  pub is_low_s : ℕ → Bool
  pub verify : ℕ → ℕ → ℕ → Bool
  pub proof : ℕ → ℕ → ℕ → Option ℕ

pub record Service : Type 0 where
  pub is_ready : Bool
  pub has_key : Bool
  pub replay_ready : Bool
  pub challenge_ready : Bool
  pub challenge_ttl : ℕ

abbrev pub jti_key : ℕ → ℕ
jti_key d = 2 * d

abbrev pub challenge_key : ℕ → ℕ
challenge_key u = 2 * u + 1

-- `DEFAULT_TTL_SEC` of the replay cache, in milliseconds.
abbrev pub replay_ttl : Service → ℕ
replay_ttl v = v.challenge_ttl * 2 * 1000

-- `registerPMC`: an upsert, which replaces a key that is there.
unfoldable pub register_pmc :
    Collection Registration
    → Crypto
    → ℕ
    → ℕ
    → List Registration
    → Result (Unit {0}) × List Registration
register_pmc db crypto user pmc rs =
    if crypto.is_pmc pmc
    then (
      ok tt,
      db.upsert (λ r. r.user_id == user) (λ r. record r { pmc = some pmc })
          (record { user_id = user; pmc = some pmc }) rs,
    )
    else (err invalid_pmc, rs)

abbrev pub pmc_of : Option Registration → Option ℕ
pmc_of none = none
pmc_of (some r) = r.pmc

module _ (crypto : Crypto) where
  -- From the shared secret on. `challengeCache` has no method `del`: the call throws, the error is
  -- caught, and the challenge stays.
  abbrev pub issue : ℕ → ℕ → Option ℕ → Result Token
  issue user m none = err derivation_failed
  issue user m (some p) = ok (record { sub = user; jti = crypto.sha256 m; svd_proof = p })

  abbrev pub check_signature : ℕ → ℕ → ℕ → Option ℕ → Result Token
  check_signature user m pmc none = err malformed_signature
  check_signature user m pmc (some sig) =
      if not (crypto.is_low_s sig)
      then err non_canonical
      else if not (crypto.verify pmc m sig)
      then err invalid_signature
      else issue user m (crypto.proof pmc m user)

  abbrev pub check_challenge : ℕ → ℕ → ℕ → ℕ → Option ℕ → Result Token
  check_challenge user m pmc der none = err expired
  check_challenge user m pmc der (some issued) =
      if issued == m then check_signature user m pmc (crypto.from_der der) else err bad_challenge

module _ (redis : Redis) (crypto : Crypto) (db : Collection Registration) where
  open redis use {State}

  -- `addIfNotExists`, which fails closed.
  unfoldable pub add_if_not_exists : Service → ℕ → ℕ → State → Bool × State
  add_if_not_exists v now digest s =
      if v.replay_ready then redis.set_nx now (jti_key digest) 1 (replay_ttl v) s else (false, s)

  -- The registry, the redis state afterwards, and the answer `{ M, pmcHex }`.
  unfoldable pub begin :
      Service → ℕ → ℕ → ℕ → List Registration → State → Result (ℕ × Option ℕ) × State
  begin v now user m rs s =
      if not v.is_ready
      then (err not_ready, s)
      else if not v.challenge_ready
      then (err cache_not_ready, s)
      else (
        ok (m, pmc_of (db.find_one (λ r. r.user_id == user) rs)),
        redis.set now (challenge_key user) m (v.challenge_ttl * 1000) s,
      )

  -- From the replay check on.
  unfoldable pub complete_with : Service → ℕ → ℕ → ℕ → ℕ → Option ℕ → State → Result Token × State
  unfolding add_if_not_exists
  complete_with v now user m der none s = (err no_pmc, s)
  complete_with v now user m der (some pmc) s =
      let (first_seen, s') = add_if_not_exists v now (crypto.sha256 m) s in
      (
        if not first_seen
            then err replayed
            else if not v.challenge_ready
            then err cache_not_ready
            else check_challenge crypto user m pmc der (redis.get now (challenge_key user) s'),
        s',
      )

  unfoldable pub complete :
      Service → ℕ → ℕ → ℕ → ℕ → List Registration → State → Result Token × State
  unfolding complete_with
  complete v now user m der rs s =
      if not v.is_ready
      then (err not_ready, s)
      else if not v.has_key
      then (err server_key_missing, s)
      else complete_with v now user m der (pmc_of (db.find_one (λ r. r.user_id == user) rs)) s

-- The status of the response of routes/svdAuth.js: 500 is the handler of app.js.
unfoldable pub complete_status : {A : Type 0} → Result A → ℕ
complete_status (ok _) = 200
complete_status (err replayed) = 409
complete_status (err expired) = 400
complete_status (err non_canonical) = 401
complete_status (err invalid_signature) = 401
complete_status (err bad_challenge) = 400
complete_status (err no_pmc) = 400
complete_status (err not_ready) = 500
complete_status (err server_key_missing) = 500
complete_status (err malformed_signature) = 500
complete_status (err derivation_failed) = 500
complete_status (err cache_not_ready) = 500
complete_status (err invalid_pmc) = 500
