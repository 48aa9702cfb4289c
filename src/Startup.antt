-- ===== src/Startup.antt =====
-- Start-up: startServer of app.js, config/db.js, secrets.js, and the `initialize` of the services
-- that it calls, in their order. What the network does is an argument.
pub mod Urls
pub mod Connects
pub mod Production
pub mod Tests
use patch_proof_api.Base.{
  ℕ, zero, suc, ◌+◌, ◌*◌, ◌^◌, Bool, true, false, ◌&&◌, ◌||◌, not, List, [], ◌∷◌, ◌++◌, Option,
  none, some, is_some, if◌then◌else◌,
}
use Urls.{has_auth_in_mongo_uri, has_password, has_password_escaped}

-- How the initialisation of a service ends: it returns, throws, or ends the process.
pub data Init : Type 0 where
  returns throws exits : Init

-- The steps of `startServer` up to the routes.
pub data Stage : Type 0 where
  secrets database config locks replay_cache challenge_cache : Stage
  kms svd woc self_test auth jobs utxo : Stage

-- What a `catch` block does with an error of the step: goes on, throws it in production, or throws.
pub data Policy : Type 0 where
  soft hard_in_production hard : Policy

-- `process.env.NODE_ENV`
pub data NodeEnv : Type 0 where
  production test development : NodeEnv

abbrev pub is_production : NodeEnv → Bool
is_production production = true
is_production test = false
is_production development = false

abbrev pub is_test : NodeEnv → Bool
is_test production = false
is_test test = true
is_test development = false

-- The names that `SECRET_MAP` requires; the others are only read.
pub data SecretName : Type 0 where
  master_secret jwt_secret api_key mongodb_uri redis_url : SecretName
  kms_sign_url kms_api_key issuer_key_identifier : SecretName

abbrev pub required_secrets : List SecretName
required_secrets =
    master_secret ∷ jwt_secret ∷ api_key ∷ mongodb_uri ∷ redis_url ∷ kms_sign_url ∷ kms_api_key
    ∷ issuer_key_identifier ∷ []

-- The environment variables that the steps read, and whether what they call succeeds. An empty
-- variable is one that is not set. The URL of the KMS is `KMS_SIGN_URL`.
pub record World : Type 0 where
  pub node_env : NodeEnv
  pub has_master_secret : Bool
  pub has_api_key : Bool
  pub has_kms_api_key : Bool
  pub has_issuer_key_identifier : Bool
  pub mongodb_uri : Option (List ℕ)
  -- whether the attempt to connect succeeds, from the first on
  pub connects : ℕ → Bool
  pub redis_url : Option (List ℕ)
  pub has_redis_password : Bool
  pub jobs_enabled : Bool
  pub has_jwt_secret : Bool
  pub force_kms : Bool
  pub has_kms_url : Bool
  pub is_kms_mock : Bool
  pub self_test_passes : Bool
  pub has_funding : Bool

-- `getSecret(name)` finds a value.
abbrev pub has_secret : World → SecretName → Bool
has_secret w master_secret = w.has_master_secret
has_secret w jwt_secret = w.has_jwt_secret
has_secret w api_key = w.has_api_key
has_secret w mongodb_uri = is_some w.mongodb_uri
has_secret w redis_url = is_some w.redis_url
has_secret w kms_sign_url = w.has_kms_url
has_secret w kms_api_key = w.has_kms_api_key
has_secret w issuer_key_identifier = w.has_issuer_key_identifier

-- `!missing.length`
abbrev pub has_all : World → List SecretName → Bool
has_all w [] = true
has_all w (n ∷ ns) = has_secret w n && has_all w ns

-- The loop of `initDb`, with so many attempts left: the attempts that were made and the seconds
-- waited between them, `none` where all fail.
unfoldable pub connect_from : (ℕ → Bool) → ℕ → ℕ → ℕ → Option (ℕ × ℕ)
connect_from connects zero attempt waited = none
connect_from connects (suc left) attempt waited =
    let rest = connect_from connects left (attempt + 1) (waited + 2 ^ attempt) in
    if connects attempt then some (attempt, waited) else rest

abbrev pub of_connection : Option (ℕ × ℕ) → Init
of_connection none = throws
of_connection (some _) = returns

module _ (w : World) where
  -- `validateRequiredSecrets`
  unfoldable pub validate_required_secrets : Init
  validate_required_secrets =
      if has_all w required_secrets
      then returns
      else if is_production w.node_env
      then exits
      else returns

  -- Connections wait 2, 4, 8 and 16 seconds between five attempts. In tests without a URI a server
  -- in memory is started.
  abbrev pub connect_to : Option (List ℕ) → Init
  connect_to none =
      if is_test w.node_env then of_connection (connect_from w.connects 5 1 0) else throws
  connect_to (some uri) =
      if is_production w.node_env && not (has_auth_in_mongo_uri uri)
      then throws
      else of_connection (connect_from w.connects 5 1 0)

  unfoldable pub init_db : Init
  unfolding connect_from
  init_db = connect_to w.mongodb_uri

  -- The default URL has no password.
  abbrev pub lock_url_is_safe : Option (List ℕ) → Bool
  lock_url_is_safe none = false
  lock_url_is_safe (some url) = has_password url

  -- `lockManager.initialize`: an error of the connection is caught.
  unfoldable pub init_locks : Init
  init_locks =
      if is_production w.node_env
        && (not (lock_url_is_safe w.redis_url) && not w.has_redis_password)
      then throws
      else returns

  -- `initialize` of both SVD caches.
  abbrev pub init_cache_at : Option (List ℕ) → Init
  init_cache_at none = if is_production w.node_env then exits else returns
  init_cache_at (some url) =
      if is_production w.node_env && (not (has_password_escaped url) && not w.has_redis_password)
      then exits
      else returns

  unfoldable pub init_cache : Init
  init_cache = init_cache_at w.redis_url

  abbrev pub jobs_url_is_safe : Option (List ℕ) → Bool
  jobs_url_is_safe none = false
  jobs_url_is_safe (some url) = has_password_escaped url

  unfoldable pub init_jobs : Init
  init_jobs =
      if not w.jobs_enabled
      then returns
      else if is_production w.node_env
          && (not (jobs_url_is_safe w.redis_url) && not w.has_redis_password)
      then throws
      else returns

  -- `useKmsForSvd`: the KMS signer is ready if it has an URL.
  abbrev pub use_kms : Bool
  use_kms = w.force_kms || (w.has_kms_url && not w.is_kms_mock)

  unfoldable pub init_svd : Init
  init_svd =
      if is_production w.node_env && not w.has_jwt_secret
      then exits
      else if is_production w.node_env && not use_kms
      then exits
      else returns

  unfoldable pub init_utxo : Init
  init_utxo = if not w.has_funding && is_production w.node_env then exits else returns

  -- The steps in their order. The KMS signer, the chain's client, the configuration and the e-mail
  -- service catch what fails in them.
  unfoldable pub steps : List (Stage × Policy × Init)
  unfolding validate_required_secrets init_db init_locks init_cache init_svd init_jobs init_utxo
  steps =
      (secrets, hard, validate_required_secrets)
      ∷ (database, hard, init_db)
      ∷ (config, soft, returns)
      ∷ (locks, soft, init_locks)
      ∷ (replay_cache, hard_in_production, init_cache)
      ∷ (challenge_cache, hard_in_production, init_cache)
      ∷ (kms, soft, returns)
      ∷ (svd, hard_in_production, init_svd)
      ∷ (woc, hard_in_production, returns)
      ∷ (self_test, hard, if w.self_test_passes then returns else throws)
      ∷ (auth, soft, returns)
      ∷ (jobs, soft, init_jobs)
      ∷ (utxo, hard_in_production, init_utxo)
      ∷ []

abbrev pub is_fatal : Bool → Policy → Bool
is_fatal live soft = false
is_fatal live hard_in_production = live
is_fatal live hard = true

-- The server with the steps that returned, or the step at which it stops.
pub data Start : Type 0 where
  started : List Stage → Start
  aborted exited : Stage → Start

unfoldable pub run_steps : Bool → List (Stage × Policy × Init) → List Stage → Start
run_steps live [] flags = started flags
run_steps live ((st, policy, returns) ∷ r) flags = run_steps live r (flags ++ st ∷ [])
run_steps live ((st, policy, exits) ∷ r) flags = exited st
run_steps live ((st, policy, throws) ∷ r) flags =
    let rest = run_steps live r flags in if is_fatal live policy then aborted st else rest

unfoldable pub start_server : World → Start
unfolding run_steps steps
start_server w = run_steps (is_production w.node_env) (steps w) []
