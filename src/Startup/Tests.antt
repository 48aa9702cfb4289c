-- ===== src/Startup/Tests.antt =====
-- Runs of startServer, and the theorems at these.
use patch_proof_api.Base.{◌≡◌, ◌≢◌, refl, true, false, List, [], ◌∷◌, some, ◌==◌, codes}
use patch_proof_api.Startup.{
  World, production, Stage, secrets, database, config, locks, replay_cache, challenge_cache, kms,
  svd, woc, self_test, auth, jobs, utxo, started, exited, connect_from, start_server, run_steps,
  steps, validate_required_secrets, init_db, init_locks, init_cache, init_svd, init_jobs, init_utxo,
}
use patch_proof_api.Startup.Urls.{has_auth_in_mongo_uri, has_password, has_password_escaped}
use patch_proof_api.Startup.Production.{IsSafe, production_start-IsSafe, start_refused}

-- The second attempt to connect succeeds, and the password of Redis stands in a variable.
abbrev world : World
world = record {
  node_env = production;
  has_master_secret = true;
  has_api_key = true;
  has_kms_api_key = true;
  has_issuer_key_identifier = true;
  mongodb_uri = some (codes "mongodb://u:p@h/d");
  connects = λ i. i == 2;
  redis_url = some (codes "redis://h");
  has_redis_password = true;
  jobs_enabled = true;
  has_jwt_secret = true;
  force_kms = false;
  has_kms_url = true;
  is_kms_mock = false;
  self_test_passes = true;
  has_funding = true;
}

abbrev all_stages : List Stage
all_stages =
    secrets ∷ database ∷ config ∷ locks ∷ replay_cache ∷ challenge_cache ∷ kms ∷ svd ∷ woc
    ∷ self_test ∷ auth ∷ jobs ∷ utxo ∷ []

world_starts : start_server world ≡ started all_stages
unfolding start_server run_steps steps validate_required_secrets init_db connect_from
    has_auth_in_mongo_uri init_locks has_password init_cache has_password_escaped init_svd init_jobs
    init_utxo
world_starts = refl

production_start-IsSafe_example : IsSafe world
production_start-IsSafe_example = production_start-IsSafe world refl all_stages world_starts

-- The same server, with the password in the URL of Redis.
abbrev in_url : World
in_url = record world { redis_url = some (codes "redis://:p@h"); has_redis_password = false }

in_url_exits : start_server in_url ≡ exited replay_cache
unfolding start_server run_steps steps validate_required_secrets init_db connect_from
    has_auth_in_mongo_uri init_locks has_password init_cache has_password_escaped init_svd init_jobs
    init_utxo
in_url_exits = refl

start_refused_example : start_server in_url ≢ started all_stages
start_refused_example = start_refused in_url refl all_stages (codes "redis://:p@h") refl refl refl

connects_at_last : connect_from (λ i. i == 5) 5 1 0 ≡ some (5, 30)
unfolding connect_from
connects_at_last = refl
