-- ===== src/Scripts/Health.antt =====
-- scripts/check-health.js: a report of checks and the exit code that it gives.
use patch_proof_api.Base.{
  ℕ, Bool, true, false, ◌&&◌, not, List, [], ◌∷◌, ◌++◌, Option, none, some, if◌then◌else◌,
}
use patch_proof_api.Utxo.{Utxo, Outpoint, outpoint}

pub data Name : Type 0 where
  environment_variables woc_client_init mongodb_connection redis_connection : Name
  utxo_pool_availability utxo_pool_health : Name
  utxo_on_chain : Outpoint → Name

-- A check, with whether it passed; and `overallStatus`, whether it is PASS.
pub record Report : Type 0 where
  pub passes : Bool
  pub checks : List (Name × Bool)

-- `addCheck`
abbrev pub add_check : Name → Bool → Report → Report
add_check name ok r = record {
  passes = if ok then r.passes else false;
  checks = r.checks ++ (name, ok) ∷ [];
}

abbrev pub start : Report
start = record { passes = true; checks = [] }

-- What is found: whether each required variable is set, whether the client starts and the database
-- connects, whether Redis is ready, the available outputs, and whether each is spent on the
-- chain; `none` where the call throws.
pub record World : Type 0 where
  pub env : List Bool
  pub client_starts : Bool
  pub db_connects : Bool
  pub redis_ready : Option Bool
  pub available_utxos : Option (List Utxo)
  pub is_spent : Utxo → Option Bool

abbrev pub all_set : List Bool → Bool
all_set [] = true
all_set (b ∷ bs) = b && all_set bs

module _ (w : World) where
  -- The loop over the outputs; a call that throws ends it.
  abbrev pub check_one : Utxo → (Report → Report) → Option Bool → Report → Report
  check_one u again none r = add_check utxo_pool_health false r
  check_one u again (some spent) r = again (add_check (utxo_on_chain (outpoint u)) (not spent) r)

  unfoldable pub check_each : List Utxo → Report → Report
  check_each [] r = r
  check_each (u ∷ us) r = check_one u (check_each us) (w.is_spent u) r

  unfoldable pub check_pool : Option (List Utxo) → Report → Report
  unfolding check_each
  check_pool none r = add_check utxo_pool_health false r
  check_pool (some []) r = add_check utxo_pool_availability false r
  check_pool (some (u ∷ us)) r = check_each (u ∷ us) (add_check utxo_pool_availability true r)

  abbrev pub check_redis : Option Bool → Report → Report
  check_redis none r = add_check redis_connection false r
  check_redis (some ready) r = add_check redis_connection ready r

  unfoldable pub run_health_check : Report
  unfolding check_pool
  run_health_check =
      let first =
        add_check woc_client_init w.client_starts
          (add_check environment_variables (all_set w.env) start) in
      if w.db_connects
      then check_pool w.available_utxos
          (check_redis w.redis_ready (add_check mongodb_connection true first))
      else add_check mongodb_connection false first

  -- `process.exitCode`
  unfoldable pub exit_code : ℕ
  unfolding run_health_check
  exit_code = if run_health_check.passes then 0 else 1
