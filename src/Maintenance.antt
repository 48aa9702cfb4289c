-- ===== src/Maintenance.antt =====
-- controllers/adminController.js: the maintenance of the pool on request, under the set of tasks
-- that are running in the process.
pub mod Tests
use patch_proof_api.Base.{
  ℕ, Bool, true, false, ◌||◌, not, List, [], ◌∷◌, Option, none, some, ◌==◌, keep, elem,
  if◌then◌else◌,
}
use patch_proof_api.Mongo.{Collection}
use patch_proof_api.Retry.{Unspent}
use patch_proof_api.Transactions.{Transaction}
use patch_proof_api.Utxo.{Utxo}
use patch_proof_api.Manager.{
  Config, Counts, Sweep, SweepResult, dust_below_limit, dry_result, sweep_failed, sweep_threw,
  swept_inputs, SplitResult, pool_healthy, lease_held, no_large_utxo, split_dry, split_done,
  split_threw, sync_utxos, sweep_dust, split_if_needed,
}

pub data Action : Type 0 where
  auto sync sweep split unknown : Action

abbrev pub syncs : Action → Bool
syncs auto = true
syncs sync = true
syncs sweep = false
syncs split = false
syncs unknown = false

abbrev pub sweeps : Action → Bool
sweeps auto = true
sweeps sweep = true
sweeps sync = false
sweeps split = false
sweeps unknown = false

abbrev pub splits : Action → Bool
splits auto = true
splits split = true
splits sync = false
splits sweep = false
splits unknown = false

-- `Object.fromEntries(steps)`
pub record Report : Type 0 where
  pub sync_result : Option Counts
  pub sweep_result : Option SweepResult
  pub split_result : Option SplitResult

pub data Response : Type 0 where
  in_progress threw unanswered : Response
  success : Action → Report → Response

-- The answers that the three operations take from outside; the listing of the chain is `none` where
-- WhatsOnChain fails, and then `syncUtxos` throws.
pub record Outside : Type 0 where
  pub now : ℕ
  pub tip : ℕ
  pub chain : Option (List Unspent)
  pub sweep_outcome : Sweep
  pub is_leased : Bool
  pub send_split : Transaction → Option ℕ

-- `_releaseLock`
abbrev pub release_task : ℕ → List ℕ → List ℕ
release_task name running = keep (λ t. not (t == name)) running

-- `splitIfNeeded` throws what its section threw, and the request ends in the error handler.
abbrev pub respond : Action → Option Counts → Option SweepResult → SplitResult → Response
respond a c w split_threw = threw
respond a c w (pool_healthy n) =
    success a (record { sync_result = c; sweep_result = w; split_result = some (pool_healthy n) })
respond a c w (lease_held n) =
    success a (record { sync_result = c; sweep_result = w; split_result = some (lease_held n) })
respond a c w (no_large_utxo n) =
    success a (record { sync_result = c; sweep_result = w; split_result = some (no_large_utxo n) })
respond a c w (split_dry n) =
    success a (record { sync_result = c; sweep_result = w; split_result = some (split_dry n) })
respond a c w (split_done t n) =
    success a (record { sync_result = c; sweep_result = w; split_result = some (split_done t n) })

module _ (c : Collection Utxo) (cfg : Config) (o : Outside) where
  abbrev pub step_split :
      Bool → Action → Option Counts → Option SweepResult → List Utxo → Response × List Utxo
  step_split false a r w us =
      (success a (record { sync_result = r; sweep_result = w; split_result = none }), us)
  step_split true a r w us =
      let (x, us') = split_if_needed c cfg false o.now o.is_leased o.send_split us in
      (respond a r w x, us')

  -- A step that throws ends the request in the error handler, after the steps before it.
  abbrev swept_then : Action → Option Counts → SweepResult × List Utxo → Response × List Utxo
  swept_then a r (sweep_threw, us) = (threw, us)
  swept_then a r (dust_below_limit n, us) = step_split (splits a) a r (some (dust_below_limit n)) us
  swept_then a r (dry_result, us) = step_split (splits a) a r (some dry_result) us
  swept_then a r (sweep_failed, us) = step_split (splits a) a r (some sweep_failed) us
  swept_then a r (swept_inputs n, us) = step_split (splits a) a r (some (swept_inputs n)) us

  abbrev pub step_sweep : Bool → Action → Option Counts → List Utxo → Response × List Utxo
  step_sweep false a r us = step_split (splits a) a r none us
  step_sweep true a r us = swept_then a r (sweep_dust c cfg o.now o.sweep_outcome us)

  abbrev synced_then : Action → Option (List Unspent) → List Utxo → Response × List Utxo
  synced_then a none us = (threw, us)
  synced_then a (some chain) us =
      let (r, us') = sync_utxos c cfg false o.now o.tip chain us in
      step_sweep (sweeps a) a (some r) us'

  abbrev pub step_sync : Bool → Action → List Utxo → Response × List Utxo
  step_sync false a us = step_sweep (sweeps a) a none us
  step_sync true a us = synced_then a o.chain us

  abbrev pub maintain : Action → List Utxo → Response × List Utxo
  maintain a us = step_sync (syncs a) a us

  -- The task is taken off the set again by `finally`, whatever happened. Where the method is not
  -- bound to its object, as app.js passes it, `this._acquireLock` throws before the `try`, and
  -- nothing answers the request.
  unfoldable pub trigger_maintenance :
      Bool → ℕ → Action → List ℕ → List Utxo → Response × List ℕ × List Utxo
  trigger_maintenance false name a running us = (unanswered, running, us)
  trigger_maintenance true name a running us =
      if elem name running
      then (in_progress, running, us)
      else (let (r, us') = maintain a us in (r, release_task name (name ∷ running), us'))
