-- ===== src/Manager.antt =====
-- services/utxoManagerService.js and scripts/utxo-manager.js: the pool of outputs of the funding
-- key is brought in line with the chain, swept of dust and split. What WhatsOnChain and a sweep
-- give are answers that the operations take; signing and broadcasting a split is a function of its
-- transaction.
pub mod Outpoints
pub mod Sync
pub mod Split
pub mod Tests
use patch_proof_api.Base.{
  ℕ, zero, suc, ◌+◌, ◌-◌, ◌*◌, Bool, true, false, ◌&&◌, ◌||◌, not, List, [], ◌∷◌, map, Option, none,
  some, ◌==◌, ltb, leb, min, length, if◌then◌else◌, keep,
}
use patch_proof_api.Mongo.{Collection}
use patch_proof_api.Retry.{Unspent}
use patch_proof_api.Transactions.{Input, Output, pays, Transaction}
use patch_proof_api.Utxo.{
  Utxo, UtxoData, Status, unconfirmed, available, locked, spent, Outpoint, outpoint, is_at,
  is_among, is_available, is_unconfirmed, set_status, add_utxo, spend_utxos, spend_utxo,
  unlock_utxo, find_dust, get_pool_count,
}

pub record Config : Type 0 where
  pub min_utxo_count : ℕ
  pub split_size : ℕ
  pub max_split_outputs : ℕ
  pub dust_threshold : ℕ
  pub dust_sweep_limit : ℕ
  pub min_confirmations : ℕ
  pub fee_per_kb : ℕ
  pub funding_key : ℕ
  pub funding_script : ℕ
  pub funding_address : ℕ
  pub change_address : ℕ
  pub last_refresh : ℕ

-- The rows of models/Settings.js, `none` where a key is missing or its value is no number.
pub record Settings : Type 0 where
  pub min_utxo_count : Option ℕ
  pub split_size : Option ℕ
  pub max_split_outputs : Option ℕ
  pub dust_threshold : Option ℕ
  pub dust_sweep_limit : Option ℕ
  pub min_confirmations : Option ℕ
  pub fee_per_kb : Option ℕ

abbrev pub num : Option ℕ → ℕ → ℕ
num none fallback = fallback
num (some n) fallback = n

-- `refreshConfigFromSettings`, at most once in 30 seconds.
unfoldable pub refresh_config : ℕ → Settings → Config → Config
refresh_config now st c = if ltb (now - c.last_refresh) 30000 then c else record c {
  min_utxo_count = num st.min_utxo_count c.min_utxo_count;
  split_size = num st.split_size c.split_size;
  max_split_outputs = num st.max_split_outputs c.max_split_outputs;
  dust_threshold = num st.dust_threshold c.dust_threshold;
  dust_sweep_limit = num st.dust_sweep_limit c.dust_sweep_limit;
  min_confirmations = num st.min_confirmations c.min_confirmations;
  fee_per_kb = num st.fee_per_kb c.fee_per_kb;
  last_refresh = now;
}

abbrev pub chain_outpoint : Unspent → Outpoint
chain_outpoint u = (u.tx_hash, u.tx_pos)

-- `onChainSet.has(...)` and `localSet.has(...)`
abbrev pub same_outpoint : Outpoint → Outpoint → Bool
same_outpoint (t, v) (t', v') = t == t' && v == v'

abbrev pub has : List Outpoint → Outpoint → Bool
has [] o = false
has (p ∷ ps) o = same_outpoint o p || has ps o

-- `confirmations >= MIN_CONFIRMATIONS`, where an output of the mempool has none.
abbrev pub is_deep : ℕ → ℕ → Unspent → Bool
is_deep least tip u = if ltb 0 u.height then leb (least + u.height) (tip + 1) else least == 0

abbrev pub chain_data : Config → ℕ → Unspent → UtxoData
chain_data cfg tip u = record {
  txid = u.tx_hash;
  vout = u.tx_pos;
  satoshis = u.value;
  script_pubkey = cfg.funding_script;
  key_identifier = cfg.funding_key;
  status = if is_deep cfg.min_confirmations tip u then available else unconfirmed;
}

-- The local outputs that the synchronisation looks at: not those that are locked or spent.
abbrev pub is_local : ℕ → Utxo → Bool
is_local key u = (is_available u.status || is_unconfirmed u.status) && u.key_identifier == key

pub record Counts : Type 0 where
  pub added : ℕ
  pub spent_count : ℕ
  pub confirmed : ℕ

-- How a sweep by `sweepAddress` ends; it throws where WhatsOnChain or the KMS fails, and
-- `sweepDust` with it.
pub data Sweep : Type 0 where
  sweep_dry swept sweep_fails sweep_throws : Sweep

pub data SweepResult : Type 0 where
  dust_below_limit : ℕ → SweepResult
  dry_result sweep_failed sweep_threw : SweepResult
  swept_inputs : ℕ → SweepResult

pub data SplitResult : Type 0 where
  pool_healthy lease_held : ℕ → SplitResult
  no_large_utxo : ℕ → SplitResult
  split_dry : ℕ → SplitResult
  split_done : ℕ → ℕ → SplitResult
  split_threw : SplitResult

pub data ManagerRun : Type 0 where
  not_leased step_threw : ManagerRun
  finished : Counts → SweepResult → SplitResult → ManagerRun

abbrev pub deficit : Config → ℕ → ℕ
deficit cfg pool = min (cfg.min_utxo_count - pool) cfg.max_split_outputs

abbrev pub required : Config → ℕ → ℕ
required cfg n = cfg.split_size * n + 5000

abbrev pub is_splittable : ℕ → ℕ → Utxo → Bool
is_splittable key amount u =
    is_available u.status && (u.key_identifier == key && leb amount u.satoshis)

-- The loop `for (let i = 0; i < deficit; i++)`.
unfoldable pub split_outputs : ℕ → ℕ → ℕ → List Output
split_outputs zero address size = []
split_outputs (suc n) address size = pays address size ∷ split_outputs n address size

abbrev pub split_tx : Config → ℕ → Utxo → Transaction
split_tx cfg n u = record {
  inputs = record { txid = u.txid; vout = u.vout; satoshis = u.satoshis; script_sig = none } ∷ [];
  outputs = split_outputs n cfg.funding_address cfg.split_size;
  change = cfg.change_address;
  fee_per_kb = cfg.fee_per_kb;
}

module _ (c : Collection Utxo) where
  -- `find` without a limit.
  abbrev pub find_local : ℕ → List Utxo → List Utxo
  find_local key us = c.find (is_local key) 0 us

  unfoldable pub add_each : Config → ℕ → ℕ → List Unspent → List Utxo → List Utxo
  add_each cfg now tip [] us = us
  add_each cfg now tip (u ∷ r) us =
      add_each cfg now tip r (add_utxo c now (chain_data cfg tip u) us)

  abbrev pub confirm_all : ℕ → List Utxo → List Utxo → List Utxo
  confirm_all now found us =
      c.update_many (is_among (map outpoint found)) (set_status now available) us

  abbrev pub missing : List Unspent → List Utxo → List Unspent
  missing chain local = keep (λ u. not (has (map outpoint local) (chain_outpoint u))) chain

  abbrev pub gone : List Unspent → List Utxo → List Utxo
  gone chain local =
      keep (λ u. is_available u.status && not (has (map chain_outpoint chain) (outpoint u))) local

  abbrev pub seen : List Unspent → List Utxo → List Utxo
  seen chain local =
      keep (λ u. is_unconfirmed u.status && has (map chain_outpoint chain) (outpoint u)) local

  unfoldable pub sync_utxos : Config → Bool → ℕ → ℕ → List Unspent → List Utxo → Counts × List Utxo
  unfolding add_each
  sync_utxos cfg dry_run now tip chain us =
      let local = find_local cfg.funding_key us in
      if dry_run then (record { added = 0; spent_count = 0; confirmed = 0 }, us) else (
        record {
          added = length (missing chain local);
          spent_count = length (gone chain local);
          confirmed = length (seen chain local);
        },
        confirm_all now (seen chain local)
            (spend_utxos c now (gone chain local) (add_each cfg now tip (missing chain local) us)),
      )

  abbrev after_sweep : ℕ → Sweep → List Utxo → List Utxo → SweepResult × List Utxo
  after_sweep now sweep_dry dust us = (dry_result, us)
  after_sweep now swept dust us = (swept_inputs (length dust), spend_utxos c now dust us)
  after_sweep now sweep_fails dust us = (sweep_failed, us)
  after_sweep now sweep_throws dust us = (sweep_threw, us)

  unfoldable pub sweep_dust : Config → ℕ → Sweep → List Utxo → SweepResult × List Utxo
  sweep_dust cfg now outcome us =
      let dust = find_dust c cfg.funding_key cfg.dust_threshold (cfg.dust_sweep_limit + 50) us in
      if ltb (length dust) cfg.dust_sweep_limit
      then (dust_below_limit (length dust), us)
      else after_sweep now outcome dust us

  -- Signing and broadcast give a transaction or throw, and then the output is unlocked again.
  abbrev pub finish_split : Bool → ℕ → ℕ → Option ℕ → Utxo → List Utxo → SplitResult × List Utxo
  finish_split true now n outcome u us = (split_dry n, unlock_utxo c now (some u) us)
  finish_split false now n none u us = (split_threw, unlock_utxo c now (some u) us)
  finish_split false now n (some txid) u us = (split_done txid n, spend_utxo c now (some u) us)

  abbrev pub split_selected :
      Config
      → Bool
      → ℕ
      → ℕ
      → ℕ
      → (Transaction → Option ℕ)
      → Option Utxo × List Utxo
      → SplitResult × List Utxo
  split_selected cfg dry_run now n amount send (none, us) = (no_large_utxo amount, us)
  split_selected cfg dry_run now n amount send (some u, us) =
      finish_split dry_run now n (send (split_tx cfg n u)) u us

  -- `splitIfNeeded`, under the lease `utxo_split_v2`, which may be taken.
  unfoldable pub split_if_needed :
      Config → Bool → ℕ → Bool → (Transaction → Option ℕ) → List Utxo → SplitResult × List Utxo
  split_if_needed cfg dry_run now is_leased send us =
      let pool = get_pool_count c cfg.funding_key us in
      let n = deficit cfg pool in
      if leb cfg.min_utxo_count pool
      then (pool_healthy pool, us)
      else if not is_leased
      then (lease_held pool, us)
      else split_selected cfg dry_run now n (required cfg n) send (
          c.find_one_and_update (is_splittable cfg.funding_key (required cfg n)) (λ u. u.satoshis)
            (set_status now locked) us)

  -- How a run of the script ends: another run holds the lease `utxo-manager-process`; a step
  -- throws, and the run has done the steps before it; or all three steps report.
  abbrev manager_split : Counts → SweepResult → SplitResult × List Utxo → ManagerRun × List Utxo
  manager_split n w (split_threw, us) = (step_threw, us)
  manager_split n w (pool_healthy k, us) = (finished n w (pool_healthy k), us)
  manager_split n w (lease_held k, us) = (finished n w (lease_held k), us)
  manager_split n w (no_large_utxo k, us) = (finished n w (no_large_utxo k), us)
  manager_split n w (split_dry k, us) = (finished n w (split_dry k), us)
  manager_split n w (split_done txid k, us) = (finished n w (split_done txid k), us)

  abbrev manager_sweep :
      Config
      → Bool
      → ℕ
      → Bool
      → (Transaction → Option ℕ)
      → Counts
      → SweepResult × List Utxo
      → ManagerRun × List Utxo
  manager_sweep cfg dry_run now is_leased send n (sweep_threw, us) = (step_threw, us)
  manager_sweep cfg dry_run now is_leased send n (dust_below_limit k, us) =
      manager_split n (dust_below_limit k) (split_if_needed cfg dry_run now is_leased send us)
  manager_sweep cfg dry_run now is_leased send n (dry_result, us) =
      manager_split n dry_result (split_if_needed cfg dry_run now is_leased send us)
  manager_sweep cfg dry_run now is_leased send n (sweep_failed, us) =
      manager_split n sweep_failed (split_if_needed cfg dry_run now is_leased send us)
  manager_sweep cfg dry_run now is_leased send n (swept_inputs k, us) =
      manager_split n (swept_inputs k) (split_if_needed cfg dry_run now is_leased send us)

  -- scripts/utxo-manager.js: under its lease the three steps in order. The listing of the chain is
  -- `none` where WhatsOnChain fails, and then `syncUtxos` throws.
  unfoldable pub run_manager :
      Config
      → Bool
      → Bool
      → ℕ
      → ℕ
      → Option (List Unspent)
      → Sweep
      → Bool
      → (Transaction → Option ℕ)
      → List Utxo
      → ManagerRun × List Utxo
  unfolding sync_utxos sweep_dust split_if_needed
  run_manager cfg false dry_run now tip chain sweep is_leased send us = (not_leased, us)
  run_manager cfg true dry_run now tip none sweep is_leased send us = (step_threw, us)
  run_manager cfg true dry_run now tip (some chain) sweep is_leased send us =
      let (counts, us1) = sync_utxos cfg dry_run now tip chain us in
      manager_sweep cfg dry_run now is_leased send counts (sweep_dust cfg now sweep us1)

-- The script's exit code.
unfoldable pub manager_exit_code : ManagerRun → ℕ
manager_exit_code not_leased = 0
manager_exit_code step_threw = 1
manager_exit_code (finished n w s) = 0
