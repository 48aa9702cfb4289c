-- ===== src/Scripts/Tests.antt =====
-- Runs of the scripts, and the theorems at these.
use patch_proof_api.Base.{
  ℕ, ◌≡◌, ◌⊎◌, refl, true, false, List, [], ◌∷◌, Option, none, some, if◌then◌else◌,
}
use patch_proof_api.Mongo.InMemory.{in_memory}
use patch_proof_api.Utxo.{Utxo, Status, available, spent}
use patch_proof_api.Scripts.AddUtxo
use patch_proof_api.Scripts.AddUtxo.{Args, Checked, exits, passes, add_utxo_script, add, check}
use patch_proof_api.Scripts.Funded.{OnChain, added_is_backed}
use patch_proof_api.Scripts.Backfill.{backfill, drain, update_batch}
use patch_proof_api.Scripts.Batches.{backfilled, backfill-backfilled}
use patch_proof_api.Scripts.Health
use patch_proof_api.Scripts.Health.{run_health_check, check_pool, check_each, exit_code}

abbrev output : ℕ → ℕ → ℕ → Status → Utxo
output txid satoshis key status = record {
  txid = txid;
  vout = 0;
  satoshis = satoshis;
  script_pubkey = 9;
  key_identifier = key;
  status = status;
  lock_id = none;
  updated_at = 1;
}

abbrev pool : List Utxo
pool = output 1 500 0 available ∷ output 2 700 3 available ∷ output 3 900 3 spent ∷ []

abbrev args : Args
args = record {
  txid = 4;
  vout = 0;
  satoshis = 800;
  key_id = 3;
  address = some 50;
  script = none;
  force = false;
  exclusive = true;
  confirm = true;
}

abbrev world : AddUtxo.World
world = record {
  client_starts = true;
  is_utxo_spent = some false;
  to_address = λ s. none;
  unspent_of = λ addr. some (record { tx_hash = 4; tx_pos = 0; value = 800; height = 1 } ∷ []);
  script_of = λ addr. some 9;
}

added : (add_utxo_script args world (in_memory Utxo) 8 pool).0 ≡ passes true (some 9)
unfolding add_utxo_script check
added = refl

added_is_backed_example :
    let (r, us') = add_utxo_script args world (in_memory Utxo) 8 pool in
    ((code : ℕ) × (r ≡ exits code) × (us' ≡ pool))
    ⊎ ((script : Option ℕ) × (r ≡ passes true script)
        × OnChain args world
        × (world.is_utxo_spent ≡ some false)
        × (us' ≡ add args world (in_memory Utxo) 8 script pool))
added_is_backed_example = added_is_backed args world (in_memory Utxo) 8 pool refl

unlisted :
    (add_utxo_script (record args { satoshis = 900 }) world (in_memory Utxo) 8 pool).0 ≡ exits 5
unfolding add_utxo_script check
unlisted = refl

-- The first output alone has no key.
backfilled_pool :
    backfill (in_memory Utxo) 8 3 false (some 1) pool
    ≡ record (output 1 500 3 available) { updated_at = 8 }
      ∷ output 2 700 3 available
      ∷ output 3 900 3 spent
      ∷ []
unfolding backfill drain update_batch
backfilled_pool = refl

backfill-backfilled_example :
    backfill (in_memory Utxo) 8 3 false (some 1) pool
    ≡ (if false then pool else backfilled 8 3 pool)
backfill-backfilled_example =
    backfill-backfilled (in_memory Utxo) 8 3 false (some 1) pool
      ((refl, (refl, tt)), ((refl, tt), (tt, tt)))

abbrev healthy : Health.World
healthy = record {
  env = true ∷ [];
  client_starts = true;
  db_connects = true;
  redis_ready = some true;
  available_utxos = some pool;
  is_spent = λ u. some false;
}

exits_with_0 : exit_code healthy ≡ 0
unfolding exit_code run_health_check check_pool check_each
exits_with_0 = refl
