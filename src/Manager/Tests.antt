-- ===== src/Manager/Tests.antt =====
-- Runs of services/utxoManagerService.js, and the theorems at these.
use patch_proof_api.Base.{
  length, ℕ, ◌+◌, ◌≤◌, ◌<◌, ◌≡◌, ◌≢◌, refl, true, false, List, [], ◌∷◌, Option, some, All,
}
use patch_proof_api.Mongo.{Collection, first}
use patch_proof_api.Mongo.InMemory.{in_memory}
use patch_proof_api.Samples.{output, config}
use patch_proof_api.Retry.{Unspent}
use patch_proof_api.Transactions.{Transaction}
use patch_proof_api.Utxo.{
  Utxo, available, locked, unconfirmed, get_pool_count, is_at, add_utxo, spend_utxos,
}
use patch_proof_api.Manager.{split_done, split_if_needed, split_outputs, sync_utxos, add_each}
use patch_proof_api.Manager.Sync.{IsBackedOnChain, sync-IsBackedOnChain}
use patch_proof_api.Manager.Split.{Funded, split-Funded}

abbrev mem : Collection Utxo
mem = in_memory Utxo

abbrev pool : List Utxo
pool = output 1 0 90000 available 1 ∷ output 2 0 500 locked 5 ∷ output 3 0 50 unconfirmed 1 ∷ []

-- The chain has the locked output and the unconfirmed one, and not the first.
abbrev chain : List Unspent
chain =
    record { tx_hash = 2; tx_pos = 0; value = 500; height = 90 }
    ∷ record { tx_hash = 3; tx_pos = 0; value = 50; height = 95 }
    ∷ []

-- An output that a payment has locked is not looked at, and comes back as available.
sync_unlocks :
    first (is_at (2, 0)) (sync_utxos mem config false 10 100 chain pool).1
    ≡ some (output 2 0 500 available 10)
unfolding sync_utxos add_each add_utxo spend_utxos
sync_unlocks = refl

sync-IsBackedOnChain_example :
    All (IsBackedOnChain mem config chain) (sync_utxos mem config false 10 100 chain pool).1
sync-IsBackedOnChain_example = sync-IsBackedOnChain mem config 10 100 chain pool

abbrev send : Transaction → Option ℕ
send tx = some (77 + length tx.outputs)

split_two : (split_if_needed mem config false 10 true send pool).0 ≡ split_done 79 2
unfolding split_if_needed get_pool_count split_outputs
split_two = refl

split-Funded_example :
    (get_pool_count mem 7 pool + 2 ≤ 3)
    × (2 ≤ 40)
    × (config.max_split_outputs ≢ 0 → 0 < 2)
    × Funded mem config send 79 2 pool
split-Funded_example = split-Funded mem config false true 10 79 2 send pool split_two
