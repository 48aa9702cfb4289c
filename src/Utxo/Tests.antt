-- ===== src/Utxo/Tests.antt =====
-- Runs of services/utxoService.js on a pool in memory, and the theorems at these.
use patch_proof_api.Base.{◌≡◌, ◌≢◌, refl, List, [], ◌∷◌, some}
use patch_proof_api.Mongo.{first}
use patch_proof_api.Mongo.InMemory.{in_memory}
use patch_proof_api.Samples.{output}
use patch_proof_api.Utxo.{
  Utxo, available, locked, spent, outpoint, is_at, select_and_lock_utxo, spend_utxo, find_orphaned,
  release_orphaned,
}
use patch_proof_api.Utxo.Select.{Selects, selections, select_and_lock-Selects, selections_differ}
use patch_proof_api.Utxo.Reaper.{reaper_frees_spent}

abbrev pool : List Utxo
pool = output 1 0 900 available 1 ∷ output 2 0 500 available 1 ∷ output 3 0 50 available 1 ∷ []

abbrev locked_pool : List Utxo
locked_pool = output 1 0 900 available 1 ∷ output 2 0 500 locked 5 ∷ output 3 0 50 available 1 ∷ []

abbrev both_locked : List Utxo
both_locked = output 1 0 900 locked 6 ∷ output 2 0 500 locked 5 ∷ output 3 0 50 available 1 ∷ []

select_smallest :
    select_and_lock_utxo (in_memory Utxo) 5 7 100 pool
    ≡ (some (output 2 0 500 locked 5), locked_pool)
unfolding select_and_lock_utxo
select_smallest = refl

select_next :
    select_and_lock_utxo
      (in_memory Utxo)
      6
      7
      100
      (selections (in_memory Utxo) ((6, 7, 2000) ∷ []) locked_pool)
    ≡ (some (output 1 0 900 locked 6), both_locked)
unfolding select_and_lock_utxo selections
select_next = refl

select_and_lock-Selects_example :
    Selects
      (in_memory Utxo)
      5
      7
      100
      pool
      (select_and_lock_utxo (in_memory Utxo) 5 7 100 pool).0
      (select_and_lock_utxo (in_memory Utxo) 5 7 100 pool).1
select_and_lock-Selects_example =
    select_and_lock-Selects (in_memory Utxo) 5 7 100 pool
      ((refl, (refl, tt)), ((refl, tt), (tt, tt)))

selections_differ_example : outpoint (output 2 0 500 locked 5) ≢ outpoint (output 1 0 900 locked 6)
selections_differ_example =
    selections_differ (in_memory Utxo) 5 6 7 7 100 100 pool locked_pool both_locked
      (output 2 0 500 locked 5) (output 1 0 900 locked 6) ((6, 7, 2000) ∷ [])
      ((refl, (refl, tt)), ((refl, tt), (tt, tt))) select_smallest select_next

orphaned : find_orphaned (in_memory Utxo) 600100 10 5 locked_pool ≡ output 2 0 500 locked 5 ∷ []
unfolding find_orphaned
orphaned = refl

reaper_frees_spent_example :
    (first
        (is_at (2, 0))
        (spend_utxo (in_memory Utxo) 600200 (some (output 2 0 500 locked 5)) locked_pool)
      ≡ some (output 2 0 500 spent 600200))
    × (first (is_at (2, 0)) (
          release_orphaned
            (in_memory Utxo)
            600300
            (find_orphaned (in_memory Utxo) 600100 10 5 locked_pool)
            (spend_utxo (in_memory Utxo) 600200 (some (output 2 0 500 locked 5)) locked_pool))
        ≡ some (output 2 0 500 available 600300))
unfolding find_orphaned
reaper_frees_spent_example =
    reaper_frees_spent (in_memory Utxo) 600100 600200 600300 10 5 (output 2 0 500 locked 5)
      (output 2 0 500 locked 5) locked_pool refl refl
