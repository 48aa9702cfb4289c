-- ===== src/Records/Tests.antt =====
-- Runs of services/databaseService.js on a store in memory, and the theorems at these.
use patch_proof_api.Base.{◌≡◌, refl, List, [], ◌∷◌, some, inl, inr, arith}
use patch_proof_api.Samples.{driver, store, registered, first_transfer, second_transfer}
use patch_proof_api.Records.{
  replica_set, fresh, mark_confirmed, with_transaction, confirm_body, confirm_found, move_state,
  put_state, save_state, find_spendable, is_txid_of_other, set_state, upsert_state, save_confirmed,
  set_confirmed, find_record,
}
use patch_proof_api.Records.Model.{ok, err, lock_failure, Store}
use patch_proof_api.Records.Calls.{Call, confirms, reverts, fails, run}
use patch_proof_api.Records.Backed.{IsBacked}
use patch_proof_api.Records.Final.{confirmed_final}
use patch_proof_api.Records.Histories.{run-IsBacked}
use patch_proof_api.Records.Ledger.{Reach}
use patch_proof_api.Records.Refines.{run_refines, view, demands}
use patch_proof_api.Records.Ownership.{IsUnique, second_transfer_fails}

abbrev after_first : Store
after_first = (mark_confirmed driver replica_set 5 2 300 store).1

confirm_first : mark_confirmed driver replica_set 5 2 300 store ≡ (ok (fresh 300), after_first)
unfolding mark_confirmed with_transaction confirm_body confirm_found move_state save_state
    find_spendable is_txid_of_other set_state save_confirmed set_confirmed
confirm_first = refl

confirm_again :
    mark_confirmed driver replica_set 5 10 400 store
    ≡ (ok (fresh 400), (mark_confirmed driver replica_set 5 10 400 store).1)
unfolding mark_confirmed with_transaction confirm_body confirm_found move_state put_state
    is_txid_of_other upsert_state save_confirmed set_confirmed
confirm_again = refl

second_transfer_fails_example :
    mark_confirmed driver replica_set 6 3 301 after_first ≡ (err lock_failure, after_first)
second_transfer_fails_example =
    second_transfer_fails driver replica_set replica_set 5 6 2 3 300 301 100 first_transfer
      second_transfer store after_first ((refl, tt), (tt, tt)) refl refl refl refl refl refl refl
      (λ h. absurd (omega arith)) (λ h. absurd (omega arith)) confirm_first

store-IsBacked : IsBacked store
store-IsBacked =
    (inl (refl, refl, refl, refl), (inr (inr (inr (inl (refl, refl, refl, refl)))), tt))

abbrev history : List Call
history =
    confirms replica_set 5 2 300 ∷ fails 6 3 1 ∷ reverts 7 3 ∷ confirms replica_set 8 3 301 ∷ []

run-IsBacked_example : IsBacked (run driver history store)
run-IsBacked_example =
    run-IsBacked driver history store ((λ h. absurd (cc)), (tt, (tt, ((λ h. absurd (cc)), tt))))
      store-IsBacked

confirmed_final_example : find_record driver 1 (run driver history store) ≡ some registered
confirmed_final_example = confirmed_final driver history 1 registered store refl refl

run_refines_example :
    IsUnique (λ p. p.uid_tag_id) (run driver history store).states
    × Reach
        (demands driver history store)
        (view driver store)
        (view driver (run driver history store))
run_refines_example = run_refines driver history store ((refl, tt), (tt, tt))
