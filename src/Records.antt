-- ===== src/Records.antt =====
-- services/databaseService.js: the state machine of the authentication records, and the patch
-- states that it maintains. Every method takes the time, which mongoose writes to `updated_at`,
-- and returns what the database holds afterwards.
pub mod Model
pub mod Calls
pub mod Backed
pub mod Final
pub mod Histories
pub mod Lookup
pub mod Ledger
pub mod Refines
pub mod Ownership
pub mod Tests
use mathlib.Core.Option
use patch_proof_api.Base.{
  ℕ, Bool, ◌&&◌, not, List, Option, none, some, ◌==◌, if◌then◌else◌, is_some,
}
use Model.{
  Status, pending, confirmed, failed, anchoring, Kind, registration, transfer, unknown, RecordData,
  AuthenticationRecord, PatchState, Store, Driver, DbError, not_found, lock_failure,
  unsupported_kind, duplicate_key, validation, commit_failed, invalid_status, Result, ok, err,
  is_valid_record_data, is_pending, is_failed, is_confirmed, opt_eq,
}

-- What `mongoose.startSession` gives: a replica set commits or fails to; a standalone server
-- refuses transactions, and the helper falls back to plain writes.
pub data Session : Type 0 where
  replica_set commit_fails standalone : Session

abbrev pub finish : {A : Type 0} → Session → Store → Result A → Store → Result A × Store
finish replica_set s (ok a) s' = (ok a, s')
finish replica_set s (err e) s' = (err e, s)
finish commit_fails s (ok a) s' = (err commit_failed, s)
finish commit_fails s (err e) s' = (err e, s)
finish standalone s r s' = (r, s')

-- `withTransaction`: an error aborts, and the store is what it was.
unfoldable pub with_transaction :
    {A : Type 0} → Session → (Store → Result A × Store) → Store → Result A × Store
with_transaction session operations s = let (r, s') = operations s in finish session s r s'

pub data Confirmation : Type 0 where
  fresh : ℕ → Confirmation
  idempotent : Option ℕ → Confirmation

abbrev pub at_txid : ℕ → Option ℕ → PatchState → PatchState
at_txid txid owner p = record p { current_txid = txid; current_owner_address = owner }

abbrev pub as_confirmed : ℕ → ℕ → AuthenticationRecord → AuthenticationRecord
as_confirmed now txid r = record r {
  status = confirmed;
  txid = some txid;
  failure_reason = none;
  updated_at = now;
}

module _ (db : Driver) where
  unfoldable pub get_patch_state : ℕ → Store → Option PatchState
  get_patch_state uid s = db.states.find_one (λ p. p.uid_tag_id == uid) s.states

  -- The data of the confirmed record of a transaction.
  unfoldable pub get_record_by_txid : ℕ → Store → Option RecordData
  get_record_by_txid txid s =
      Option.map (λ r. r.record_data)
        (db.records.find_one (λ r. opt_eq r.txid txid && is_confirmed r.status) s.records)

  -- `AuthenticationRecord.create`, which validates against the schema.
  unfoldable pub create_record : AuthenticationRecord → Store → Result AuthenticationRecord × Store
  create_record r s =
      if is_valid_record_data r.record_data
      then (ok r, record s { records = db.records.create r s.records })
      else (err validation, s)

  unfoldable pub create_pending_registration :
      ℕ → ℕ → ℕ → RecordData → Store → Result AuthenticationRecord × Store
  unfolding create_record
  create_pending_registration now id uid data_ s =
      create_record
        (record {
          id = id;
          txid = none;
          uid_tag_id = uid;
          kind = registration;
          previous_txid = none;
          status = pending;
          record_data = data_;
          failure_reason = none;
          job_id = none;
          updated_at = now;
        })
        s

  unfoldable pub create_pending_transfer :
      ℕ → ℕ → ℕ → ℕ → RecordData → Store → Result AuthenticationRecord × Store
  unfolding create_record
  create_pending_transfer now id uid current_txid data_ s =
      create_record
        (record {
          id = id;
          txid = none;
          uid_tag_id = uid;
          kind = transfer;
          previous_txid = some current_txid;
          status = pending;
          record_data = data_;
          failure_reason = none;
          job_id = none;
          updated_at = now;
        })
        s

  -- `attachJobToPending` and `attachJobToPendingTransfer`
  unfoldable pub attach_job : ℕ → ℕ → Option ℕ → Store → Store
  attach_job now pid job s = record s {
    records =
        db.records.update_one (λ r. r.id == pid && is_pending r.status)
          (λ r. record r { job_id = job; updated_at = now }) s.records;
  }

  unfoldable pub mark_failed : ℕ → ℕ → ℕ → Store → Store
  mark_failed now pid reason s = record s {
    records =
        db.records.update_one (λ r. r.id == pid && is_pending r.status)
          (λ r. record r { status = failed; failure_reason = some reason; updated_at = now })
          s.records;
  }

  unfoldable pub revert_pending : ℕ → ℕ → Store → Store
  revert_pending now pid s = record s {
    records =
        db.records.update_one (λ r. r.id == pid && is_failed r.status)
          (λ r. record r { status = pending; failure_reason = none; updated_at = now }) s.records;
  }

  -- The unique index on `current_txid`: another patch is at this transaction.
  unfoldable pub is_txid_of_other : ℕ → ℕ → Store → Bool
  is_txid_of_other uid txid s =
      is_some
        (db.states.find_one (λ p. p.current_txid == txid && not (p.uid_tag_id == uid)) s.states)

  unfoldable pub upsert_state : ℕ → ℕ → Option ℕ → List PatchState → List PatchState
  upsert_state uid txid owner =
      db.states.upsert (λ p. p.uid_tag_id == uid) (at_txid txid owner)
        (record { uid_tag_id = uid; current_txid = txid; current_owner_address = owner })

  -- The upsert of a registration.
  unfoldable pub put_state : ℕ → ℕ → Option ℕ → Store → Result (Unit {0}) × Store
  unfolding is_txid_of_other upsert_state
  put_state uid txid owner s =
      if is_txid_of_other uid txid s
      then (err duplicate_key, s)
      else (ok tt, record s { states = upsert_state uid txid owner s.states })

  unfoldable pub set_state : ℕ → ℕ → Option ℕ → List PatchState → List PatchState
  set_state uid txid owner = db.states.update_one (λ p. p.uid_tag_id == uid) (at_txid txid owner)

  -- `state.save()`: the schema requires an owner, and the index a new transaction.
  unfoldable pub save_state : ℕ → ℕ → Option ℕ → Store → Result (Unit {0}) × Store
  unfolding is_txid_of_other set_state
  save_state uid txid none s = (err validation, s)
  save_state uid txid (some owner) s =
      if is_txid_of_other uid txid s
      then (err duplicate_key, s)
      else (ok tt, record s { states = set_state uid txid (some owner) s.states })

  -- The state that a transfer must find: the patch, still at the transaction that it spends.
  unfoldable pub find_spendable : ℕ → Option ℕ → Store → Option PatchState
  find_spendable uid prev s =
      db.states.find_one (λ p. p.uid_tag_id == uid && opt_eq prev p.current_txid) s.states

  unfoldable pub move_state : Kind → AuthenticationRecord → ℕ → Store → Result (Unit {0}) × Store
  unfolding put_state save_state find_spendable
  move_state registration r txid s = put_state r.uid_tag_id txid r.record_data.auth.owner s
  move_state transfer r txid s = elim (find_spendable r.uid_tag_id r.previous_txid s) [
    | none ↦ (err lock_failure, s)
    | some p ↦ save_state r.uid_tag_id txid r.record_data.auth.owner s
  ]
  move_state unknown r txid s = (err unsupported_kind, s)

  unfoldable pub set_confirmed : ℕ → ℕ → ℕ → List AuthenticationRecord → List AuthenticationRecord
  set_confirmed now pid txid = db.records.update_one (λ r. r.id == pid) (as_confirmed now txid)

  -- `pending.save()`, with the unique index on `txid`.
  unfoldable pub save_confirmed : ℕ → ℕ → ℕ → Store → Result Confirmation × Store
  unfolding set_confirmed
  save_confirmed now pid txid s =
      if is_some (db.records.find_one (λ r. opt_eq r.txid txid && not (r.id == pid)) s.records)
      then (err duplicate_key, s)
      else (ok (fresh txid), record s { records = set_confirmed now pid txid s.records })

  abbrev pub save_after : ℕ → ℕ → ℕ → Result (Unit {0}) × Store → Result Confirmation × Store
  save_after now pid txid (ok _, s) = save_confirmed now pid txid s
  save_after now pid txid (err e, s) = (err e, s)

  unfoldable pub confirm_found :
      ℕ → ℕ → AuthenticationRecord → Status → Store → Result Confirmation × Store
  confirm_found now txid r confirmed s = (ok (idempotent r.txid), s)
  confirm_found now txid r pending s = save_after now r.id txid (move_state r.kind r txid s)
  confirm_found now txid r failed s = (err (invalid_status failed), s)
  confirm_found now txid r anchoring s = (err (invalid_status anchoring), s)

  abbrev pub find_record : ℕ → Store → Option AuthenticationRecord
  find_record pid s = db.records.find_one (λ r. r.id == pid) s.records

  -- The operations that `markConfirmed` hands to `withTransaction`.
  unfoldable pub confirm_body : ℕ → ℕ → ℕ → Store → Result Confirmation × Store
  confirm_body now pid txid s = elim (find_record pid s) [
    | none ↦ (err not_found, s)
    | some r ↦ confirm_found now txid r r.status s
  ]

  unfoldable pub mark_confirmed : Session → ℕ → ℕ → ℕ → Store → Result Confirmation × Store
  unfolding with_transaction
  mark_confirmed session now pid txid s = with_transaction session (confirm_body now pid txid) s
