-- ===== src/Anchoring.antt =====
-- scripts/batchAnchor.js, and the task of the same kind in controllers/adminController.js: pending
-- records are hashed into a Merkle tree, its root is broadcast, and each gets its path. The
-- broadcast goes through a function that services/blockchainService.js does not export.
pub mod Batch
pub mod Tests
use patch_proof_api.Base.{
  ℕ, suc, zero, ◌+◌, Bool, true, false, ◌||◌, not, List, [], ◌∷◌, map, Option, none, some, ◌==◌,
  length, min, keep, if◌then◌else◌, elem,
}
use patch_proof_api.Mongo.{Collection}
use patch_proof_api.Lock.{Attempt, returned, thrown, LockResult, of_attempt}
use patch_proof_api.Merkle.{compute_merkle_root, compute_merkle_path}
use patch_proof_api.Records.Model.{
  AuthenticationRecord, AuthBlock, RecordData, Store, Driver, Status, anchoring, confirmed, pending,
  is_pending, is_anchoring,
}
use patch_proof_api.Patches.{Broadcast, not_exported, rejected, broadcast_as}
use patch_proof_api.Utxo.{Utxo, is_unconfirmed, is_available, is_locked, is_spent}

-- sha256 of the data of a record and of two digests, and the digest of 32 zero bytes.
pub record Hashing : Type 0 where
  pub digest : RecordData → ℕ
  pub combine : ℕ → ℕ → ℕ
  pub zeros : ℕ

abbrev pub is_claimed : List ℕ → AuthenticationRecord → Bool
is_claimed ids r = elem r.id ids

-- What the bulk operation sets; `path.map` throws at an `undefined` sibling, which no path has.
abbrev pub siblings : List (Option ℕ) → List ℕ
siblings [] = []
siblings (none ∷ os) = siblings os
siblings (some d ∷ os) = d ∷ siblings os

abbrev pub path_of : Option (List (Option ℕ)) → List ℕ
path_of none = []
path_of (some os) = siblings os

abbrev pub as_anchored : ℕ → Option ℕ → List ℕ → ℕ → AuthenticationRecord → AuthenticationRecord
as_anchored now root path txid r = record r {
  status = confirmed;
  updated_at = now;
  record_data = record (r.record_data) {
    auth = record (r.record_data.auth) {
      merkle_root = root;
      merkle_path = path;
      anchor_txid = some txid;
    };
  };
}

module _ (db : Driver) (h : Hashing) where
  abbrev pub digests : List AuthenticationRecord → List ℕ
  digests rs = map (λ r. h.digest r.record_data) rs

  -- The bulk write: one `updateOne` by id for each record, the `i`-th with the `i`-th path.
  unfoldable pub write_proofs :
      ℕ
      → Option ℕ
      → List ℕ
      → ℕ
      → ℕ
      → List AuthenticationRecord
      → List AuthenticationRecord
      → List AuthenticationRecord
  write_proofs now root hashes txid i [] rs = rs
  write_proofs now root hashes txid i (r ∷ more) rs =
      write_proofs now root hashes txid (i + 1) more (
        db.records.update_one (λ e. e.id == r.id)
          (as_anchored now root (path_of (compute_merkle_path h.combine i hashes)) txid) rs)

  unfoldable pub claim_records : ℕ → List ℕ → List AuthenticationRecord → List AuthenticationRecord
  claim_records now ids =
      db.records.update_many (is_claimed ids)
        (λ r. record r { status = anchoring; updated_at = now })

  abbrev find_claimed : List ℕ → List AuthenticationRecord → List AuthenticationRecord
  find_claimed ids rs = db.records.find (is_claimed ids) 0 rs

  -- From the broadcast on; the call of an `undefined` function throws.
  abbrev pub anchor_answered :
      ℕ → ℕ → List AuthenticationRecord → Broadcast → Store → Attempt Bool × Store
  anchor_answered now root found not_exported s = (thrown 0, s)
  anchor_answered now root found (rejected reason) s = (thrown reason, s)
  anchor_answered now root found (broadcast_as txid) s = (
    returned true,
    record s { records = write_proofs now (some root) (digests found) txid 0 found s.records },
  )

  abbrev pub anchor_broadcast :
      ℕ → (ℕ → Broadcast) → List AuthenticationRecord → Option ℕ → Store → Attempt Bool × Store
  anchor_broadcast now chain found none s = (thrown 0, s)
  anchor_broadcast now chain found (some root) s = anchor_answered now root found (chain root) s

  -- The critical section of `batchAnchorRecords`, for the ids of the pending records found.
  abbrev pub anchor_claimed : ℕ → (ℕ → Broadcast) → List ℕ → Store → Attempt Bool × Store
  anchor_claimed now chain [] s = (returned true, s)
  anchor_claimed now chain (i ∷ is) s =
      let claimed = claim_records now (i ∷ is) s.records in
      let found = find_claimed (i ∷ is) claimed in
      anchor_broadcast now chain found (compute_merkle_root h.combine h.zeros (digests found))
        (record s { records = claimed })

  unfoldable pub anchor_section : ℕ → (ℕ → Broadcast) → ℕ → Store → Attempt Bool × Store
  unfolding write_proofs claim_records
  anchor_section now chain limit s =
      anchor_claimed now chain
        (map (λ r. r.id) (db.records.find (λ r. is_pending r.status) limit s.records)) s

  -- `batchAnchorRecords` under its lease. `withLockHeartbeat` never rejects: it turns what the
  -- section throws into `{ ok: false }`, so that the handler given to `.catch`, which would
  -- set the claimed records back to pending, does not run.
  unfoldable pub batch_anchor : Bool → ℕ → (ℕ → Broadcast) → ℕ → Store → LockResult Bool × Store
  unfolding anchor_section
  batch_anchor is_leased now chain limit s =
      if not is_leased
      then (LockResult.not_acquired, s)
      else let (r, s') = anchor_section now chain limit s in (of_attempt r, s')

-- The exit code of the script. What `withLockHeartbeat` resolves to is looked at and nothing is
-- done about it; `process.exitCode = 1` stands in the handler given to `.catch`.
unfoldable pub exit_code : LockResult Bool → ℕ
exit_code (LockResult.done ended) = 0
exit_code LockResult.not_acquired = 0
exit_code (LockResult.failed error) = 0

module _ (db : Driver) (h : Hashing) where
  -- The whole script: its exit code, and what the database holds then.
  unfoldable pub batch_anchor_records : Bool → ℕ → (ℕ → Broadcast) → ℕ → Store → ℕ × Store
  unfolding batch_anchor exit_code
  batch_anchor_records is_leased now chain limit s =
      let (r, s') = batch_anchor db h is_leased now chain limit s in (exit_code r, s')

-- The response of `AdminController.batchAnchor`; none comes where the method throws before its
-- `try`.
pub data AdminResult : Type 0 where
  in_progress nothing_to_do broadcast_error threw unanswered : AdminResult
  anchored : ℕ → ℕ → AdminResult

module _ (db : Driver) (h : Hashing) where
  abbrev pub admin_answered :
      ℕ → Option ℕ → List AuthenticationRecord → Broadcast → Store → AdminResult × Store
  admin_answered now root found not_exported s = (threw, s)
  admin_answered now root found (rejected reason) s = (broadcast_error, s)
  admin_answered now root found (broadcast_as txid) s = (
    anchored txid (length found),
    record s { records = write_proofs db h now root (digests db h found) txid 0 found s.records },
  )

  abbrev pub admin_found :
      ℕ → (ℕ → Broadcast) → List AuthenticationRecord → Store → AdminResult × Store
  admin_found now chain [] s = (nothing_to_do, s)
  admin_found now chain (r ∷ rs) s =
      rooted (compute_merkle_root h.combine h.zeros (digests db h (r ∷ rs)))
    where
      rooted : Option ℕ → AdminResult × Store
      rooted none = (threw, s)
      rooted (some root) = admin_answered now (some root) (r ∷ rs) (chain root) s

  -- `Math.min(limit, 1000)`; the set of running tasks is one flag, which `finally` clears. Where
  -- the method is not bound to its object, as app.js passes it, `this._acquireLock` throws.
  unfoldable pub admin_batch_anchor :
      Bool → Bool → ℕ → (ℕ → Broadcast) → ℕ → Store → AdminResult × Store
  unfolding write_proofs
  admin_batch_anchor false is_running now chain limit s = (unanswered, s)
  admin_batch_anchor true is_running now chain limit s =
      if is_running
      then (in_progress, s)
      else admin_found now chain
          (db.records.find (λ r. is_pending r.status) (min limit 1000) s.records) s

-- `getUtxoHealth`: count and satoshis for each status.
abbrev pub satoshis_of : List Utxo → ℕ
satoshis_of [] = 0
satoshis_of (u ∷ us) = u.satoshis + satoshis_of us

abbrev pub group : (Utxo → Bool) → List Utxo → ℕ × ℕ
group p us = (length (keep p us), satoshis_of (keep p us))

pub record HealthReport : Type 0 where
  pub unconfirmed : ℕ × ℕ
  pub available : ℕ × ℕ
  pub locked : ℕ × ℕ
  pub spent : ℕ × ℕ

unfoldable pub get_utxo_health : List Utxo → HealthReport
get_utxo_health us = record {
  unconfirmed = group (λ u. is_unconfirmed u.status) us;
  available = group (λ u. is_available u.status) us;
  locked = group (λ u. is_locked u.status) us;
  spent = group (λ u. is_spent u.status) us;
}
