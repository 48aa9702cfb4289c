-- ===== src/Anchoring/Batch.antt =====
-- scripts/batchAnchor.js and controllers/adminController.js: failed batches and the health report.
use patch_proof_api.Base.{
  ℕ, ◌+◌, ◌≡◌, ◌≢◌, refl, Bool, true, List, [], ◌∷◌, map, Option, none, some, arith, All, length,
}
use patch_proof_api.Mongo.{modify_all}
use patch_proof_api.Lock.{Attempt, returned, LockResult, done, not_acquired, failed, of_attempt}
use patch_proof_api.Records.Model.{AuthenticationRecord, Store, Driver, anchoring, is_pending}
use patch_proof_api.Patches.{Broadcast, not_exported, rejected, broadcast_as}
use patch_proof_api.Utxo.{Utxo}
use patch_proof_api.Anchoring.{
  Hashing, is_claimed, claim_records, anchor_broadcast, anchor_answered, anchor_claimed,
  anchor_section, batch_anchor, exit_code, batch_anchor_records, get_utxo_health, satoshis_of,
}

modify-Claimed :
    (now : ℕ) (ids : List ℕ) (rs : List AuthenticationRecord)
    → All
        (λ r. is_claimed ids r ≡ true → r.status ≡ anchoring)
        (modify_all (is_claimed ids) (λ r. record r { status = anchoring; updated_at = now }) rs)
modify-Claimed now ids [] = tt
modify-Claimed now ids (r ∷ rs) = ground (arith, modify-Claimed now ids rs)

module _ (db : Driver) (h : Hashing) where
  -- The ids that a batch claims.
  abbrev pub claimed_ids : ℕ → Store → List ℕ
  claimed_ids limit s = map (λ r. r.id) (db.records.find (λ r. is_pending r.status) limit s.records)

  abbrev Stuck : ℕ → List ℕ → Attempt Bool × Store → Store → Type 0
  Stuck now ids (r, s') s =
      ((b : Bool) → r ≢ returned b)
      × All (λ e. is_claimed ids e ≡ true → e.status ≡ anchoring) s'.records
      × (s'.states ≡ s.states)

  answer-Stuck :
      (now : ℕ) (chain : ℕ → Broadcast) (ids : List ℕ) (found : List AuthenticationRecord)
      (o : Option ℕ) (s' s : Store)
      → ((root txid : ℕ) → chain root ≢ broadcast_as txid)
      → All (λ e. is_claimed ids e ≡ true → e.status ≡ anchoring) s'.records
      → s'.states ≡ s.states
      → Stuck now ids (anchor_broadcast db h now chain found o s') s
  answer-Stuck now chain ids found none s' s fails a e = (λ b k. absurd (cc), a, e)
  answer-Stuck now chain ids found (some root) s' s fails a e = answered (chain root) (fails root)
    where
      answered :
          (b : Broadcast)
          → ((txid : ℕ) → b ≢ broadcast_as txid)
          → Stuck now ids (anchor_answered db h now root found b s') s
      answered not_exported f = (λ b k. absurd (cc), a, e)
      answered (rejected reason) f = (λ b k. absurd (cc), a, e)
      answered (broadcast_as txid) f = absurd (f txid refl)

  claimed-Stuck :
      (now : ℕ) (chain : ℕ → Broadcast) (ids : List ℕ) (s : Store)
      → ((root txid : ℕ) → chain root ≢ broadcast_as txid)
      → ids ≢ []
      → Stuck now ids (anchor_claimed db h now chain ids s) s
  unfolding claim_records
  claimed-Stuck now chain [] s fails ne = absurd (ne refl)
  claimed-Stuck now chain (i ∷ is) s fails ne =
      answer-Stuck now chain (i ∷ is) _ _ _ s fails
        (rw
          (db.records.update_many_law (is_claimed (i ∷ is))
            (λ r. record r { status = anchoring; updated_at = now }) s.records)
          (modify-Claimed now (i ∷ is) s.records))
        refl

  always-zero : (r : LockResult Bool) → exit_code r ≡ 0
  unfolding exit_code
  always-zero (done ended) = refl
  always-zero not_acquired = refl
  always-zero (failed error) = refl

  -- When the broadcast of a batch fails, or its function is not there, the script ends as if it had
  -- succeeded, with exit code 0, and leaves every record that it claimed, of which there is one at
  -- least, as `anchoring`: none is set back to pending, and no patch state is touched.
  pub failed_batch_stuck :
      (now limit : ℕ) (chain : ℕ → Broadcast) (s : Store)
      → ((root txid : ℕ) → chain root ≢ broadcast_as txid)
      → claimed_ids limit s ≢ []
      → let (code, s') = batch_anchor_records db h true now chain limit s in
        (code ≡ 0)
        × All (λ e. is_claimed (claimed_ids limit s) e ≡ true → e.status ≡ anchoring) s'.records
        × (s'.states ≡ s.states)
  unfolding batch_anchor_records batch_anchor anchor_section
  failed_batch_stuck now limit chain s fails ne =
      let (a, b, e) = claimed-Stuck now chain (claimed_ids limit s) s fails ne in
      (always-zero (of_attempt (anchor_section db h now chain limit s).0), b, e)

-- The report counts every output of the pool once, and its satoshis once.
health-partition :
    (us : List Utxo)
    → let r = get_utxo_health us in
      (r.unconfirmed.0 + (r.available.0 + (r.locked.0 + r.spent.0)) ≡ length us)
      × (r.unconfirmed.1 + (r.available.1 + (r.locked.1 + r.spent.1)) ≡ satoshis_of us)
unfolding get_utxo_health
health-partition [] = (refl, refl)
health-partition (u ∷ us) = ground (arith, health-partition us)
