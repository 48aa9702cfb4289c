-- ===== src/Claims.antt =====
-- controllers/posController.js: a customer claims a patch at the point of sale, and the shop
-- approves the claim. `intent.save()` writes the fields that the handler has set.
pub mod Model
pub mod Approval
pub mod Tests
use patch_proof_api.Base.{
  ℕ, ◌-◌, Bool, true, false, ◌||◌, not, List, [], ◌∷◌, Option, none, some, ◌==◌, ltb, if◌then◌else◌,
}
use patch_proof_api.Mongo.{Collection}
use patch_proof_api.Records.{
  get_patch_state, get_record_by_txid, create_pending_transfer, attach_job,
}
use patch_proof_api.Records.Model.{
  RecordData, AuthenticationRecord, PatchState, Store, Driver, DbError, Result, ok, err,
}
use patch_proof_api.Claims.Model.{
  IntentStatus, pending, approved, confirmed, failed, expired, ClaimIntent, Canonical, Crypto,
  Response, bad_request, challenge_expired, address_mismatch, invalid_signature, patch_not_found,
  intent_not_found, record_not_found, intent_expired, server_error, created, conflict, approval,
  failed_with, claim, is_outside, ClaimBody, canonical, new_intent, claim_data, set_intent,
}

module _ (db : Driver) (intents : Collection ClaimIntent) (crypto : Crypto) (ttl : ℕ) where
  abbrev pub find_intent : ℕ → List ClaimIntent → Option ClaimIntent
  find_intent id cs = intents.find_one (λ i. i.id == id) cs

  abbrev claim_patch :
      ℕ → ClaimBody → Option PatchState → List ClaimIntent → Response × List ClaimIntent
  claim_patch id b none cs = (patch_not_found, cs)
  claim_patch id b (some p) cs = (created id, intents.create (new_intent id b) cs)

  abbrev pub claim_derived :
      ℕ → ClaimBody → Option ℕ → Store → List ClaimIntent → Response × List ClaimIntent
  claim_derived id b none s cs = (server_error, cs)
  claim_derived id b (some derived) s cs =
      if not (derived == b.address)
      then (address_mismatch, cs)
      else if not (crypto.verify (canonical b) b.signature b.pub_key)
      then (invalid_signature, cs)
      else claim_patch id b (get_patch_state db b.uid s) cs

  unfoldable pub create_claim_intent :
      Bool → ℕ → ℕ → ClaimBody → Store → List ClaimIntent → Response × List ClaimIntent
  create_claim_intent is_valid now id b s cs =
      if not is_valid
      then (bad_request, cs)
      else if is_outside ttl now b.ts
      then (challenge_expired, cs)
      else claim_derived id b (crypto.address_of b.pub_key) s cs

  -- `intent.save()` after a successful creation; the job is queued where jobs are on.
  abbrev approve_saved :
      ℕ
      → ℕ
      → ClaimIntent
      → ℕ
      → Option ℕ
      → Store
      → List ClaimIntent
      → Response × Store × List ClaimIntent
  approve_saved now by i pid job s cs = (
    approval i.id pid job,
    s,
    intents.update_one (λ e. e.id == i.id) (set_intent approved (some by) (some now) (some pid)) cs,
  )

  -- The outer `none` is that jobs are off, the inner one that the queue fails.
  abbrev approve_queued :
      ℕ
      → ℕ
      → ClaimIntent
      → ℕ
      → Option (Option ℕ)
      → Store
      → List ClaimIntent
      → Response × Store × List ClaimIntent
  approve_queued now by i pid none s cs = approve_saved now by i pid none s cs
  approve_queued now by i pid (some none) s cs = (server_error, s, cs)
  approve_queued now by i pid (some (some j)) s cs =
      approve_saved now by i pid (some j) (attach_job db now pid (some j) s) cs

  abbrev approve_pending :
      ℕ
      → ℕ
      → ClaimIntent
      → Option (Option ℕ)
      → Result AuthenticationRecord × Store
      → List ClaimIntent
      → Response × Store × List ClaimIntent
  approve_pending now by i job (err e, s) cs = (failed_with e, s, cs)
  approve_pending now by i job (ok r, s) cs = approve_queued now by i r.id job s cs

  abbrev pub approve_record :
      ℕ
      → ℕ
      → ℕ
      → ClaimIntent
      → Option (Option ℕ)
      → PatchState
      → Option RecordData
      → Store
      → List ClaimIntent
      → Response × Store × List ClaimIntent
  approve_record now id by i job p none s cs = (record_not_found, s, cs)
  approve_record now id by i job p (some d) s cs =
      approve_pending now by i job
        (create_pending_transfer db now id i.uid p.current_txid (claim_data now i.address d) s) cs

  abbrev pub approve_state :
      ℕ
      → ℕ
      → ℕ
      → ClaimIntent
      → Option (Option ℕ)
      → Option PatchState
      → Store
      → List ClaimIntent
      → Response × Store × List ClaimIntent
  approve_state now id by i job none s cs = (patch_not_found, s, cs)
  approve_state now id by i job (some p) s cs =
      approve_record now id by i job p (get_record_by_txid db p.current_txid s) s cs

  abbrev pub approve_found :
      ℕ
      → ℕ
      → ℕ
      → ClaimIntent
      → IntentStatus
      → Option (Option ℕ)
      → Store
      → List ClaimIntent
      → Response × Store × List ClaimIntent
  approve_found now id by i pending job s cs =
      if is_outside ttl now i.ts
      then (
        intent_expired,
        s,
        intents.update_one (λ e. e.id == i.id) (λ e. record e { status = expired }) cs,
      )
      else approve_state now id by i job (get_patch_state db i.uid s) s cs
  approve_found now id by i approved job s cs = (conflict approved, s, cs)
  approve_found now id by i confirmed job s cs = (conflict confirmed, s, cs)
  approve_found now id by i failed job s cs = (conflict failed, s, cs)
  approve_found now id by i expired job s cs = (conflict expired, s, cs)

  abbrev pub approve_intent :
      ℕ
      → ℕ
      → ℕ
      → Option ClaimIntent
      → Option (Option ℕ)
      → Store
      → List ClaimIntent
      → Response × Store × List ClaimIntent
  approve_intent now id by none job s cs = (intent_not_found, s, cs)
  approve_intent now id by (some i) job s cs = approve_found now id by i i.status job s cs

  unfoldable pub approve_claim_intent :
      Bool
      → ℕ
      → ℕ
      → ℕ
      → ℕ
      → Option (Option ℕ)
      → Store
      → List ClaimIntent
      → Response × Store × List ClaimIntent
  approve_claim_intent is_valid now id intent_id by job s cs =
      if not is_valid
      then (bad_request, s, cs)
      else approve_intent now id by (find_intent intent_id cs) job s cs

  abbrev show_claim : Option ClaimIntent → Response
  show_claim none = intent_not_found
  show_claim (some i) = claim i.status i.txid i.error i.approved_by

  unfoldable pub get_claim_status : ℕ → List ClaimIntent → Response
  get_claim_status id cs = show_claim (find_intent id cs)
