-- ===== src/Anchoring/Tests.antt =====
-- Runs of scripts/batchAnchor.js, and the theorems at these.
use patch_proof_api.Base.{◌+◌, ◌*◌, ◌≡◌, refl, true, [], ◌∷◌, All}
use patch_proof_api.Samples.{driver, store}
use patch_proof_api.Records.Model.{anchoring}
use patch_proof_api.Patches.{not_exported}
use patch_proof_api.Anchoring.{Hashing, is_claimed, batch_anchor_records}
use patch_proof_api.Anchoring.Batch.{claimed_ids, failed_batch_stuck}

abbrev hashing : Hashing
hashing = record { digest = λ d. d.uid_tag_id; combine = λ a b. 100 * a + b; zeros = 0 }

claims_three : claimed_ids driver hashing 100 store ≡ 2 ∷ 3 ∷ 10 ∷ []
claims_three = refl

failed_batch_stuck_example :
    let (code, s') = batch_anchor_records driver hashing true 9 (λ root. not_exported) 100 store in
    (code ≡ 0)
    × All (λ e. is_claimed (2 ∷ 3 ∷ 10 ∷ []) e ≡ true → e.status ≡ anchoring) s'.records
    × (s'.states ≡ store.states)
failed_batch_stuck_example =
    failed_batch_stuck driver hashing 9 100 (λ root. not_exported) store
      (λ root txid h. absurd (cc)) (λ h. absurd (cc))
