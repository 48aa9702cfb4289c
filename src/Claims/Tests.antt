-- ===== src/Claims/Tests.antt =====
-- Runs of controllers/posController.js, and the theorems at these.
use patch_proof_api.Base.{ℕ, ◌+◌, ◌≡◌, ◌≢◌, ◌⊎◌, ◌-◌, ◌≤◌, refl, true, [], ◌∷◌, Option, some, ◌==◌}
use patch_proof_api.Mongo.{Collection}
use patch_proof_api.Mongo.InMemory.{in_memory}
use patch_proof_api.Samples.{driver, store}
use patch_proof_api.Records.{get_patch_state}
use patch_proof_api.Records.Model.{PatchState}
use patch_proof_api.Claims.Model.{
  ClaimIntent, Crypto, ClaimBody, canonical, new_intent, created, approval,
}
use patch_proof_api.Claims.{create_claim_intent, approve_claim_intent}
use patch_proof_api.Claims.Approval.{claim_created, approval_impossible}

abbrev crypto : Crypto
crypto = record { verify = λ c sig key. sig == c.ts + key; address_of = λ k. some (k + 45) }

abbrev intents : Collection ClaimIntent
intents = in_memory ClaimIntent

abbrev body : ClaimBody
body = record {
  uid = 7;
  address = 60;
  user_id = 3;
  pub_key = 15;
  ts = 5000;
  nonce = 1;
  signature = 5015;
}

created_one :
    create_claim_intent driver intents crypto 180000 true 6000 1 body store []
    ≡ (created 1, new_intent 1 body ∷ [])
unfolding create_claim_intent get_patch_state
created_one = refl

claim_created_example :
    let (r, cs') = create_claim_intent driver intents crypto 180000 true 6000 1 body store [] in
    ((cs' ≡ []) × ((i : ℕ) → r ≢ created i))
    ⊎ ((r ≡ created 1)
        × (cs' ≡ new_intent 1 body ∷ [])
        × (6000 - 5000 ≤ 180000)
        × (5000 - 6000 ≤ 180000)
        × (crypto.address_of 15 ≡ some 60)
        × (crypto.verify (canonical body) 5015 15 ≡ true)
        × ((p : PatchState) × (get_patch_state driver 7 store ≡ some p)))
claim_created_example = claim_created driver intents crypto 180000 true 6000 1 body store []

approval_impossible_example :
    let (r, s', cs') =
      approve_claim_intent driver intents crypto 180000 true 7000 30 1 99
        (some (some 5))
        store
        (new_intent 1 body ∷ []) in
    (s' ≡ store) × ((i pid : ℕ) (j : Option ℕ) → r ≢ approval i pid j)
approval_impossible_example =
    approval_impossible driver intents crypto 180000 true 7000 30 1 99 (some (some 5)) store
      (new_intent 1 body ∷ [])
