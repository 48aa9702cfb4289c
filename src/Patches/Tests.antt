-- ===== src/Patches/Tests.antt =====
-- Runs of controllers/patchController.js, and the theorems at these.
use patch_proof_api.Base.{
  ℕ, ◌+◌, ◌≡◌, ◌⊎◌, refl, Bool, true, false, ◌&&◌, [], ◌∷◌, none, some, arith, ◌==◌, min,
}
use patch_proof_api.Samples.{driver, store, other_patch, data_of, state_of}
use patch_proof_api.Records.{
  replica_set, get_patch_state, get_record_by_txid, create_pending_transfer, find_record,
}
use patch_proof_api.Records.Model.{AuthenticationRecord, RecordData, PatchState, Store, pending}
use patch_proof_api.Patches.{
  Crypto, Env, Message, register_patch, transfer_ownership, unlock_content, broadcast_as,
  authorized, queued, transferred, verifies, register_patch_handler, dispatch, transfer_data,
  transfer_ownership_handler, unlock_content_handler,
}
use patch_proof_api.Patches.Stored.{
  IsBinding, queued_registration-verifies, queued_transfer-compromised,
}
use patch_proof_api.Patches.Transfer.{Authorised, transfer_by_owner, unlock_by_owner}

-- Key 12 has signed the registration of patch 7 with signature 11, and key 5, whose address is
-- 50, has signed a transfer and an unlocking with 21 and 22.
abbrev signed : Message → ℕ → ℕ → Bool
signed (register_patch u m t) sig key =
    u == 7 && (m == 9 && (t == 1000 && (sig == 11 && key == 12)))
signed (transfer_ownership u t o) sig key =
    u == 7 && (t == 100 && (o == 60 && (sig == 21 && key == 5)))
signed (unlock_content u t) sig key = u == 7 && (t == 100 && (sig == 22 && key == 5))

abbrev crypto : Crypto
crypto = record {
  verify = signed;
  address_of = λ k. some (k + 45);
  metadata_hash = λ m. m;
  sign = λ m. some (11, 12);
  stored_metadata = λ m. min m 9;
}

abbrev env : Env
env = record {
  now = 2000;
  fresh_id = 20;
  job = none;
  session = replica_set;
  broadcast = λ d. broadcast_as 300;
}

transfer_by_owner_example :
    let r = transfer_ownership_handler driver crypto env true 100 60 21 5 store in
    (r.1 ≡ store)
    ⊎ ((d : RecordData) × Authorised driver crypto 100 60 21 5 d store
        × (r
            ≡ dispatch driver env transferred (
                create_pending_transfer driver env.now env.fresh_id d.uid_tag_id 100
                  (transfer_data env.now 60 d)
                  store)))
transfer_by_owner_example = transfer_by_owner driver crypto env true 100 60 21 5 store

unlock_grant : unlock_content_handler driver crypto true 7 22 5 none store ≡ authorized 100 none
unfolding unlock_content_handler get_patch_state
unlock_grant = refl

unlock_by_owner_example :
    (p : PatchState) × (owner : ℕ) × (get_patch_state driver 7 store ≡ some p)
    × (p.current_owner_address ≡ some owner)
    × (some 50 ≡ some owner)
    × (signed (unlock_content 7 p.current_txid) 22 5 ≡ true)
    × (100 ≡ p.current_txid)
unlock_by_owner_example = unlock_by_owner driver crypto true 7 22 5 100 none none store unlock_grant

register_unique :
    (u m t u' m' t' sig key : ℕ)
    → signed (register_patch u m t) sig key ≡ true
    → signed (register_patch u' m' t') sig key ≡ true
    → register_patch u m t ≡ register_patch u' m' t'
register_unique u m t u' m' t' sig key h h' = ground arith

signed-IsBinding : IsBinding driver crypto
signed-IsBinding (register_patch u m t) (register_patch u' m' t') sig key h h' =
    register_unique u m t u' m' t' sig key h h'
signed-IsBinding (transfer_ownership u t o) (transfer_ownership u' t' o') sig key h h' =
    ground arith
signed-IsBinding (unlock_content u t) (unlock_content u' t') sig key h h' = ground arith
signed-IsBinding (register_patch u m t) (transfer_ownership u' t' o') sig key h h' =
    absurd (ground arith)
signed-IsBinding (register_patch u m t) (unlock_content u' t') sig key h h' = absurd (ground arith)
signed-IsBinding (transfer_ownership u t o) (register_patch u' m' t') sig key h h' =
    absurd (ground arith)
signed-IsBinding (transfer_ownership u t o) (unlock_content u' t') sig key h h' =
    absurd (ground arith)
signed-IsBinding (unlock_content u t) (register_patch u' m' t') sig key h h' = absurd (ground arith)
signed-IsBinding (unlock_content u t) (transfer_ownership u' t' o') sig key h h' =
    absurd (ground arith)

-- At the time at which key 12 signs a registration, and a database without the patch.
abbrev early : Env
early = record env { now = 1000; job = some (some 33) }

abbrev others : Store
others = record { records = other_patch ∷ []; states = state_of 8 200 51 ∷ [] }

queued_registration-verifies_example :
    let (answer, s') = register_patch_handler driver crypto early true true 7 9 50 others in
    (answer ≡ queued 33 20)
    × ((r : AuthenticationRecord) × (find_record driver 20 s' ≡ some r)
        × (r.status ≡ pending)
        × (r.job_id ≡ some 33)
        × (verifies crypto r.record_data ≡ true))
queued_registration-verifies_example =
    queued_registration-verifies driver crypto early 7 9 50 33 11 12 others signed-IsBinding refl
      (refl, tt) refl refl

-- The same key would have to sign again at the time of a transfer.
abbrev late : Env
late = record env { job = some (some 34) }

authentic_before : get_record_by_txid driver 100 store ≡ some (data_of 7 50 1000)
unfolding get_record_by_txid
authentic_before = refl

state_before : get_patch_state driver 7 store ≡ some (state_of 7 100 50)
unfolding get_patch_state
state_before = refl

queued_transfer-compromised_example :
    let (answer, s') = transfer_ownership_handler driver crypto late true 100 60 21 5 store in
    (answer ≡ queued 34 20)
    × ((r : AuthenticationRecord) × (find_record driver 20 s' ≡ some r)
        × (r.status ≡ pending)
        × (r.previous_txid ≡ some 100)
        × (r.record_data ≡ transfer_data 2000 60 (data_of 7 50 1000))
        × (verifies crypto r.record_data ≡ false))
queued_transfer-compromised_example =
    queued_transfer-compromised driver crypto late 100 60 21 5 34 (data_of 7 50 1000) store
      signed-IsBinding refl (refl, (refl, (refl, (refl, (refl, (refl, (refl, tt)))))))
      (state_of 7 100 50, 50, authentic_before, state_before, refl, refl, refl) refl
      (λ h. absurd (omega arith))
