-- ===== src/Records/Model.antt =====
-- The documents of models/AuthenticationRecord.js and models/PatchState.js, and the errors of
-- errors.js that services/databaseService.js throws.
use patch_proof_api.Base.{ℕ, Bool, true, false, ◌&&◌, List, Option, none, some, ◌==◌, is_some}
use patch_proof_api.Mongo.{Collection}

-- `anchoring` is written by scripts/batchAnchor.js, and is not in the schema's enum.
pub data Status : Type 0 where
  pending confirmed failed anchoring : Status

-- `unknown` is any value outside the schema's enum.
pub data Kind : Type 0 where
  registration transfer unknown : Kind

pub record AuthBlock : Type 0 where
  pub owner : Option ℕ
  pub issuer_signature : Option ℕ
  pub issuer_pubkey : Option ℕ
  pub ts : ℕ
  pub txid : Option ℕ
  pub merkle_root : Option ℕ
  pub merkle_path : List ℕ
  pub anchor_txid : Option ℕ

-- `metadata` is opaque.
pub record RecordData : Type 0 where
  pub uid_tag_id : ℕ
  pub metadata : ℕ
  pub auth : AuthBlock

pub record AuthenticationRecord : Type 0 where
  pub id : ℕ
  pub txid : Option ℕ
  pub uid_tag_id : ℕ
  pub kind : Kind
  pub previous_txid : Option ℕ
  pub status : Status
  pub record_data : RecordData
  pub failure_reason : Option ℕ
  pub job_id : Option ℕ
  pub updated_at : ℕ

-- `uid_tag_id` and `current_txid` have unique indexes; the first identifies the document.
pub record PatchState : Type 0 where
  pub uid_tag_id : ℕ
  pub current_txid : ℕ
  pub current_owner_address : Option ℕ

-- The two collections, and the driver's calls on each.
pub record Store : Type 0 where
  pub records : List AuthenticationRecord
  pub states : List PatchState

pub record Driver : Type 0 where
  pub records : Collection AuthenticationRecord
  pub states : Collection PatchState

pub data DbError : Type 0 where
  not_found lock_failure unsupported_kind duplicate_key validation commit_failed : DbError
  invalid_status : Status → DbError

pub data Result {ℓ} (A : Type ℓ) : Type ℓ where
  ok : A → Result A
  err : DbError → Result A

-- The required paths of `RecordDataSchema` that a caller can leave out.
abbrev pub is_valid_record_data : RecordData → Bool
is_valid_record_data d = is_some d.auth.issuer_signature && is_some d.auth.issuer_pubkey

abbrev pub is_pending : Status → Bool
is_pending pending = true
is_pending _ = false

abbrev pub is_failed : Status → Bool
is_failed failed = true
is_failed _ = false

abbrev pub is_confirmed : Status → Bool
is_confirmed confirmed = true
is_confirmed _ = false

abbrev pub is_anchoring : Status → Bool
is_anchoring anchoring = true
is_anchoring _ = false

-- `a === b` where `a` may be undefined.
abbrev pub opt_eq : Option ℕ → ℕ → Bool
opt_eq none b = false
opt_eq (some a) b = a == b
