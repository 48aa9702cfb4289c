-- ===== src/Claims/Model.antt =====
-- models/ClaimIntent.js and controllers/posController.js: claims, the requests for them, and the
-- data that a claim and its transfer are made of. The nonce and the signature are kept only to be
-- signed over and verified.
use patch_proof_api.Base.{ℕ, ◌-◌, Bool, ◌||◌, [], Option, none, some, ltb}
use patch_proof_api.Records.Model.{RecordData, DbError}

pub data IntentStatus : Type 0 where
  pending approved confirmed failed expired : IntentStatus

pub record ClaimIntent : Type 0 where
  pub id : ℕ
  pub uid : ℕ
  pub address : ℕ
  pub user_id : ℕ
  pub pub_key : ℕ
  pub ts : ℕ
  pub nonce : ℕ
  pub signature : ℕ
  pub status : IntentStatus
  pub error : Option ℕ
  pub approved_by : Option ℕ
  pub approved_at : Option ℕ
  pub transfer_pending_id : Option ℕ
  pub txid : Option ℕ

-- The string that `buildCanonical` makes.
pub record Canonical : Type 0 where
  pub uid : ℕ
  pub addr : ℕ
  pub ts : ℕ
  pub nonce : ℕ

pub record Crypto : Type 0 where
  pub verify : Canonical → ℕ → ℕ → Bool
  pub address_of : ℕ → Option ℕ

pub data Response : Type 0 where
  bad_request challenge_expired address_mismatch invalid_signature patch_not_found : Response
  intent_not_found record_not_found intent_expired server_error : Response
  created : ℕ → Response
  conflict : IntentStatus → Response
  approval : ℕ → ℕ → Option ℕ → Response
  failed_with : DbError → Response
  claim : IntentStatus → Option ℕ → Option ℕ → Option ℕ → Response

-- `Math.abs(now - ts) > TTL_MS`
abbrev pub is_outside : ℕ → ℕ → ℕ → Bool
is_outside ttl now ts = ltb ttl (now - ts) || ltb ttl (ts - now)

-- The body of the request for a claim.
pub record ClaimBody : Type 0 where
  pub uid : ℕ
  pub address : ℕ
  pub user_id : ℕ
  pub pub_key : ℕ
  pub ts : ℕ
  pub nonce : ℕ
  pub signature : ℕ

abbrev pub canonical : ClaimBody → Canonical
canonical b = record { uid = b.uid; addr = b.address; ts = b.ts; nonce = b.nonce }

abbrev pub new_intent : ℕ → ClaimBody → ClaimIntent
new_intent id b = record {
  id = id;
  uid = b.uid;
  address = b.address;
  user_id = b.user_id;
  pub_key = b.pub_key;
  ts = b.ts;
  nonce = b.nonce;
  signature = b.signature;
  status = pending;
  error = none;
  approved_by = none;
  approved_at = none;
  transfer_pending_id = none;
  txid = none;
}

-- The data of the transfer: of the present record only the product and the metadata, no
-- signature and no key of the issuer.
abbrev pub claim_data : ℕ → ℕ → RecordData → RecordData
claim_data now address d = record {
  uid_tag_id = d.uid_tag_id;
  metadata = d.metadata;
  auth = record {
    owner = some address;
    issuer_signature = none;
    issuer_pubkey = none;
    ts = now;
    txid = none;
    merkle_root = none;
    merkle_path = [];
    anchor_txid = none;
  };
}

abbrev pub set_intent : IntentStatus → Option ℕ → Option ℕ → Option ℕ → ClaimIntent → ClaimIntent
set_intent st by at pid i = record i {
  status = st;
  approved_by = by;
  approved_at = at;
  transfer_pending_id = pid;
}
