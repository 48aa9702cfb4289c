-- ===== src/Samples.antt =====
-- Concrete databases, records and outputs on which the tests run the models.
use patch_proof_api.Base.{ℕ, [], ◌∷◌, Option, none, some}
use patch_proof_api.Mongo.InMemory.{in_memory}
use patch_proof_api.Records.Model.{
  Status, pending, confirmed, failed, anchoring, Kind, registration, transfer, RecordData,
  AuthenticationRecord, PatchState, Store, Driver,
}
use patch_proof_api.Utxo.{Utxo}
use patch_proof_api.Manager.{Config}

abbrev pub driver : Driver
driver = record { records = in_memory AuthenticationRecord; states = in_memory PatchState }

abbrev pub data_of : ℕ → ℕ → ℕ → RecordData
data_of uid owner ts = record {
  uid_tag_id = uid;
  metadata = 9;
  auth = record {
    owner = some owner;
    issuer_signature = some 11;
    issuer_pubkey = some 12;
    ts = ts;
    txid = none;
    merkle_root = none;
    merkle_path = [];
    anchor_txid = none;
  };
}

abbrev pub record_of : ℕ → Kind → Option ℕ → Status → Option ℕ → RecordData → AuthenticationRecord
record_of id kind prev status txid d = record {
  id = id;
  txid = txid;
  uid_tag_id = d.uid_tag_id;
  kind = kind;
  previous_txid = prev;
  status = status;
  record_data = d;
  failure_reason = none;
  job_id = none;
  updated_at = 1;
}

abbrev pub state_of : ℕ → ℕ → ℕ → PatchState
state_of uid txid owner = record {
  uid_tag_id = uid;
  current_txid = txid;
  current_owner_address = some owner;
}

-- Patch 7 of owner 50, registered by record 1, with two pending transfers 2 and 3; patch 8 of
-- owner 51, registered by record 4; and a failed and an anchored record.
abbrev pub registered : AuthenticationRecord
registered = record_of 1 registration none confirmed (some 100) (data_of 7 50 1000)

abbrev pub first_transfer : AuthenticationRecord
first_transfer = record_of 2 transfer (some 100) pending none (data_of 7 60 1000)

abbrev pub second_transfer : AuthenticationRecord
second_transfer = record_of 3 transfer (some 100) pending none (data_of 7 70 1000)

abbrev pub other_patch : AuthenticationRecord
other_patch = record_of 4 registration none confirmed (some 200) (data_of 8 51 1000)

abbrev pub failed_one : AuthenticationRecord
failed_one = record_of 5 registration none failed none (data_of 9 52 1000)

abbrev pub stuck_one : AuthenticationRecord
stuck_one = record_of 6 registration none anchoring none (data_of 10 53 1000)

abbrev pub again : AuthenticationRecord
again = record_of 10 registration none pending none (data_of 7 80 1000)

abbrev pub store : Store
store = record {
  records =
      registered ∷ first_transfer ∷ second_transfer ∷ other_patch ∷ failed_one ∷ stuck_one ∷ again
      ∷ [];
  states = state_of 7 100 50 ∷ state_of 8 200 51 ∷ [];
}

abbrev pub output : ℕ → ℕ → ℕ → patch_proof_api.Utxo.Status → ℕ → Utxo
output txid vout satoshis st at = record {
  txid = txid;
  vout = vout;
  satoshis = satoshis;
  script_pubkey = 0;
  key_identifier = 7;
  status = st;
  lock_id = none;
  updated_at = at;
}

abbrev pub config : Config
config = record {
  min_utxo_count = 3;
  split_size = 5000;
  max_split_outputs = 40;
  dust_threshold = 2000;
  dust_sweep_limit = 20;
  min_confirmations = 1;
  fee_per_kb = 500;
  funding_key = 7;
  funding_script = 0;
  funding_address = 21;
  change_address = 22;
  last_refresh = 0;
}
