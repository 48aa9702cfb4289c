-- ===== src/Patches.antt =====
-- controllers/patchController.js: registration, verification, transfer of ownership, unlocking and
-- the status of pending intents. A message that is signed is a record of what the code hashes.
pub mod Transfer
pub mod Stored
pub mod Tests
use patch_proof_api.Base.{
  ℕ, Bool, true, false, ◌&&◌, not, List, [], ◌∷◌, Option, none, some, ◌==◌, if◌then◌else◌,
}
use patch_proof_api.Records.{
  Session, get_patch_state, get_record_by_txid, create_pending_registration,
  create_pending_transfer, attach_job, mark_failed, mark_confirmed, Confirmation, find_record,
}
use patch_proof_api.Records.Model.{
  RecordData, AuthenticationRecord, PatchState, Store, Driver, DbError, Result, ok, err, Kind,
  Status,
}

-- The signed messages, with the fields of each `purpose`.
pub data Message : Type 0 where
  register_patch : ℕ → ℕ → ℕ → Message
  transfer_ownership : ℕ → ℕ → ℕ → Message
  unlock_content : ℕ → ℕ → Message

-- What `blockchainService`, `cryptoService`, the KMS and mongoose do for the controller:
-- verification of a signature by a public key, the address of a public key, the hash of metadata,
-- the issuer's signature and key, and what the schema of records keeps of metadata, which drops the
-- fields that it does not name and orders the others.
pub record Crypto : Type 0 where
  pub verify : Message → ℕ → ℕ → Bool
  pub address_of : ℕ → Option ℕ
  pub metadata_hash : ℕ → ℕ
  pub sign : Message → Option (ℕ × ℕ)
  pub stored_metadata : ℕ → ℕ

-- The answer of `constructAndBroadcastTx` and `constructAndBroadcastTransferTx`, which
-- services/blockchainService.js no longer exports: the call of what is `undefined` throws.
pub data Broadcast : Type 0 where
  not_exported : Broadcast
  rejected : ℕ → Broadcast
  broadcast_as : ℕ → Broadcast

pub data Response : Type 0 where
  bad_request not_found forbidden misconfigured signing_unavailable server_error inconsistent :
      Response
  failed_with : DbError → Response
  queued : ℕ → ℕ → Response
  created : ℕ → Response
  transferred : ℕ → Response
  authentic compromised : RecordData → ℕ → Response
  authorized : ℕ → Option ℕ → Response
  intent : Status → Option ℕ → Option ℕ → Response

-- How a request is served: at which time, with which fresh id, and whether jobs are on, in which
-- case the queue answers with the id of the job.
pub record Env : Type 0 where
  pub now : ℕ
  pub fresh_id : ℕ
  pub job : Option (Option ℕ)
  pub session : Session
  pub broadcast : RecordData → Broadcast

-- The message over which the issuer signs a record.
abbrev pub issuer_message : Crypto → RecordData → Message
issuer_message crypto d = register_patch d.uid_tag_id (crypto.metadata_hash d.metadata) d.auth.ts

-- `verifySignature` returns false where the signature or the key is missing.
abbrev pub verify_opt : Crypto → Message → Option ℕ → Option ℕ → Bool
verify_opt crypto m (some sig) (some key) = crypto.verify m sig key
verify_opt crypto m (some sig) none = false
verify_opt crypto m none key = false

-- `issuerSignatureValid`
abbrev pub verifies : Crypto → RecordData → Bool
verifies crypto d =
    verify_opt crypto (issuer_message crypto d) d.auth.issuer_signature d.auth.issuer_pubkey

-- `(inputAuth && inputAuth.owner) || paymentAddress || null`, where Joi requires the first.
abbrev pub registration_data : ℕ → ℕ → ℕ → ℕ → ℕ × ℕ → RecordData
registration_data now uid metadata owner (sig, key) = record {
  uid_tag_id = uid;
  metadata = metadata;
  auth = record {
    owner = some owner;
    issuer_signature = some sig;
    issuer_pubkey = some key;
    ts = now;
    txid = none;
    merkle_root = none;
    merkle_path = [];
    anchor_txid = none;
  };
}

-- A copy of the current data with the new owner and the time of the transfer; the other fields
-- that the code adds are not in the schema of `record_data.auth`.
abbrev pub transfer_data : ℕ → ℕ → RecordData → RecordData
transfer_data now owner d = record d { auth = record (d.auth) { owner = some owner; ts = now } }

module _ (db : Driver) where
  abbrev pub settled : (ℕ → Response) → ℕ → Result Confirmation × Store → Response × Store
  settled done txid (ok _, s) = (done txid, s)
  settled done txid (err e, s) = (failed_with e, s)

  -- What follows the broadcast: the intent fails, or it is confirmed.
  abbrev pub settle : Env → ℕ → (ℕ → Response) → Broadcast → Store → Response × Store
  settle env pid done not_exported s = (server_error, s)
  settle env pid done (rejected reason) s = (server_error, mark_failed db env.now pid reason s)
  settle env pid done (broadcast_as txid) s =
      settled done txid (mark_confirmed db env.session env.now pid txid s)

  abbrev enqueue : Env → ℕ → Option ℕ → Store → Response × Store
  enqueue env pid none s = (server_error, s)
  enqueue env pid (some j) s = (queued j pid, attach_job db env.now pid (some j) s)

  abbrev pub serve :
      Env → ℕ → (ℕ → Response) → RecordData → Option (Option ℕ) → Store → Response × Store
  serve env pid done d none s = settle env pid done (env.broadcast d) s
  serve env pid done d (some j) s = enqueue env pid j s

  -- From the pending intent on: the job is queued, or the transaction is broadcast at once, for
  -- which the code takes the data as they were before the schema cast them.
  abbrev pub dispatch :
      Env → (ℕ → Response) → Result AuthenticationRecord × Store → Response × Store
  dispatch env done (err e, s) = (failed_with e, s)
  dispatch env done (ok r, s) = serve env r.id done r.record_data env.job s

module _ (db : Driver) (crypto : Crypto) where
  abbrev pub register_signed : Env → ℕ → ℕ → ℕ → Option (ℕ × ℕ) → Store → Response × Store
  register_signed env uid metadata owner none s = (signing_unavailable, s)
  register_signed env uid metadata owner (some signed) s = dispatch db env created (
      create_pending_registration db env.now env.fresh_id uid
        (registration_data env.now uid (crypto.stored_metadata metadata) owner signed) s)

  unfoldable pub register_patch_handler : Env → Bool → Bool → ℕ → ℕ → ℕ → Store → Response × Store
  register_patch_handler env is_valid has_issuer uid metadata owner s =
      if not is_valid
      then (bad_request, s)
      else if not has_issuer
      then (misconfigured, s)
      else register_signed env uid metadata owner
          (crypto.sign (register_patch uid (crypto.metadata_hash metadata) env.now)) s

  abbrev verify_data : ℕ → Option RecordData → Response
  verify_data txid none = inconsistent
  verify_data txid (some d) = if verifies crypto d then authentic d txid else compromised d txid

  abbrev verify_state : Option PatchState → Store → Response
  verify_state none s = not_found
  verify_state (some p) s = verify_data p.current_txid (get_record_by_txid db p.current_txid s)

  unfoldable pub verify_patch : Bool → ℕ → Store → Response
  verify_patch is_valid uid s =
      if not is_valid then bad_request else verify_state (get_patch_state db uid s) s

  -- `!state.current_owner_address || derivedAddress !== state.current_owner_address`; a key that
  -- does not parse throws.
  abbrev pub is_owner : ℕ → Option ℕ → Bool
  is_owner address none = false
  is_owner address (some owner) = address == owner

  abbrev transfer_owned :
      Env → ℕ → ℕ → ℕ → ℕ → RecordData → PatchState → Option ℕ → Store → Response × Store
  transfer_owned env txid new_owner sig key d p none s = (server_error, s)
  transfer_owned env txid new_owner sig key d p (some address) s =
      if not (is_owner address p.current_owner_address)
      then (forbidden, s)
      else if not (crypto.verify (transfer_ownership d.uid_tag_id txid new_owner) sig key)
      then (forbidden, s)
      else dispatch db env transferred (
          create_pending_transfer db env.now env.fresh_id d.uid_tag_id txid
            (transfer_data env.now new_owner d) s)

  abbrev transfer_state :
      Env → ℕ → ℕ → ℕ → ℕ → RecordData → Option PatchState → Store → Response × Store
  transfer_state env txid new_owner sig key d none s = (not_found, s)
  transfer_state env txid new_owner sig key d (some p) s =
      transfer_owned env txid new_owner sig key d p (crypto.address_of key) s

  abbrev transfer_record : Env → ℕ → ℕ → ℕ → ℕ → Option RecordData → Store → Response × Store
  transfer_record env txid new_owner sig key none s = (not_found, s)
  transfer_record env txid new_owner sig key (some d) s =
      transfer_state env txid new_owner sig key d (get_patch_state db d.uid_tag_id s) s

  unfoldable pub transfer_ownership_handler : Env → Bool → ℕ → ℕ → ℕ → ℕ → Store → Response × Store
  transfer_ownership_handler env is_valid txid new_owner sig key s =
      if not is_valid
      then (bad_request, s)
      else transfer_record env txid new_owner sig key (get_record_by_txid db txid s) s

  -- The content is what unwrapping the key and decrypting give, `none` for a failure; the outer
  -- `none` is a request without the four fields.
  abbrev pub unlocked : ℕ → Option (Option ℕ) → Response
  unlocked txid none = authorized txid none
  unlocked txid (some none) = server_error
  unlocked txid (some (some content)) = authorized txid (some content)

  abbrev pub unlock_owned : ℕ → ℕ → ℕ → Option (Option ℕ) → PatchState → Option ℕ → Response
  unlock_owned uid sig key content p none = server_error
  unlock_owned uid sig key content p (some address) =
      if not (is_owner address p.current_owner_address)
      then forbidden
      else if not (crypto.verify (unlock_content uid p.current_txid) sig key)
      then forbidden
      else unlocked p.current_txid content

  abbrev pub unlock_state : ℕ → ℕ → ℕ → Option (Option ℕ) → Option PatchState → Response
  unlock_state uid sig key content none = not_found
  unlock_state uid sig key content (some p) =
      unlock_owned uid sig key content p (crypto.address_of key)

  unfoldable pub unlock_content_handler : Bool → ℕ → ℕ → ℕ → Option (Option ℕ) → Store → Response
  unlock_content_handler is_valid uid sig key content s =
      if not is_valid
      then bad_request
      else unlock_state uid sig key content (get_patch_state db uid s)

  abbrev show_intent : Option AuthenticationRecord → Response
  show_intent none = not_found
  show_intent (some r) = intent r.status r.txid r.failure_reason

  -- `getPendingRegistrationStatus` and `getPendingTransferStatus`, which look for the id among
  -- all records, without the URL of the certificate.
  unfoldable pub pending_status : Bool → ℕ → Store → Response
  pending_status is_valid id s =
      if not is_valid then bad_request else show_intent (find_record db id s)
