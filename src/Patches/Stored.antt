-- ===== src/Patches/Stored.antt =====
-- controllers/patchController.js: whether the proof of the issuer that a pending record carries
-- will verify, as `verifyPatch` computes it from what the database holds.
use patch_proof_api.Base.{
  ℕ, ◌≡◌, ◌≢◌, refl, sym, ◌∙◌, true, false, Option, none, some, arith, ◌==◌, ==_self, ==_iff, ◌&&◌,
  is_some, All, Bool-cases, inl, inr,
}
use patch_proof_api.Mongo.Laws.{first-append, first-none, first-modify_first_sub}
use patch_proof_api.Records.Model.{
  pending, registration, transfer, is_pending, AuthenticationRecord, RecordData, Store, Driver,
}
use patch_proof_api.Records.{
  attach_job, create_record, create_pending_registration, create_pending_transfer, find_record,
}
use patch_proof_api.Patches.{
  Message, Crypto, Env, queued, issuer_message, verify_opt, verifies, transfer_data,
  registration_data, register_patch, register_patch_handler, transfer_ownership_handler,
}
use patch_proof_api.Patches.Transfer.{Authorised}

abbrev pub pending_registration : ℕ → ℕ → ℕ → RecordData → AuthenticationRecord
pending_registration now id uid data_ = record {
  id = id;
  txid = none;
  uid_tag_id = uid;
  kind = registration;
  previous_txid = none;
  status = pending;
  record_data = data_;
  failure_reason = none;
  job_id = none;
  updated_at = now;
}

abbrev pub pending_transfer : ℕ → ℕ → ℕ → RecordData → AuthenticationRecord
pending_transfer now id txid data_ = record {
  id = id;
  txid = none;
  uid_tag_id = data_.uid_tag_id;
  kind = transfer;
  previous_txid = some txid;
  status = pending;
  record_data = data_;
  failure_reason = none;
  job_id = none;
  updated_at = now;
}

module _ (db : Driver) where
  -- The pending record of a request that is queued is found with its job.
  attached_found :
      (now : ℕ) (job : Option ℕ) (r : AuthenticationRecord) (s : Store)
      → All (λ e. (e.id == r.id) ≡ false) s.records
      → r.status ≡ pending
      → find_record db r.id
          (attach_job db now r.id job (record s { records = db.records.create r s.records }))
        ≡ some (record r { job_id = job; updated_at = now })
  unfolding attach_job
  attached_found now job r s unused waits =
      rw (db.records.create_law, db.records.update_one_law, db.records.find_one_law)
        (first-modify_first_sub (λ e. e.id == r.id) (λ e. e.id == r.id && is_pending e.status) _ _ r
          (first-append _ s.records r ∙ rw (first-none _ s.records unused, ==_self r.id) refl)
          (rw (==_self r.id, waits) refl) (λ e h. ground arith) (λ e. refl))

module _ (db : Driver) (crypto : Crypto) where
  -- A signature verifies for one message at most.
  abbrev pub IsBinding : Type 0
  IsBinding =
      (m m' : Message) (sig key : ℕ)
      → crypto.verify m sig key ≡ true
      → crypto.verify m' sig key ≡ true
      → m ≡ m'

  no_other :
      IsBinding
      → (m m' : Message) (sig key : Option ℕ) → verify_opt crypto m sig key ≡ true
      → m ≢ m'
      → verify_opt crypto m' sig key ≡ false
  no_other one m m' (some sig) (some key) h ne = elim (Bool-cases (crypto.verify m' sig key)) [
    | inl yes_too ↦ absurd (ne (one m m' sig key h yes_too))
    | inr other ↦ other
  ]
  no_other one m m' (some sig) none h ne = absurd (cc)
  no_other one m m' none key h ne = absurd (cc)

  register-ts : (u m t u' m' t' : ℕ) → register_patch u m t ≡ register_patch u' m' t' → t ≡ t'
  register-ts u m t u' m' t' h = cc

  register-hash : (u m t u' m' t' : ℕ) → register_patch u m t ≡ register_patch u' m' t' → m ≡ m'
  register-hash u m t u' m' t' h = cc

  -- The proof of a registration, over the metadata that are stored.
  stored-verifies :
      (now uid metadata owner sig key : ℕ)
      → IsBinding
      → crypto.verify (register_patch uid (crypto.metadata_hash metadata) now) sig key ≡ true
      → verifies crypto
          (registration_data now uid (crypto.stored_metadata metadata) owner (sig, key))
        ≡ (crypto.metadata_hash (crypto.stored_metadata metadata) == crypto.metadata_hash metadata)
  stored-verifies now uid metadata owner sig key one good =
      elim (Bool-cases
        (crypto.metadata_hash (crypto.stored_metadata metadata) == crypto.metadata_hash metadata)) [
          | inl same ↦ rw same (rw ((==_iff _ _).0 same) good)
          | inr differ ↦ rw differ (
              no_other one (register_patch uid (crypto.metadata_hash metadata) now) _ (some sig)
                (some key) good (λ e. absurd (apart differ (sym (register-hash _ _ _ _ _ _ e)))))
        ]
    where
      apart : {a b : ℕ} → (a == b) ≡ false → a ≡ b → ⊥
      apart h e = absurd (ground arith)

  -- With jobs on, a registration that the issuer signs is queued, and its pending record is then in
  -- the database with the job. As `verifyPatch` computes it, the issuer's signature will verify for
  -- this record exactly if the metadata as the schema stores them have the hash of the metadata of
  -- the request: a field of the metadata that the schema drops makes the patch `compromised` from
  -- the start. The id of the record is new, and a signature verifies for one message at most.
  pub queued_registration-verifies :
      (env : Env) (uid metadata owner j sig key : ℕ) (s : Store)
      → IsBinding
      → env.job ≡ some (some j)
      → All (λ e. (e.id == env.fresh_id) ≡ false) s.records
      → let m = register_patch uid (crypto.metadata_hash metadata) env.now in
        crypto.sign m ≡ some (sig, key)
        → crypto.verify m sig key ≡ true
        → let (answer, s') = register_patch_handler db crypto env true true uid metadata owner s in
          (answer ≡ queued j env.fresh_id)
          × ((r : AuthenticationRecord) × (find_record db env.fresh_id s' ≡ some r)
              × (r.status ≡ pending)
              × (r.job_id ≡ some j)
              × (verifies crypto r.record_data ≡ (
                  crypto.metadata_hash (crypto.stored_metadata metadata)
                  == crypto.metadata_hash metadata)))
  unfolding register_patch_handler create_pending_registration create_record
  queued_registration-verifies env uid metadata owner j sig key s one on unused signs good =
      let d = registration_data env.now uid (crypto.stored_metadata metadata) owner (sig, key) in
      let r = pending_registration env.now env.fresh_id uid d in
      rw (signs, on)
        (
          refl,
          (
            record r { job_id = some j },
            attached_found db env.now (some j) r s unused refl,
            refl,
            refl,
            stored-verifies env.now uid metadata owner sig key one good,
          ),
        )

  -- A transfer spoils the proof of authenticity. With jobs on, a transfer that the present owner
  -- has signed, from a record for which the issuer's signature verifies, at another time than that
  -- of the record, is queued, and its pending record is then in the database: it holds the data of
  -- the former record with the new owner and the new time, and as `verifyPatch` computes it the
  -- issuer's signature does not verify for it. The id of the record is new, and a signature
  -- verifies for one message at most.
  pub queued_transfer-compromised :
      (env : Env) (txid new_owner sig key j : ℕ) (d : RecordData) (s : Store)
      → IsBinding
      → env.job ≡ some (some j)
      → All (λ e. (e.id == env.fresh_id) ≡ false) s.records
      → Authorised db crypto txid new_owner sig key d s
      → verifies crypto d ≡ true
      → env.now ≢ d.auth.ts
      → let (answer, s') = transfer_ownership_handler db crypto env true txid new_owner sig key s in
        (answer ≡ queued j env.fresh_id)
        × ((r : AuthenticationRecord) × (find_record db env.fresh_id s' ≡ some r)
            × (r.status ≡ pending)
            × (r.previous_txid ≡ some txid)
            × (r.record_data ≡ transfer_data env.now new_owner d)
            × (verifies crypto r.record_data ≡ false))
  unfolding transfer_ownership_handler create_pending_transfer create_record
  queued_transfer-compromised env txid new_owner sig key j d s one on unused
        (p, owner, found, there, own, good, signed) proof later =
      let r = pending_transfer env.now env.fresh_id txid (transfer_data env.now new_owner d) in
      let (has_sig, has_key) = signed_by d.auth.issuer_signature d.auth.issuer_pubkey proof in
      rw (found, there, good, own)
        (rw (==_self owner, signed)
          (rw (has_sig, has_key, on)
            (
              refl,
              (
                record r { job_id = some j },
                attached_found db env.now (some j) r s unused refl,
                refl,
                refl,
                refl,
                no_other one (issuer_message crypto d) _ d.auth.issuer_signature
                    d.auth.issuer_pubkey proof (λ e. later (sym (register-ts _ _ _ _ _ _ e))),
              ),
            )))
    where
      signed_by :
          (sig key : Option ℕ)
          → verify_opt crypto (issuer_message crypto d) sig key ≡ true
          → (is_some sig ≡ true) × (is_some key ≡ true)
      signed_by (some sig) (some key) h = (refl, refl)
      signed_by (some sig) none h = absurd (cc)
      signed_by none key h = absurd (cc)
