-- ===== src/Records/Histories.antt =====
-- Histories of services/databaseService.js keep the patch states backed by confirmed records.
use patch_proof_api.Base.{
  ◌≡◌, List, [], ◌∷◌, All, All-mono, Exists-append_left, arith, Bool, Bool-cases, inl, inr, true,
}
use patch_proof_api.Mongo.Laws.{Exists-modify_first_fixed}
use patch_proof_api.Records.Model.{
  confirmed, AuthenticationRecord, Store, Driver, is_valid_record_data,
}
use patch_proof_api.Records.Calls.{
  Call, registers, transfers, attaches, confirms, fails, reverts, IsTransactional, step, run,
}
use patch_proof_api.Records.Backed.{Backs, IsBacked, mark_confirmed-IsBacked}
use patch_proof_api.Records.{
  create_record, create_pending_registration, create_pending_transfer, attach_job, mark_failed,
  revert_pending,
}

module _ (db : Driver) where
  create_record-IsBacked :
      (e : AuthenticationRecord) (s : Store) → IsBacked s → IsBacked (create_record db e s).1
  unfolding create_record
  create_record-IsBacked e s h = elim (Bool-cases (is_valid_record_data e.record_data)) [
    | inl valid ↦
        rw (valid, db.records.create_law)
          (All-mono _ _ s.states (λ p x. Exists-append_left (Backs p) s.records _ x) h)
    | inr refused ↦ rw refused h
  ]

  -- An update that applies to no confirmed record breaks nothing.
  update_one-IsBacked :
      (p : AuthenticationRecord → Bool) (f : AuthenticationRecord → AuthenticationRecord)
      (s : Store)
      → ((r : AuthenticationRecord) → p r ≡ true → r.status ≡ confirmed → ⊥)
      → IsBacked s
      → IsBacked (record s { records = db.records.update_one p f s.records })
  update_one-IsBacked p f s n h = rw db.records.update_one_law (
      All-mono _ _ s.states
        (λ st x. Exists-modify_first_fixed (Backs st) p f s.records (λ r q b. absurd (n r q b.0)) x)
        h)

  step-IsBacked : (c : Call) (s : Store) → IsTransactional c → IsBacked s → IsBacked (step db c s)
  unfolding step create_pending_registration create_pending_transfer attach_job mark_failed
      revert_pending
  step-IsBacked (registers now id uid rd) s t h = create_record-IsBacked _ s h
  step-IsBacked (transfers now id uid prev rd) s t h = create_record-IsBacked _ s h
  step-IsBacked (attaches now id job) s t h = update_one-IsBacked _ _ s (λ r q c. ground arith) h
  step-IsBacked (confirms session now id txid) s t h =
      mark_confirmed-IsBacked db session now id txid s t h
  step-IsBacked (fails now id reason) s t h = update_one-IsBacked _ _ s (λ r q c. ground arith) h
  step-IsBacked (reverts now id) s t h = update_one-IsBacked _ _ s (λ r q c. ground arith) h

  -- Through any history of calls whose confirmations run in transactions, every patch state rests
  -- on a record that confirmed its transaction, for that patch and with that owner.
  pub run-IsBacked :
      (cs : List Call) (s : Store) → All IsTransactional cs → IsBacked s → IsBacked (run db cs s)
  unfolding run
  run-IsBacked [] s t h = h
  run-IsBacked (c ∷ cs) s t h = run-IsBacked cs (step db c s) t.1 (step-IsBacked c s t.0 h)
