-- ===== src/Records/Final.antt =====
-- Histories of services/databaseService.js: a confirmed record is final, and the patch states rest
-- on confirmed records throughout.
use patch_proof_api.Base.{
  ℕ, ◌≡◌, refl, sym, subst, Option-cases, ◌∙◌, ap, ◌≢◌, Bool, false, List, [], ◌∷◌, Option, none,
  some, arith, ◌==◌, ==_iff, inl, inr, ◌⊎◌,
}
use patch_proof_api.Mongo.{first}
use patch_proof_api.Mongo.Laws.{first-modify_first_kept, first-append_kept, first-passes}
use patch_proof_api.Records.Model.{
  Status, pending, confirmed, failed, anchoring, Kind, registration, transfer, unknown,
  AuthenticationRecord, Store, Driver, Result, ok, err,
}
use patch_proof_api.Records.Calls.{
  Call, registers, transfers, attaches, confirms, fails, reverts, step, run,
}
use patch_proof_api.Records.{
  Session, replica_set, commit_fails, standalone, Confirmation, create_record,
  create_pending_registration, create_pending_transfer, attach_job, mark_confirmed, mark_failed,
  revert_pending, confirm_body, confirm_found, move_state, put_state, save_state, save_after,
  save_confirmed, set_confirmed, find_record, as_confirmed, finish,
}

module _ (db : Driver) where
  -- The record that is found under the id is this one.
  abbrev Holds : ℕ → AuthenticationRecord → Store → Type 0
  Holds pid r s = first (λ q. q.id == pid) s.records ≡ some r

  create_record-Holds :
      (pid : ℕ) (r e : AuthenticationRecord) (s : Store)
      → Holds pid r s
      → Holds pid r (create_record db e s).1
  unfolding create_record
  create_record-Holds pid r e s h =
      ground (arith, db.records.create_law e s.records, first-append_kept _ s.records r e h)

  save_state-records :
      (uid txid : ℕ) (owner : Option ℕ) (s : Store)
      → (save_state db uid txid owner s).1.records ≡ s.records
  unfolding save_state
  save_state-records uid txid none s = refl
  save_state-records uid txid (some owner) s = ground arith

  move_state-records :
      (k : Kind) (r : AuthenticationRecord) (txid : ℕ) (s : Store)
      → (move_state db k r txid s).1.records ≡ s.records
  unfolding move_state put_state
  move_state-records registration r txid s = ground arith
  move_state-records transfer r txid s =
      ground (arith, save_state-records r.uid_tag_id txid r.record_data.auth.owner s)
  move_state-records unknown r txid s = refl

  set_confirmed-kept :
      (now pid txid id : ℕ) (r : AuthenticationRecord) (ds : List AuthenticationRecord)
      → pid ≢ id
      → first (λ q. q.id == pid) ds ≡ some r
      → first (λ q. q.id == pid) (set_confirmed db now id txid ds) ≡ some r
  unfolding set_confirmed
  set_confirmed-kept now pid txid id r ds ne h =
      let same : r.id ≡ pid = (==_iff _ _).0 (first-passes _ ds r h) in
      rw (db.records.update_one_law)
        (first-modify_first_kept _ _ (as_confirmed now txid) ds r (λ e. refl) (ground arith) h)

  -- The records after a confirmation: the same, or a pending one is confirmed.
  abbrev Confirms : ℕ → ℕ → ℕ → Store → List AuthenticationRecord → Type 0
  Confirms now id txid s rs =
      (rs ≡ s.records)
      ⊎ ((q : AuthenticationRecord) × (first (λ e. e.id == id) s.records ≡ some q)
          × (q.status ≡ pending)
          × (rs ≡ set_confirmed db now q.id txid s.records))

  save_after-records :
      (now id txid : ℕ) (s : Store) (m : Result (Unit {0}) × Store)
      → m.1.records ≡ s.records
      → ((save_after db now id txid m).1.records ≡ s.records)
        ⊎ ((save_after db now id txid m).1.records ≡ set_confirmed db now id txid s.records)
  unfolding save_confirmed
  save_after-records now id txid s (ok _, s1) e = ground arith
  save_after-records now id txid s (err x, s1) e = inl e

  confirm_found-Confirms :
      (now id txid : ℕ) (q : AuthenticationRecord) (st : Status) (s : Store)
      → first (λ e. e.id == id) s.records ≡ some q
      → q.status ≡ st
      → Confirms now id txid s (confirm_found db now txid q st s).1.records
  unfolding confirm_found
  confirm_found-Confirms now id txid q confirmed s found e = inl refl
  confirm_found-Confirms now id txid q failed s found e = inl refl
  confirm_found-Confirms now id txid q anchoring s found e = inl refl
  confirm_found-Confirms now id txid q pending s found e =
      elim (save_after-records now q.id txid s (move_state db q.kind q txid s)
        (move_state-records q.kind q txid s)) [
          | inl same ↦ inl same
          | inr done ↦ inr (q, found, e, done)
        ]

  confirm_body-Confirms :
      (now id txid : ℕ) (s : Store)
      → Confirms now id txid s (confirm_body db now id txid s).1.records
  unfolding confirm_body
  confirm_body-Confirms now id txid s = elim (Option-cases (find_record db id s)) [
    | inl missing ↦ inl (rw (missing, confirm_body))
    | inr (q, found) ↦
        rw (found, confirm_body)
          (confirm_found-Confirms now id txid q q.status s
            (sym (db.records.find_one_law _ s.records) ∙ found) refl)
  ]

  -- Confirming another record, or this one again, leaves it alone.
  confirm_body-Holds :
      (now pid txid id : ℕ) (r : AuthenticationRecord) (s : Store)
      → r.status ≡ confirmed
      → Holds pid r s
      → Holds pid r (confirm_body db now id txid s).1
  confirm_body-Holds now pid txid id r s c h = elim (confirm_body-Confirms now id txid s) [
    | inl same ↦ rw same h
    | inr (q, found, st, done) ↦
        let named : q.id ≡ id = (==_iff _ _).0 (first-passes _ s.records q found) in
        let other : pid ≢ q.id = λ e.
          cc (subst (λ k. first (λ x. x.id == k) s.records ≡ some q) (sym named ∙ sym e) found) in
        rw done (set_confirmed-kept now pid txid q.id r s.records other h)
  ]

  mark_confirmed-Holds :
      (session : Session) (now pid txid id : ℕ) (r : AuthenticationRecord) (s : Store)
      → r.status ≡ confirmed
      → Holds pid r s
      → Holds pid r (mark_confirmed db session now id txid s).1
  unfolding mark_confirmed
  mark_confirmed-Holds session now pid txid id r s c h =
      finish-Holds session (confirm_body db now id txid s)
        (confirm_body-Holds now pid txid id r s c h)
    where
      finish-Holds :
          (ses : Session) (m : Result Confirmation × Store)
          → Holds pid r m.1
          → Holds pid r (finish ses s m.0 m.1).1
      finish-Holds replica_set (ok x, s') k = k
      finish-Holds replica_set (err x, s') k = h
      finish-Holds commit_fails (ok x, s') k = h
      finish-Holds commit_fails (err x, s') k = h
      finish-Holds standalone m k = k

  -- An update of records of another status leaves this one alone.
  update_one-Holds :
      (pid : ℕ) (r : AuthenticationRecord) (p : AuthenticationRecord → Bool)
      (f : AuthenticationRecord → AuthenticationRecord) (s : Store)
      → ((e : AuthenticationRecord) → (f e).id ≡ e.id)
      → p r ≡ false
      → Holds pid r s
      → Holds pid r (record s { records = db.records.update_one p f s.records })
  update_one-Holds pid r p f s k n h =
      rw db.records.update_one_law
        (first-modify_first_kept _ p f s.records r (λ e. ap (λ i. i == pid) (k e)) n h)

  step-Holds :
      (c : Call) (pid : ℕ) (r : AuthenticationRecord) (s : Store)
      → r.status ≡ confirmed
      → Holds pid r s
      → Holds pid r (step db c s)
  unfolding step create_pending_registration create_pending_transfer attach_job mark_failed
      revert_pending
  step-Holds (registers now id uid rd) pid r s c h = create_record-Holds pid r _ s h
  step-Holds (transfers now id uid prev rd) pid r s c h = create_record-Holds pid r _ s h
  step-Holds (attaches now id job) pid r s c h =
      update_one-Holds pid r _ _ s (λ e. refl) (ground arith) h
  step-Holds (confirms session now id txid) pid r s c h =
      mark_confirmed-Holds session now pid txid id r s c h
  step-Holds (fails now id reason) pid r s c h =
      update_one-Holds pid r _ _ s (λ e. refl) (ground arith) h
  step-Holds (reverts now id) pid r s c h =
      update_one-Holds pid r _ _ s (λ e. refl) (ground arith) h

  run-Holds :
      (cs : List Call) (pid : ℕ) (r : AuthenticationRecord) (s : Store)
      → r.status ≡ confirmed
      → Holds pid r s
      → Holds pid r (run db cs s)
  unfolding run
  run-Holds [] pid r s c h = h
  run-Holds (x ∷ cs) pid r s c h = run-Holds cs pid r (step db x s) c (step-Holds x pid r s c h)

  -- A confirmed record is final: whatever calls the API, the workers and the recovery make
  -- afterwards, in whatever order, it is found as it was, with its transaction and its data.
  pub confirmed_final :
      (cs : List Call) (pid : ℕ) (r : AuthenticationRecord) (s : Store)
      → find_record db pid s ≡ some r
      → r.status ≡ confirmed
      → find_record db pid (run db cs s) ≡ some r
  confirmed_final cs pid r s found c =
      db.records.find_one_law _ (run db cs s).records
      ∙ run-Holds cs pid r s c (sym (db.records.find_one_law _ s.records) ∙ found)
