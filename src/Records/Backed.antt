-- ===== src/Records/Backed.antt =====
-- services/databaseService.js: every patch state rests on a confirmed record.
use patch_proof_api.Base.{
  ℕ, ◌≡◌, refl, ◌≢◌, Option, none, some, arith, All, Exists, All-mono, subst, sym, ap, ◌∙◌, ==_iff,
  Option-cases, inl, inr, ◌⊎◌, ◌==◌,
}
use patch_proof_api.Mongo.{first, modify_first}
use patch_proof_api.Mongo.Laws.{
  first-passes, All-modify_first, All-upsert, Exists-modify_first, Exists-modify_first_hit,
}
use patch_proof_api.Records.Model.{
  Status, pending, confirmed, failed, anchoring, Kind, registration, transfer, unknown,
  AuthenticationRecord, PatchState, Store, Driver, Result, ok, err,
}
use patch_proof_api.Records.{
  find_record, finish, Session, replica_set, commit_fails, standalone, Confirmation, mark_confirmed,
  confirm_body, confirm_found, move_state, save_confirmed, save_after, put_state, save_state,
  upsert_state, set_state, set_confirmed, as_confirmed,
}

-- The record confirmed the transaction that the patch is at, for this patch and this owner.
abbrev pub Backs : PatchState → AuthenticationRecord → Type 0
Backs p r =
    (r.status ≡ confirmed)
    × (r.txid ≡ some p.current_txid)
    × (r.uid_tag_id ≡ p.uid_tag_id)
    × (r.record_data.auth.owner ≡ p.current_owner_address)

abbrev pub IsBacked : Store → Type 0
IsBacked s = All (λ p. Exists (Backs p) s.records) s.states

module _ (db : Driver) where
  put_state-eq-ok :
      (uid txid : ℕ) (owner : Option ℕ) (s s' : Store)
      → put_state db uid txid owner s ≡ (ok tt, s')
      → record s { states = upsert_state db uid txid owner s.states } ≡ s'
  unfolding put_state
  put_state-eq-ok uid txid owner s s' e = ground arith

  save_state-eq-ok :
      (uid txid : ℕ) (owner : Option ℕ) (s s' : Store)
      → save_state db uid txid owner s ≡ (ok tt, s')
      → record s { states = set_state db uid txid owner s.states } ≡ s'
  unfolding save_state
  save_state-eq-ok uid txid none s s' e = absurd (cc)
  save_state-eq-ok uid txid (some owner) s s' e = ground arith

  -- What moving a state leaves: every state is an old one, or is at the new transaction.
  abbrev Moved : AuthenticationRecord → ℕ → Store → Store → Type 0
  Moved r txid s s' =
      (s'.records ≡ s.records)
      × All
          (λ p.
            Exists (Backs p) s.records
            ⊎ ((p.current_txid ≡ txid)
                × (p.uid_tag_id ≡ r.uid_tag_id)
                × (p.current_owner_address ≡ r.record_data.auth.owner)))
          s'.states

  Moved-old : (r : AuthenticationRecord) (txid : ℕ) (s : Store) → IsBacked s → Moved r txid s s
  Moved-old r txid s h = (refl, All-mono _ _ s.states (λ p e. inl e) h)

  Moved-upsert_state :
      (r : AuthenticationRecord) (txid : ℕ) (s : Store)
      → IsBacked s
      → Moved r txid s (record s {
        states = upsert_state db r.uid_tag_id txid r.record_data.auth.owner s.states;
      })
  unfolding upsert_state
  Moved-upsert_state r txid s h = (
    refl,
    rw db.states.upsert_law (
        All-upsert _ _ _ _ s.states (λ p q _. inr (refl, (==_iff _ _).0 q, refl))
          (inr (refl, refl, refl)) (Moved-old r txid s h).1),
  )

  Moved-set_state :
      (r : AuthenticationRecord) (txid : ℕ) (s : Store)
      → IsBacked s
      → Moved r txid s
          (record s { states = set_state db r.uid_tag_id txid r.record_data.auth.owner s.states })
  unfolding set_state
  Moved-set_state r txid s h = (
    refl,
    rw db.states.update_one_law (
        All-modify_first _ _ _ s.states (λ p q _. inr (refl, (==_iff _ _).0 q, refl))
          (Moved-old r txid s h).1),
  )

  -- A move that succeeds has written one of the two.
  move_state-Moved :
      (k : Kind) (r : AuthenticationRecord) (txid : ℕ) (s s' : Store)
      → IsBacked s
      → move_state db k r txid s ≡ (ok tt, s')
      → Moved r txid s s'
  unfolding move_state
  move_state-Moved registration r txid s s' h e =
      subst (Moved r txid s) (put_state-eq-ok r.uid_tag_id txid r.record_data.auth.owner s s' e)
        (Moved-upsert_state r txid s h)
  move_state-Moved transfer r txid s s' h e =
      subst (Moved r txid s) (ground arith) (Moved-set_state r txid s h)
  move_state-Moved unknown r txid s s' h e = absurd (cc)

  -- Confirming the record that was found backs the states that rest on it, and breaks no other.
  set_confirmed-IsBacked :
      (now txid : ℕ) (r : AuthenticationRecord) (s s' : Store)
      → first (λ q. q.id == r.id) s.records ≡ some r
      → r.status ≡ pending
      → Moved r txid s s'
      → IsBacked (record s' { records = set_confirmed db now r.id txid s'.records })
  unfolding set_confirmed
  set_confirmed-IsBacked now txid r s s' found st moved =
      rw (moved.0, db.records.update_one_law) (All-mono _ _ s'.states step moved.1)
    where
      step :
          (p : PatchState)
          → Exists (Backs p) s.records
            ⊎ ((p.current_txid ≡ txid)
                × (p.uid_tag_id ≡ r.uid_tag_id)
                × (p.current_owner_address ≡ r.record_data.auth.owner))
          → Exists (Backs p) (modify_first (λ q. q.id == r.id) (as_confirmed now txid) s.records)
      step p (inl old) = Exists-modify_first _ _ _ s.records r found (λ b. absurd (cc)) old
      step p (inr (t, u, o)) =
          Exists-modify_first_hit _ _ _ s.records r found (refl, ap some (sym t), sym u, sym o)

  save_after-IsBacked :
      (now txid : ℕ) (r : AuthenticationRecord) (s : Store) {s' : Store} {c : Confirmation}
      → IsBacked s
      → first (λ q. q.id == r.id) s.records ≡ some r
      → r.status ≡ pending
      → (m : Result (Unit {0}) × Store) → move_state db r.kind r txid s ≡ m
      → save_after db now r.id txid m ≡ (ok c, s')
      → IsBacked s'
  unfolding save_confirmed
  save_after-IsBacked now txid r s h found st (ok _, s1) em e =
      subst IsBacked (ground arith)
        (set_confirmed-IsBacked now txid r s s1 found st (move_state-Moved r.kind r txid s s1 h em))
  save_after-IsBacked now txid r s h found st (err x, s1) em e = absurd (cc)

  confirm_found-IsBacked :
      (now txid : ℕ) (r : AuthenticationRecord) (st : Status) (s : Store) {s' : Store}
      {c : Confirmation}
      → IsBacked s
      → first (λ q. q.id == r.id) s.records ≡ some r
      → r.status ≡ st
      → confirm_found db now txid r st s ≡ (ok c, s')
      → IsBacked s'
  unfolding confirm_found
  confirm_found-IsBacked now txid r confirmed s h found e eq = subst IsBacked (ground arith) h
  confirm_found-IsBacked now txid r pending s h found e eq =
      save_after-IsBacked now txid r s h found e (move_state db r.kind r txid s) refl eq
  confirm_found-IsBacked now txid r failed s h found e eq = absurd (cc)
  confirm_found-IsBacked now txid r anchoring s h found e eq = absurd (cc)

  confirm_body-IsBacked :
      (now pid txid : ℕ) (s s' : Store) (c : Confirmation)
      → IsBacked s
      → confirm_body db now pid txid s ≡ (ok c, s')
      → IsBacked s'
  unfolding confirm_body
  confirm_body-IsBacked now pid txid s s' c h e = elim (Option-cases (find_record db pid s)) [
    | inl missing ↦ absurd (ground arith)
    | inr (r, found) ↦
        let found' = sym (db.records.find_one_law (λ q. q.id == pid) s.records) ∙ found in
        let same : r.id ≡ pid = (==_iff _ _).0 (first-passes _ s.records r found') in
        confirm_found-IsBacked now txid r r.status s {s' = s'} {c = c} h
          (subst (λ k. first (λ q. q.id == k) s.records ≡ some r) (sym same) found') refl
          (ground arith)
  ]

  -- `markConfirmed` in a transaction keeps every patch state resting on a confirmed record of the
  -- same patch, transaction and owner, whatever it returns. (On a server without transactions a
  -- state that was written stays when the record's save fails.)
  pub mark_confirmed-IsBacked :
      (session : Session) (now pid txid : ℕ) (s : Store)
      → session ≢ standalone
      → IsBacked s
      → IsBacked (mark_confirmed db session now pid txid s).1
  unfolding mark_confirmed
  mark_confirmed-IsBacked session now pid txid s tx h =
      finish-IsBacked session tx (confirm_body db now pid txid s) refl
    where
      finish-IsBacked :
          (ses : Session)
          → ses ≢ standalone
          → (m : Result Confirmation × Store) → confirm_body db now pid txid s ≡ m
          → IsBacked (finish ses s m.0 m.1).1
      finish-IsBacked replica_set n (ok c, s') e = confirm_body-IsBacked now pid txid s s' c h e
      finish-IsBacked replica_set n (err x, s') e = h
      finish-IsBacked commit_fails n (ok c, s') e = h
      finish-IsBacked commit_fails n (err x, s') e = h
      finish-IsBacked standalone n m e = absurd (n refl)
