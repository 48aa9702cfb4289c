-- ===== src/Records/Ownership.antt =====
-- services/databaseService.js: what a confirmation does to the ownership of a patch.
use mathlib.Core.Option
use patch_proof_api.Base.{
  ℕ, ◌≡◌, refl, ◌≢◌, sym, ap, ◌∙◌, false, ◌&&◌, List, [], ◌∷◌, Option, none, some, arith, All,
  Option-cases, inl, inr, ◌==◌, ==_iff,
}
use patch_proof_api.Mongo.{first, modify_first}
use patch_proof_api.Mongo.Laws.{
  first-modify_first_self, first-modify_first_ne, first-append, first-weaken, first-passes,
}
use patch_proof_api.Records.Model.{
  pending, registration, transfer, AuthenticationRecord, PatchState, Store, Driver, ok, err,
  lock_failure, opt_eq,
}
use patch_proof_api.Records.{
  Session, replica_set, commit_fails, standalone, Confirmation, fresh, mark_confirmed, confirm_body,
  confirm_found, move_state, save_confirmed, put_state, save_state, upsert_state, set_state,
  set_confirmed, find_spendable, find_record, get_patch_state, at_txid,
}

-- No two documents have the key in common, as a unique index has it.
abbrev pub IsUnique : {D : Type 0} → (D → ℕ) → List D → Type 0
IsUnique key [] = Unit
IsUnique key (d ∷ ds) = All (λ e. (key e == key d) ≡ false) ds × IsUnique key ds

-- A confirmation that succeeds is the successful run of its operations.
pub mark_confirmed-eq-ok :
    (db : Driver) (session : Session) (now pid txid : ℕ) (s s' : Store) (c : Confirmation)
    → mark_confirmed db session now pid txid s ≡ (ok c, s')
    → confirm_body db now pid txid s ≡ (ok c, s')
unfolding mark_confirmed
mark_confirmed-eq-ok db replica_set now pid txid s s' c e = ground arith
mark_confirmed-eq-ok db commit_fails now pid txid s s' c e = ground arith
mark_confirmed-eq-ok db standalone now pid txid s s' c e = ground arith

-- In a collection of other patches nothing is at the transaction.
first_of_others :
    (uid k : ℕ) (prev : Option ℕ) (ds : List PatchState)
    → k ≡ uid
    → All (λ e. (e.uid_tag_id == k) ≡ false) ds
    → first (λ p. p.uid_tag_id == uid && opt_eq prev p.current_txid) ds ≡ none
first_of_others uid k prev [] e a = refl
first_of_others uid k prev (d ∷ ds) e a = ground (arith, first_of_others uid k prev ds e a.1)

-- Once a patch has moved on, nothing is left at the transaction that it was at.
set_state-spent :
    (uid prev txid : ℕ) (owner : Option ℕ) (ds : List PatchState)
    → IsUnique (λ p. p.uid_tag_id) ds
    → txid ≢ prev
    → first
        (λ p. p.uid_tag_id == uid && opt_eq (some prev) p.current_txid)
        (modify_first (λ p. p.uid_tag_id == uid) (at_txid txid owner) ds)
      ≡ none
set_state-spent uid prev txid owner [] u ne = refl
set_state-spent uid prev txid owner (d ∷ ds) u ne = ground (
  arith,
  set_state-spent uid prev txid owner ds u.1 ne,
  first_of_others uid d.uid_tag_id (some prev) ds,
)

module _ (db : Driver) where
  -- What a fresh confirmation of a transfer has written.
  transfer_written :
      (now pid txid : ℕ) (r : AuthenticationRecord) (s s' : Store)
      → find_record db pid s ≡ some r
      → r.kind ≡ transfer
      → confirm_body db now pid txid s ≡ (ok (fresh txid), s')
      → s' ≡ record {
        records = set_confirmed db now r.id txid s.records;
        states = set_state db r.uid_tag_id txid r.record_data.auth.owner s.states;
      }
  unfolding confirm_body confirm_found move_state save_state save_confirmed
  transfer_written now pid txid r s s' found k e = ground arith

  registration_written :
      (now pid txid : ℕ) (r : AuthenticationRecord) (s s' : Store)
      → find_record db pid s ≡ some r
      → r.kind ≡ registration
      → confirm_body db now pid txid s ≡ (ok (fresh txid), s')
      → s' ≡ record {
        records = set_confirmed db now r.id txid s.records;
        states = upsert_state db r.uid_tag_id txid r.record_data.auth.owner s.states;
      }
  unfolding confirm_body confirm_found move_state put_state save_confirmed
  registration_written now pid txid r s s' found k e = ground arith

  -- A fresh confirmation of a transfer has found the patch at the transaction that it spends.
  transfer_found :
      (now pid txid : ℕ) (r : AuthenticationRecord) (s s' : Store)
      → find_record db pid s ≡ some r
      → r.kind ≡ transfer
      → confirm_body db now pid txid s ≡ (ok (fresh txid), s')
      → (p : PatchState) × (find_spendable db r.uid_tag_id r.previous_txid s ≡ some p)
  unfolding confirm_body confirm_found move_state
  transfer_found now pid txid r s s' found k e =
      elim (Option-cases (find_spendable db r.uid_tag_id r.previous_txid s)) [
        | inl missing ↦ absurd (ground arith)
        | inr p ↦ p
      ]

  get_patch_state-set_self :
      (uid txid : ℕ) (owner prev : Option ℕ) (s : Store) (rs : List AuthenticationRecord)
      (q : PatchState)
      → find_spendable db uid prev s ≡ some q
      → get_patch_state db uid
          (record { records = rs; states = set_state db uid txid owner s.states })
        ≡ some (record { uid_tag_id = uid; current_txid = txid; current_owner_address = owner })
  unfolding get_patch_state set_state find_spendable
  get_patch_state-set_self uid txid owner prev s rs q e =
      let (p, there) =
        first-weaken (λ p. p.uid_tag_id == uid) _ s.states q (λ d h. ground arith)
          (sym (db.states.find_one_law _ s.states) ∙ e) in
      let same : p.uid_tag_id ≡ uid = (==_iff _ _).0 (first-passes _ s.states p there) in
      rw (db.states.update_one_law, db.states.find_one_law)
        (first-modify_first_self _ (at_txid txid owner) s.states (λ d h. h)
          ∙ (ap (Option.map (at_txid txid owner)) there ∙ ground arith))

  get_patch_state-set_ne :
      (other uid txid : ℕ) (owner : Option ℕ) (s : Store) (rs : List AuthenticationRecord)
      → other ≢ uid
      → get_patch_state db other
          (record { records = rs; states = set_state db uid txid owner s.states })
        ≡ get_patch_state db other s
  unfolding get_patch_state set_state
  get_patch_state-set_ne other uid txid owner s rs ne =
      rw (db.states.update_one_law, db.states.find_one_law, db.states.find_one_law)
        (first-modify_first_ne _ _ _ s.states (λ d h. (ground arith, ground arith)))

  -- A transfer that is confirmed puts the patch at the new transaction and under the owner of the
  -- transfer's record, and leaves every other patch where it was.
  pub transfer_moves_owner :
      (session : Session) (now pid txid other : ℕ) (r : AuthenticationRecord) (s s' : Store)
      → find_record db pid s ≡ some r
      → r.kind ≡ transfer
      → other ≢ r.uid_tag_id
      → mark_confirmed db session now pid txid s ≡ (ok (fresh txid), s')
      → (get_patch_state db r.uid_tag_id s'
          ≡ some (record {
            uid_tag_id = r.uid_tag_id;
            current_txid = txid;
            current_owner_address = r.record_data.auth.owner;
          }))
        × (get_patch_state db other s' ≡ get_patch_state db other s)
  transfer_moves_owner session now pid txid other r s s' found k ne e =
      let run = mark_confirmed-eq-ok db session now pid txid s s' _ e in
      let there = transfer_found now pid txid r s s' found k run in
      rw (transfer_written now pid txid r s s' found k run) (
        get_patch_state-set_self r.uid_tag_id txid _ r.previous_txid s _ there.0 there.1,
        get_patch_state-set_ne other r.uid_tag_id txid _ s _ ne,
      )

  -- The second of two confirmations is refused and writes nothing.
  confirm_spent :
      (session : Session) (now pid txid prev : ℕ) (r : AuthenticationRecord) (s : Store)
      → find_record db pid s ≡ some r
      → r.kind ≡ transfer
      → r.status ≡ pending
      → find_spendable db r.uid_tag_id r.previous_txid s ≡ none
      → mark_confirmed db session now pid txid s ≡ (err lock_failure, s)
  unfolding mark_confirmed confirm_body confirm_found move_state
  confirm_spent replica_set now pid txid prev r s found k st gone = ground arith
  confirm_spent commit_fails now pid txid prev r s found k st gone = ground arith
  confirm_spent standalone now pid txid prev r s found k st gone = ground arith

  -- Ownership is not spent twice. Where two pending transfers start from the same transaction of a
  -- patch (under a unique index on the patch), and one of them has been confirmed under a new
  -- transaction, confirming the other fails with the optimistic lock error and changes nothing.
  pub second_transfer_fails :
      (session later : Session) (now now' pid pid' txid txid' prev : ℕ)
      (r r' : AuthenticationRecord) (s s' : Store)
      → IsUnique (λ p. p.uid_tag_id) s.states
      → find_record db pid s ≡ some r
      → r.kind ≡ transfer
      → find_record db pid' s ≡ some r'
      → r'.kind ≡ transfer
      → r'.status ≡ pending
      → r'.previous_txid ≡ some prev
      → r'.uid_tag_id ≡ r.uid_tag_id
      → pid ≢ pid'
      → txid ≢ prev
      → mark_confirmed db session now pid txid s ≡ (ok (fresh txid), s')
      → mark_confirmed db later now' pid' txid' s' ≡ (err lock_failure, s')
  unfolding find_spendable set_state set_confirmed
  second_transfer_fails session later now now' pid pid' txid txid' prev r r' s s' u f k f' k' st pr
        same ne nt e =
      let run = mark_confirmed-eq-ok db session now pid txid s s' _ e in
      let found_id : r.id ≡ pid =
        (==_iff _ _).0
          (first-passes _ s.records r (sym (db.records.find_one_law _ s.records) ∙ f)) in
      rw (transfer_written now pid txid r s s' f k run) (
        confirm_spent later now' pid' txid' prev r' _
          (rw (db.records.update_one_law, db.records.find_one_law)
            (first-modify_first_ne _ _ _ s.records (λ d h. (ground arith, ground arith))
              ∙ (sym (db.records.find_one_law _ s.records) ∙ f')))
          k' st
          (rw (pr, same, db.states.update_one_law, db.states.find_one_law)
            (set_state-spent r.uid_tag_id prev txid _ s.states u nt)))

  get_patch_state-upsert_self :
      (uid txid : ℕ) (owner : Option ℕ) (s : Store) (rs : List AuthenticationRecord)
      → get_patch_state db uid
          (record { records = rs; states = upsert_state db uid txid owner s.states })
        ≡ some (record { uid_tag_id = uid; current_txid = txid; current_owner_address = owner })
  unfolding get_patch_state upsert_state
  get_patch_state-upsert_self uid txid owner s rs =
      rw (db.states.upsert_law, db.states.find_one_law)
        (elim (Option-cases (first (λ p. p.uid_tag_id == uid) s.states)) [
          | inl missing ↦ rw missing (first-append _ s.states _ ∙ rw missing (ground arith))
          | inr (p, there) ↦
              let same : p.uid_tag_id ≡ uid = (==_iff _ _).0 (first-passes _ s.states p there) in
              rw there (
                first-modify_first_self _ (at_txid txid owner) s.states (λ d h. h)
                ∙ (ap (Option.map (at_txid txid owner)) there ∙ ground arith))
        ])

  -- A registration that is confirmed puts the patch at its transaction and under its owner,
  -- whatever the state of the patch was: also where the patch was registered and had an owner.
  pub registration_sets_owner :
      (session : Session) (now pid txid : ℕ) (r : AuthenticationRecord) (s s' : Store)
      → find_record db pid s ≡ some r
      → r.kind ≡ registration
      → mark_confirmed db session now pid txid s ≡ (ok (fresh txid), s')
      → get_patch_state db r.uid_tag_id s'
        ≡ some (record {
          uid_tag_id = r.uid_tag_id;
          current_txid = txid;
          current_owner_address = r.record_data.auth.owner;
        })
  registration_sets_owner session now pid txid r s s' found k e =
      let run = mark_confirmed-eq-ok db session now pid txid s s' _ e in
      rw (registration_written now pid txid r s s' found k run)
        (get_patch_state-upsert_self r.uid_tag_id txid r.record_data.auth.owner s _)
