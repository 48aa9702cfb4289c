-- ===== src/Records/Lookup.antt =====
-- services/databaseService.js: the record that was confirmed is found under its transaction.
use mathlib.Core.Option
use patch_proof_api.Base.{
  ℕ, ◌≡◌, refl, sym, ap, ◌∙◌, subst, false, ◌&&◌, not, List, [], ◌∷◌, Option, none, some, arith,
  ◌==◌, ==_self, ==_iff, Bool-cases, inl, inr,
}
use patch_proof_api.Mongo.{first, modify_first}
use patch_proof_api.Mongo.Laws.{first-passes}
use patch_proof_api.Records.Model.{
  pending, Kind, registration, transfer, unknown, AuthenticationRecord, Store, Driver, ok, err,
  Result, lock_failure, PatchState, opt_eq, is_confirmed,
}
use patch_proof_api.Records.Ownership.{mark_confirmed-eq-ok}
use patch_proof_api.Records.{
  Session, replica_set, is_txid_of_other, upsert_state, Confirmation, fresh, mark_confirmed,
  confirm_body, confirm_found, find_record, move_state, save_after, save_confirmed, save_state,
  put_state, find_spendable, set_confirmed, get_record_by_txid, as_confirmed,
}

-- The first confirmed record of the transaction is the one that was just given it, if no other
-- record has it.
first-modify_first-as_confirmed :
    (now pid txid : ℕ) (ds : List AuthenticationRecord) (r : AuthenticationRecord)
    → first (λ e. e.id == pid) ds ≡ some r
    → first (λ e. opt_eq e.txid txid && not (e.id == pid)) ds ≡ none
    → first
        (λ e. opt_eq e.txid txid && is_confirmed e.status)
        (modify_first (λ e. e.id == pid) (as_confirmed now txid) ds)
      ≡ some (as_confirmed now txid r)
first-modify_first-as_confirmed now pid txid [] r h n = absurd (cc)
first-modify_first-as_confirmed now pid txid (d ∷ ds) r h n = elim (Bool-cases (d.id == pid)) [
  | inl hit ↦
      let same : d ≡ r = ground arith in
      rw (hit, ==_self txid) (ap (λ e. some (as_confirmed now txid e)) same)
  | inr miss ↦ elim (Bool-cases (opt_eq d.txid txid)) [
    | inl same ↦ absurd (ground arith)
    | inr other ↦
        rw (miss, other)
          (first-modify_first-as_confirmed now pid txid ds r (ground arith) (ground arith))
  ]
]

module _ (db : Driver) where
  move_state-records :
      (k : Kind) (r : AuthenticationRecord) (txid : ℕ) (s : Store)
      → (move_state db k r txid s).1.records ≡ s.records
  unfolding move_state put_state save_state find_spendable
  move_state-records registration r txid s = ground arith
  move_state-records transfer r txid s =
      moved r.record_data.auth.owner (find_spendable db r.uid_tag_id r.previous_txid s)
    where
      moved :
          (o : Option ℕ) (q : Option PatchState)
          → (elim q as (λ q. Result (Unit {0}) × Store) [
            | none ↦ (err lock_failure, s)
            | some p ↦ save_state db r.uid_tag_id txid o s
          ]).1.records
            ≡ s.records
      moved o none = refl
      moved none (some p) = refl
      moved (some owner) (some p) = ground arith
  move_state-records unknown r txid s = refl

  -- A record that is saved has a transaction that no other record has.
  save_after-unshared :
      (now pid txid : ℕ) (rs : List AuthenticationRecord) (m : Result (Unit {0}) × Store)
      (s' : Store) (c : Confirmation)
      → m.1.records ≡ rs
      → save_after db now pid txid m ≡ (ok c, s')
      → (c ≡ fresh txid)
        × (db.records.find_one (λ e. opt_eq e.txid txid && not (e.id == pid)) rs ≡ none)
        × (s'.records ≡ set_confirmed db now pid txid rs)
  unfolding save_confirmed
  save_after-unshared now pid txid rs (ok _, s1) s' c kept e = ground arith
  save_after-unshared now pid txid rs (err x, s1) s' c kept e = absurd (cc)

  confirm_body-pending :
      (now pid txid : ℕ) (r : AuthenticationRecord) (s s' : Store) (c : Confirmation)
      → find_record db pid s ≡ some r
      → r.status ≡ pending
      → confirm_body db now pid txid s ≡ (ok c, s')
      → save_after db now r.id txid (move_state db r.kind r txid s) ≡ (ok c, s')
  unfolding confirm_body confirm_found
  confirm_body-pending now pid txid r s s' c found st e = ground arith

  -- A pending record that is confirmed is confirmed afresh, and found under its transaction.
  pub confirmed_found :
      (session : Session) (now pid txid : ℕ) (r : AuthenticationRecord) (s s' : Store)
      (c : Confirmation)
      → find_record db pid s ≡ some r
      → r.status ≡ pending
      → mark_confirmed db session now pid txid s ≡ (ok c, s')
      → (c ≡ fresh txid) × (get_record_by_txid db txid s' ≡ some r.record_data)
  unfolding get_record_by_txid set_confirmed
  confirmed_found session now pid txid r s s' c found st e =
      let run = mark_confirmed-eq-ok db session now pid txid s s' _ e in
      let (new, alone, written) =
        save_after-unshared now r.id txid s.records (move_state db r.kind r txid s) s' c
          (move_state-records r.kind r txid s)
          (confirm_body-pending now pid txid r s s' c found st run) in
      let by_id = sym (db.records.find_one_law _ s.records) ∙ found in
      let same : r.id ≡ pid = (==_iff _ _).0 (first-passes _ s.records r by_id) in
      (
        new,
        rw (written, db.records.find_one_law, db.records.update_one_law)
            (ap (Option.map (λ e. e.record_data)) (
              first-modify_first-as_confirmed now r.id txid s.records r
                (subst (λ i. first (λ e. e.id == i) s.records ≡ some r) (sym same) by_id)
                (sym (db.records.find_one_law _ s.records) ∙ alone))),
      )

  -- A pending registration is confirmed if neither another patch nor another record has the
  -- transaction.
  pub registration_confirms :
      (now pid txid : ℕ) (r : AuthenticationRecord) (s : Store)
      → find_record db pid s ≡ some r
      → r.kind ≡ registration
      → r.status ≡ pending
      → is_txid_of_other db r.uid_tag_id txid s ≡ false
      → db.records.find_one (λ e. opt_eq e.txid txid && not (e.id == r.id)) s.records ≡ none
      → mark_confirmed db replica_set now pid txid s ≡ (
        ok (fresh txid),
        record {
          records = set_confirmed db now r.id txid s.records;
          states = upsert_state db r.uid_tag_id txid r.record_data.auth.owner s.states;
        },
      )
  unfolding mark_confirmed confirm_body confirm_found move_state put_state save_confirmed
  registration_confirms now pid txid r s found k st free alone = ground arith
