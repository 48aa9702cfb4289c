-- ===== src/Records/Refines.antt =====
-- services/databaseService.js implements the ledger of ownership: every call is a step of it, that
-- the record which the call confirms demands.
use mathlib.Core.Option
use patch_proof_api.Base.{
  ℕ, fun_ext, ◌≡◌, refl, sym, ap, subst, true, List, [], ◌∷◌, Option, none, some, arith, ◌==◌,
  is_some, if◌then◌else◌, inl, inr, Bool-cases, ◌⊎◌, ◌&&◌,
}
use patch_proof_api.Mongo.{first}
use patch_proof_api.Records.Model.{
  PatchState, Store, Driver, AuthenticationRecord, Status, pending, confirmed, failed, anchoring,
  Kind, registration, transfer, unknown, Result, ok, err, opt_eq, is_valid_record_data, is_pending,
}
use patch_proof_api.Records.{
  Session, replica_set, commit_fails, standalone, get_patch_state, put_state, save_state,
  upsert_state, set_state, move_state, find_spendable, is_txid_of_other, save_after, save_confirmed,
  confirm_found, confirm_body, mark_confirmed, create_record, create_pending_registration,
  create_pending_transfer, attach_job, mark_failed, revert_pending, find_record, Confirmation,
}
use patch_proof_api.Records.Ownership.{IsUnique}
use patch_proof_api.Records.Calls.{
  Call, registers, transfers, attaches, confirms, fails, reverts, step, run,
}
use patch_proof_api.Records.Ledger.{
  Ledger, Reach-keeps_patch, entry, Demand, nothing, enters, moves, Step, stays, entering, moving,
  Reach, here, next, ledger_of, ledger_of-modify_first, ledger_of-append, spendable-entry,
  modify_first-IsUnique, append-IsUnique,
}

-- The states after an operation are those of the ledger after one step.
abbrev pub Implements : Demand → List PatchState → List PatchState → Type 0
Implements d ds ds' = IsUnique (λ p. p.uid_tag_id) ds' × Step (ledger_of ds) (ledger_of ds') d

unchanged :
    (d : Demand) (ds : List PatchState) → IsUnique (λ p. p.uid_tag_id) ds → Implements d ds ds
unchanged d ds u = (u, stays (λ k. refl))

-- What the confirmation of a record under a transaction demands.
abbrev pub demand_of : Kind → AuthenticationRecord → ℕ → Demand
demand_of registration r txid = enters r.uid_tag_id txid r.record_data.auth.owner
demand_of transfer r txid = moves r.uid_tag_id r.previous_txid txid r.record_data.auth.owner
demand_of unknown r txid = nothing

-- Only a pending record that is found demands anything.
abbrev pub demand_found : Option AuthenticationRecord → ℕ → Demand
demand_found none txid = nothing
demand_found (some r) txid = if is_pending r.status then demand_of r.kind r txid else nothing

module _ (db : Driver) where
  -- What a call demands of the ledger, at the store that it is made on: only `markConfirmed`
  -- demands.
  abbrev pub demand : Call → Store → Demand
  demand (confirms session now pid txid) s = demand_found (find_record db pid s) txid
  demand (registers now id uid rd) s = nothing
  demand (transfers now id uid prev rd) s = nothing
  demand (attaches now pid job) s = nothing
  demand (fails now pid reason) s = nothing
  demand (reverts now pid) s = nothing

  -- The demands of a history of calls.
  unfoldable pub demands : List Call → Store → List Demand
  demands [] s = []
  demands (c ∷ cs) s = demand c s ∷ demands cs (step db c s)

  -- The ledger that the database stands for.
  unfoldable pub view : Store → Ledger
  view s u = Option.map entry (get_patch_state db u s)

  put_state-Implements :
      (uid txid : ℕ) (owner : Option ℕ) (s : Store)
      → IsUnique (λ p. p.uid_tag_id) s.states
      → Implements (enters uid txid owner) s.states (put_state db uid txid owner s).1.states
  unfolding put_state upsert_state
  put_state-Implements uid txid owner s u = elim (Bool-cases (is_txid_of_other db uid txid s)) [
    | inl taken ↦ rw taken (unchanged (enters uid txid owner) s.states u)
    | inr free ↦
        rw (free, db.states.upsert_law)
          (elim (Bool-cases (is_some (first (λ p. p.uid_tag_id == uid) s.states))) [
            | inl there ↦ rw there (
              modify_first-IsUnique uid txid owner s.states u,
              entering uid txid owner (λ k. ledger_of-modify_first uid txid owner s.states k there),
            )
            | inr absent ↦ rw absent (
              append-IsUnique
                  (record { uid_tag_id = uid; current_txid = txid; current_owner_address = owner })
                  s.states u absent,
              entering uid txid owner (λ k. ledger_of-append uid txid owner s.states k absent),
            )
          ])
  ]

  save_state-Implements :
      (uid prev txid : ℕ) (before owner : Option ℕ) (s : Store)
      → IsUnique (λ p. p.uid_tag_id) s.states
      → ledger_of s.states uid ≡ some (prev, before)
      → Implements
          (moves uid (some prev) txid owner)
          s.states
          (save_state db uid txid owner s).1.states
  unfolding save_state set_state
  save_state-Implements uid prev txid before none s u at =
      unchanged (moves uid (some prev) txid none) s.states u
  save_state-Implements uid prev txid before (some owner) s u at =
      elim (Bool-cases (is_txid_of_other db uid txid s)) [
        | inl taken ↦ rw taken (unchanged (moves uid (some prev) txid (some owner)) s.states u)
        | inr free ↦
            rw (free, db.states.update_one_law)
              (
                modify_first-IsUnique uid txid (some owner) s.states u,
                moving uid prev txid owner before at (λ k.
                    ledger_of-modify_first uid txid (some owner) s.states k
                      (there (first (λ p. p.uid_tag_id == uid) s.states) at)),
              )
      ]
    where
      there : (o : Option PatchState) → Option.map entry o ≡ some (prev, before) → is_some o ≡ true
      there none e = absurd (cc)
      there (some p) e = refl

  move_state-Implements :
      (k : Kind) (r : AuthenticationRecord) (txid : ℕ) (s : Store)
      → IsUnique (λ p. p.uid_tag_id) s.states
      → Implements (demand_of k r txid) s.states (move_state db k r txid s).1.states
  unfolding move_state find_spendable
  move_state-Implements registration r txid s u =
      put_state-Implements r.uid_tag_id txid r.record_data.auth.owner s u
  move_state-Implements unknown r txid s u = unchanged nothing s.states u
  move_state-Implements transfer r txid s u =
      from (find_spendable db r.uid_tag_id r.previous_txid s)
        (sym (db.states.find_one_law _ s.states))
    where
      from :
          (o : Option PatchState)
          → first
              (λ p. p.uid_tag_id == r.uid_tag_id && opt_eq r.previous_txid p.current_txid)
              s.states
            ≡ o
          → Implements
              (demand_of transfer r txid)
              s.states
              (elim o as (λ o. Result (Unit {0}) × Store) [
                | none ↦ (err patch_proof_api.Records.Model.lock_failure, s)
                | some p ↦ save_state db r.uid_tag_id txid r.record_data.auth.owner s
              ]).1.states
      from none e = unchanged (demand_of transfer r txid) s.states u
      from (some p) e =
          let (at, spent) = spendable-entry r.uid_tag_id r.previous_txid s.states p u e in
          subst
            (λ q.
              Implements (moves r.uid_tag_id q txid r.record_data.auth.owner) s.states
                (save_state db r.uid_tag_id txid r.record_data.auth.owner s).1.states)
            (sym spent)
            (save_state-Implements r.uid_tag_id p.current_txid txid p.current_owner_address
              r.record_data.auth.owner s u at)

  save_after-states :
      (now pid txid : ℕ) (m : Result (Unit {0}) × Store)
      → (save_after db now pid txid m).1.states ≡ m.1.states
  unfolding save_confirmed
  save_after-states now pid txid (ok _, s) = ground arith
  save_after-states now pid txid (err e, s) = refl

  abbrev Confirms : ℕ → ℕ → Option AuthenticationRecord → Store → Type 0
  Confirms now txid o s =
      Implements (demand_found o txid) s.states
        (elim o as (λ o. Result Confirmation × Store) [
          | none ↦ (err patch_proof_api.Records.Model.not_found, s)
          | some r ↦ confirm_found db now txid r r.status s
        ]).1.states

  confirm_found-Implements :
      (now txid : ℕ) (r : AuthenticationRecord) (st : Status) (s : Store)
      → IsUnique (λ p. p.uid_tag_id) s.states
      → Implements
          (if is_pending st then demand_of r.kind r txid else nothing)
          s.states
          (confirm_found db now txid r st s).1.states
  unfolding confirm_found
  confirm_found-Implements now txid r pending s u =
      rw (save_after-states now r.id txid (move_state db r.kind r txid s))
        (move_state-Implements r.kind r txid s u)
  confirm_found-Implements now txid r confirmed s u = unchanged nothing s.states u
  confirm_found-Implements now txid r failed s u = unchanged nothing s.states u
  confirm_found-Implements now txid r anchoring s u = unchanged nothing s.states u

  confirm_body-Implements :
      (now pid txid : ℕ) (s : Store)
      → IsUnique (λ p. p.uid_tag_id) s.states
      → Implements
          (demand_found (find_record db pid s) txid)
          s.states
          (confirm_body db now pid txid s).1.states
  unfolding confirm_body
  confirm_body-Implements now pid txid s u = at (find_record db pid s)
    where
      at : (o : Option AuthenticationRecord) → Confirms now txid o s
      at none = unchanged nothing s.states u
      at (some r) = confirm_found-Implements now txid r r.status s u

  -- With or without a transaction, the store afterwards is that of the operations or the one
  -- before.
  mark_confirmed-store :
      (session : Session) (now pid txid : ℕ) (s : Store)
      → ((mark_confirmed db session now pid txid s).1 ≡ s)
        ⊎ ((mark_confirmed db session now pid txid s).1 ≡ (confirm_body db now pid txid s).1)
  unfolding mark_confirmed
  mark_confirmed-store session now pid txid s = finished session (confirm_body db now pid txid s)
    where
      finished :
          (session : Session) (m : Result Confirmation × Store)
          → ((patch_proof_api.Records.finish session s m.0 m.1).1 ≡ s)
            ⊎ ((patch_proof_api.Records.finish session s m.0 m.1).1 ≡ m.1)
      finished replica_set (ok c, s') = inr refl
      finished replica_set (err e, s') = inl refl
      finished commit_fails (ok c, s') = inl refl
      finished commit_fails (err e, s') = inl refl
      finished standalone m = inr refl

  create_record-states :
      (r : AuthenticationRecord) (s : Store) → (create_record db r s).1.states ≡ s.states
  unfolding create_record
  create_record-states r s = ground arith

  step-Implements :
      (c : Call) (s : Store)
      → IsUnique (λ p. p.uid_tag_id) s.states
      → Implements (demand c s) s.states (step db c s).states
  unfolding step create_pending_registration create_pending_transfer attach_job mark_failed
      revert_pending
  step-Implements (registers now id uid rd) s u =
      rw (create_record-states _ s) (unchanged nothing s.states u)
  step-Implements (transfers now id uid prev rd) s u =
      rw (create_record-states _ s) (unchanged nothing s.states u)
  step-Implements (attaches now pid job) s u = unchanged nothing s.states u
  step-Implements (confirms session now pid txid) s u =
      elim (mark_confirmed-store session now pid txid s) [
        | inl same ↦ rw same (unchanged (demand_found (find_record db pid s) txid) s.states u)
        | inr moved ↦ rw moved (confirm_body-Implements now pid txid s u)
      ]
  step-Implements (fails now pid reason) s u = unchanged nothing s.states u
  step-Implements (reverts now pid) s u = unchanged nothing s.states u

  view-ledger_of : (s : Store) → view s ≡ ledger_of s.states
  unfolding view get_patch_state
  view-ledger_of s = fun_ext (λ k. ap (Option.map entry) (db.states.find_one_law _ s.states))

  reaches :
      (cs : List Call) (s : Store)
      → IsUnique (λ p. p.uid_tag_id) s.states
      → IsUnique (λ p. p.uid_tag_id) (run db cs s).states
        × Reach (demands cs s) (ledger_of s.states) (ledger_of (run db cs s).states)
  unfolding run demands
  reaches [] s u = (u, here)
  reaches (c ∷ cs) s u =
      let (u', taken) = step-Implements c s u in
      let (u'', rest) = reaches cs (step db c s) u' in (u'', next taken rest)

  -- The database service implements the ledger of ownership. From states of which each patch has
  -- at most one, every history of its calls, with whatever sessions, failed ones included, is a
  -- history of the ledger that the states stand for, with one step for each call: a confirmation
  -- of a pending registration leaves the ledger as it is or enters the patch, transaction and owner
  -- of that registration; one of a pending transfer leaves it as it is, or moves the patch from
  -- the transaction that the transfer spends, at which the patch is, to the new one, with the owner
  -- that the transfer names; no other call changes the ledger. Each patch still has at most one
  -- state.
  pub run_refines :
      (cs : List Call) (s : Store)
      → IsUnique (λ p. p.uid_tag_id) s.states
      → IsUnique (λ p. p.uid_tag_id) (run db cs s).states
        × Reach (demands cs s) (view s) (view (run db cs s))
  run_refines cs s u = rw (view-ledger_of s, view-ledger_of (run db cs s)) (reaches cs s u)

  -- No patch is ever lost: a patch that has a state has one after every history of calls.
  run-keeps_patch :
      (cs : List Call) (s : Store) (u : ℕ)
      → IsUnique (λ p. p.uid_tag_id) s.states
      → is_some (view s u) ≡ true
      → is_some (view (run db cs s) u) ≡ true
  run-keeps_patch cs s u one h = Reach-keeps_patch u (run_refines cs s one).1 h
