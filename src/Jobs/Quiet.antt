-- ===== src/Jobs/Quiet.antt =====
-- controllers/patchController.js, workers/broadcastWorker.js and the recovery script, as long as
-- services/blockchainService.js does not export the functions that broadcast: what none of them
-- touches.
use patch_proof_api.Base.{
  ℕ, ◌≡◌, refl, sym, subst, Bool, true, false, List, [], ◌∷◌, Option, none, some, arith, All,
  Bool-cases, Option-cases, inl, inr,
}
use patch_proof_api.Mongo.{Collection}
use patch_proof_api.Mongo.Laws.{All-append, All-modify_first}
use patch_proof_api.Records.{
  Session, create_record, create_pending_registration, create_pending_transfer, attach_job,
  revert_pending,
}
use patch_proof_api.Records.Model.{
  AuthenticationRecord, Store, Driver, pending, is_pending, is_valid_record_data,
}
use patch_proof_api.Patches.{
  Crypto, Env, Response, not_exported, created, transferred, dispatch, serve, registration_data,
  transfer_data, register_patch, register_patch_handler, transfer_ownership_handler,
}
use patch_proof_api.Patches.Stored.{pending_registration, pending_transfer}
use patch_proof_api.Patches.Transfer.{transfer_by_owner}
use patch_proof_api.Claims.Model.{ClaimIntent}
use patch_proof_api.Jobs.{
  Job, JobName, registration_job, transfer_job, Options, process_job, process_named, next_job,
  on_failed, requeue, revert_of, recover_orphaned, revert_each, is_recoverable,
}

-- What happens to the records: a request to register or to transfer, an attempt of the worker, its
-- handler of a failed job, and a run of the recovery script.
pub data Event : Type 0 where
  registers : Env → Bool → Bool → ℕ → ℕ → ℕ → Event
  transfers : Env → Bool → ℕ → ℕ → ℕ → ℕ → Event
  processes : Session → ℕ → Job → Event
  fails : Bool → Option ℕ → ℕ → Job → Event
  recovers : ℕ → Options → Event

-- The call of a function that is not exported.
abbrev as_exported : Env → Env
as_exported env = record env { broadcast = λ d. not_exported }

module _ (db : Driver) (crypto : Crypto) (claims : Collection ClaimIntent) where
  unfoldable pub happen : Event → Store → Store
  happen (registers env is_valid has_issuer uid metadata owner) s =
      (register_patch_handler db crypto (as_exported env) is_valid has_issuer uid metadata owner
        s).1
  happen (transfers env is_valid txid new_owner sig key) s =
      (transfer_ownership_handler db crypto (as_exported env) is_valid txid new_owner sig key s).1
  happen (processes session now j) s =
      (process_job db claims session now not_exported j
        (record { store = s; intents = [] })).1.store
  happen (fails auto_recover most now j) s = (on_failed db claims auto_recover most now j s []).0
  happen (recovers now o) s = (recover_orphaned db now o s []).0

  unfoldable pub happens : List Event → Store → Store
  happens [] s = s
  happens (e ∷ es) s = happens es (happen e s)

  -- The states are those at the start, and no record passes a test that no pending record passes.
  abbrev pub Quiet : (AuthenticationRecord → Bool) → Store → Store → Type 0
  Quiet p s s' = (s'.states ≡ s.states) × All (λ r. p r ≡ false) s'.records

  module _ (p : AuthenticationRecord → Bool)
      (not_pending : (r : AuthenticationRecord) → is_pending r.status ≡ true → p r ≡ false) where
    attach-Quiet :
        (now pid : ℕ) (job : Option ℕ) (s s0 : Store)
        → Quiet p s0 s
        → Quiet p s0 (attach_job db now pid job s)
    unfolding attach_job
    attach-Quiet now pid job s s0 (e, a) = (
      e,
      rw (db.records.update_one_law) (
          All-modify_first (λ r. p r ≡ false) _ _ s.records
            (λ r hit out. not_pending _ (ground arith)) a),
    )

    revert-Quiet :
        (now pid : ℕ) (s s0 : Store) → Quiet p s0 s → Quiet p s0 (revert_pending db now pid s)
    unfolding revert_pending
    revert-Quiet now pid s s0 (e, a) = (
      e,
      rw (db.records.update_one_law)
          (All-modify_first (λ r. p r ≡ false) _ _ s.records (λ r hit out. not_pending _ refl) a),
    )

    dispatch-Quiet :
        (env : Env) (done : ℕ → Response) (r : AuthenticationRecord) (s s0 : Store)
        → r.status ≡ pending
        → Quiet p s0 s
        → Quiet p s0 (dispatch db (as_exported env) done (create_record db r s)).1
    unfolding create_record
    dispatch-Quiet env done r s s0 waits (e, a) =
        elim (Bool-cases (is_valid_record_data r.record_data)) [
          | inr bad ↦ rw bad (e, a)
          | inl valid ↦ rw valid (queued env.job refl)
        ]
      where
        new : Quiet p s0 (record s { records = db.records.create r s.records })
        new = (
          e,
          rw (db.records.create_law) (
              All-append (λ r. p r ≡ false) s.records (r ∷ []) a
                (not_pending r (rw waits refl), tt)),
        )

        queued :
            (o : Option (Option ℕ))
            → env.job ≡ o
            → Quiet p s0
                (serve db
                  (as_exported env)
                  r.id
                  done
                  r.record_data
                  env.job
                  (record s { records = db.records.create r s.records })).1
        queued none on = rw on new
        queued (some none) on = rw on new
        queued (some (some j)) on = rw on (attach-Quiet env.now r.id (some j) _ s0 new)

    register-Quiet :
        (env : Env) (is_valid has_issuer : Bool) (uid metadata owner : ℕ) (s s0 : Store)
        → Quiet p s0 s
        → Quiet p s0
            (register_patch_handler db crypto
              (as_exported env)
              is_valid
              has_issuer
              uid
              metadata
              owner
              s).1
    unfolding register_patch_handler create_pending_registration
    register-Quiet env false has_issuer uid metadata owner s s0 q = q
    register-Quiet env true false uid metadata owner s s0 q = q
    register-Quiet env true true uid metadata owner s s0 q =
        elim (Option-cases
          (crypto.sign (register_patch uid (crypto.metadata_hash metadata) env.now))) [
            | inl unsigned ↦ rw unsigned q
            | inr (signed, signs) ↦ rw signs (
                dispatch-Quiet env created
                  (pending_registration env.now env.fresh_id uid
                    (registration_data env.now uid (crypto.stored_metadata metadata) owner signed))
                  s s0 refl q)
          ]

    transfer-Quiet :
        (env : Env) (is_valid : Bool) (txid new_owner sig key : ℕ) (s s0 : Store)
        → Quiet p s0 s
        → Quiet p s0
            (transfer_ownership_handler db crypto
              (as_exported env)
              is_valid
              txid
              new_owner
              sig
              key
              s).1
    unfolding create_pending_transfer
    transfer-Quiet env is_valid txid new_owner sig key s s0 q =
        elim (transfer_by_owner db crypto (as_exported env) is_valid txid new_owner sig key s) [
          | inl same ↦ subst (Quiet p s0) (sym same) q
          | inr (d, authorised, was) ↦
              subst (λ r. Quiet p s0 r.1) (sym was)
                (dispatch-Quiet env transferred
                  (pending_transfer env.now env.fresh_id txid (transfer_data env.now new_owner d)) s
                  s0 refl q)
        ]

    process-same :
        (session : Session) (now : ℕ) (j : Job) (s : Store)
        → (process_job db claims session now not_exported j
            (record { store = s; intents = [] })).1.store
          ≡ s
    unfolding process_job process_named
    process-same session now j s = named j.name
      where
        named :
            (n : JobName)
            → (process_named db claims n session now not_exported j
                (record { store = s; intents = [] })).1.store
              ≡ s
        named registration_job = refl
        named transfer_job = refl

    fail-Quiet :
        (auto : Bool) (most : Option ℕ) (now : ℕ) (j : Job) (s s0 : Store)
        → Quiet p s0 s
        → Quiet p s0 (on_failed db claims auto most now j s []).0
    unfolding on_failed
    fail-Quiet auto most now j s s0 q = again (next_job db claims auto most j)
      where
        reverted : (pid : Option ℕ) → Quiet p s0 (revert_of db claims now pid s)
        reverted none = q
        reverted (some pid) = revert-Quiet now pid s s0 q

        again : (o : Option Job) → Quiet p s0 (requeue db claims now o s []).0
        again none = q
        again (some k) = reverted k.pending_id

    revert_each-All :
        (cs rs : List AuthenticationRecord)
        → All (λ r. p r ≡ false) rs
        → All (λ r. p r ≡ false) (revert_each db cs rs)
    unfolding revert_each
    revert_each-All [] rs a = a
    revert_each-All (c ∷ cs) rs a = revert_each-All cs _ (
        rw (db.records.update_one_law)
          (All-modify_first (λ r. p r ≡ false) _ _ rs (λ r hit out. not_pending _ refl) a))

    recover-Quiet :
        (now : ℕ) (o : Options) (s s0 : Store)
        → Quiet p s0 s
        → Quiet p s0 (recover_orphaned db now o s []).0
    unfolding recover_orphaned
    recover-Quiet now o s s0 (e, a) = elim (Bool-cases o.dry_run) [
      | inl dry ↦ rw dry (e, a)
      | inr wet ↦
          rw wet (e, revert_each-All (db.records.find (is_recoverable now o) o.limit s.records) _ a)
    ]

    happen-Quiet : (e : Event) (s s0 : Store) → Quiet p s0 s → Quiet p s0 (happen e s)
    unfolding happen
    happen-Quiet (registers env is_valid has_issuer uid metadata owner) s s0 q =
        register-Quiet env is_valid has_issuer uid metadata owner s s0 q
    happen-Quiet (transfers env is_valid txid new_owner sig key) s s0 q =
        transfer-Quiet env is_valid txid new_owner sig key s s0 q
    happen-Quiet (processes session now j) s s0 q =
        subst (Quiet p s0) (sym (process-same session now j s)) q
    happen-Quiet (fails auto most now j) s s0 q = fail-Quiet auto most now j s s0 q
    happen-Quiet (recovers now o) s s0 q = recover-Quiet now o s s0 q

    pub happens-Quiet : (es : List Event) (s s0 : Store) → Quiet p s0 s → Quiet p s0 (happens es s)
    unfolding happens
    happens-Quiet [] s s0 q = q
    happens-Quiet (e ∷ es) s s0 q = happens-Quiet es (happen e s) s0 (happen-Quiet e s s0 q)
