-- ===== src/Jobs.antt =====
-- services/jobService.js, workers/broadcastWorker.js and scripts/jobs/recover-orphaned-anchors.js:
-- the queue of broadcasts, the worker's processing of a job, its handler of failed jobs, and the
-- recovery of records. BullMQ is not modelled: a queue is the list of the jobs added to it.
pub mod Quiet
pub mod Unconfirmed
pub mod Requeue
pub mod Recover
pub mod Tests
use patch_proof_api.Base.{
  ℕ, suc, zero, ◌+◌, ◌-◌, ◌*◌, Bool, true, false, ◌&&◌, ◌||◌, not, List, [], ◌∷◌, ◌++◌, map, Option,
  none, some, ◌==◌, ltb, leb, if◌then◌else◌,
}
use patch_proof_api.Mongo.{Collection}
use patch_proof_api.Records.{Session, mark_confirmed, mark_failed, revert_pending, Confirmation}
use patch_proof_api.Records.Model.{
  RecordData, AuthenticationRecord, Store, Driver, DbError, Result, ok, err, Status, pending,
  confirmed, failed, anchoring, Kind, registration, transfer, unknown, is_failed, is_anchoring,
}
use patch_proof_api.Patches.{Broadcast, not_exported, rejected, broadcast_as}
use patch_proof_api.Claims.Model.{ClaimIntent, IntentStatus}

pub data JobName : Type 0 where
  registration_job transfer_job : JobName

-- `job.data`, of either kind of job; `attempts` is 3 and the backoff exponential for all.
pub record Job : Type 0 where
  pub name : JobName
  pub pending_id : Option ℕ
  pub uid_tag_id : ℕ
  pub current_txid : Option ℕ
  pub new_owner : Option ℕ
  pub data_ : RecordData
  pub pos_intent : Option ℕ
  pub recover_count : ℕ

-- `JobService`: disabled, not ready, or ready; the id is that which the queue gives.
pub data Service : Type 0 where
  disabled unready ready : Service

pub data Added : Type 0 where
  null no_service : Added
  job_id : ℕ → Added

-- `addBroadcastJob` and `addTransferJob`
unfoldable pub add_job : Service → ℕ → Job → List Job → Added × List Job
add_job disabled id j q = (null, q)
add_job unready id j q = (no_service, q)
add_job ready id j q = (job_id id, q ++ j ∷ [])

-- How the processor of a job ends: with the transaction, or with an error.
pub data Processed : Type 0 where
  done : ℕ → Processed
  broadcast_failed type_error : Processed
  database_error : DbError → Processed

pub record State : Type 0 where
  pub store : Store
  pub intents : List ClaimIntent

module _ (db : Driver) (claims : Collection ClaimIntent) where
  -- `ClaimIntent.findByIdAndUpdate`, for a job that a claim has led to.
  unfoldable pub update_intent :
      Option ℕ → (ClaimIntent → ClaimIntent) → List ClaimIntent → List ClaimIntent
  update_intent none f cs = cs
  update_intent (some id) f cs = claims.update_one (λ i. i.id == id) f cs

  abbrev pub fail_intent : ℕ → ClaimIntent → ClaimIntent
  fail_intent reason i = record i { status = IntentStatus.failed; error = some reason }

  abbrev pub confirm_intent : ℕ → ClaimIntent → ClaimIntent
  confirm_intent txid i = record i { status = IntentStatus.confirmed; txid = some txid }

  abbrev pub fail_pending : ℕ → Option ℕ → ℕ → Store → Store
  fail_pending now none reason s = s
  fail_pending now (some pid) reason s = mark_failed db now pid reason s

  abbrev pub confirmed_transfer :
      Option ℕ → ℕ → List ClaimIntent → Result Confirmation × Store → Processed × State
  confirmed_transfer intent txid cs (ok _, s) =
      (done txid, record { store = s; intents = update_intent intent (confirm_intent txid) cs })
  confirmed_transfer intent txid cs (err e, s) =
      (database_error e, record { store = s; intents = cs })

  -- A transfer without a pending record changes nothing but the intent.
  abbrev pub confirm_transfer : Session → ℕ → Option ℕ → Option ℕ → ℕ → State → Processed × State
  confirm_transfer session now none intent txid s =
      (done txid, record s { intents = update_intent intent (confirm_intent txid) s.intents })
  confirm_transfer session now (some pid) intent txid s =
      confirmed_transfer intent txid s.intents (mark_confirmed db session now pid txid s.store)

  abbrev pub process_transfer : Session → ℕ → Broadcast → Job → State → Processed × State
  process_transfer session now not_exported j s = (type_error, s)
  process_transfer session now (rejected reason) j s = (
    broadcast_failed,
    record {
      store = fail_pending now j.pending_id reason s.store;
      intents = update_intent j.pos_intent (fail_intent reason) s.intents;
    },
  )
  process_transfer session now (broadcast_as txid) j s =
      confirm_transfer session now j.pending_id j.pos_intent txid s

  abbrev pub confirmed_registration :
      ℕ → List ClaimIntent → Result Confirmation × Store → Processed × State
  confirmed_registration txid cs (ok _, s) = (done txid, record { store = s; intents = cs })
  confirmed_registration txid cs (err e, s) = (database_error e, record { store = s; intents = cs })

  -- `dbService.registerPatch`, for jobs without a pending record, does not exist.
  abbrev pub confirm_registration : Session → ℕ → Option ℕ → ℕ → State → Processed × State
  confirm_registration session now none txid s = (type_error, s)
  confirm_registration session now (some pid) txid s =
      confirmed_registration txid s.intents (mark_confirmed db session now pid txid s.store)

  abbrev pub process_registration : Session → ℕ → Broadcast → Job → State → Processed × State
  process_registration session now not_exported j s = (type_error, s)
  process_registration session now (rejected reason) j s =
      (broadcast_failed, record s { store = fail_pending now j.pending_id reason s.store })
  process_registration session now (broadcast_as txid) j s =
      confirm_registration session now j.pending_id txid s

  unfoldable pub process_named : JobName → Session → ℕ → Broadcast → Job → State → Processed × State
  unfolding update_intent
  process_named transfer_job session now answer j s = process_transfer session now answer j s
  process_named registration_job session now answer j s =
      process_registration session now answer j s

  -- One attempt; BullMQ makes three, with what happens in between.
  unfoldable pub process_job : Session → ℕ → Broadcast → Job → State → Processed × State
  unfolding process_named
  process_job session now answer j s = process_named j.name session now answer j s

  -- `recoverCount >= maxRequeues`, where the setting may be no number.
  abbrev pub is_exhausted : Option ℕ → ℕ → Bool
  is_exhausted none count = false
  is_exhausted (some most) count = leb most count

  -- The job that the handler of `failed` adds, when it adds one. BullMQ reports a job as failed
  -- when its last attempt has failed.
  unfoldable pub next_job : Bool → Option ℕ → Job → Option Job
  next_job auto_recover max_requeues j = elim j.pending_id [
    | none ↦ none
    | some pid ↦
        if auto_recover && not (is_exhausted max_requeues j.recover_count)
        then some (record j { recover_count = j.recover_count + 1 })
        else none
  ]

  abbrev pub revert_of : ℕ → Option ℕ → Store → Store
  revert_of now none s = s
  revert_of now (some pid) s = revert_pending db now pid s

  abbrev pub requeue : ℕ → Option Job → Store → List Job → Store × List Job
  requeue now none s q = (s, q)
  requeue now (some j) s q = (revert_of now j.pending_id s, q ++ j ∷ [])

  unfoldable pub on_failed : Bool → Option ℕ → ℕ → Job → Store → List Job → Store × List Job
  unfolding next_job
  on_failed auto_recover max_requeues now j s q =
      requeue now (next_job auto_recover max_requeues j) s q

-- `{ _id: c._id, status: c.status }`
abbrev pub same_status : Status → Status → Bool
same_status pending pending = true
same_status confirmed confirmed = true
same_status failed failed = true
same_status anchoring anchoring = true
same_status _ _ = false

-- The options of the script, with the two states that it knows.
pub record Options : Type 0 where
  pub failed_too : Bool
  pub anchoring_too : Bool
  pub stuck_minutes : ℕ
  pub limit : ℕ
  pub dry_run : Bool
  pub requeue_too : Bool

abbrev pub is_recoverable : ℕ → Options → AuthenticationRecord → Bool
is_recoverable now o r =
    (o.failed_too && is_failed r.status)
    || (o.anchoring_too
        && (is_anchoring r.status && ltb r.updated_at (now - o.stuck_minutes * 60 * 1000)))

abbrev pub as_pending : AuthenticationRecord → AuthenticationRecord
as_pending r = record r { status = pending; failure_reason = none }

abbrev kind_name : Kind → JobName
kind_name transfer = transfer_job
kind_name registration = registration_job
kind_name unknown = registration_job

-- `c.recoverCount` is not a field of the schema, so that the count is always 1.
abbrev pub recover_job : AuthenticationRecord → Job
recover_job c = record {
  name = kind_name c.kind;
  pending_id = some c.id;
  uid_tag_id = c.uid_tag_id;
  current_txid = c.previous_txid;
  new_owner = c.record_data.auth.owner;
  data_ = c.record_data;
  pos_intent = none;
  recover_count = 1;
}

module _ (db : Driver) where
  -- The bulk operation, one update for each candidate.
  unfoldable pub revert_each :
      List AuthenticationRecord → List AuthenticationRecord → List AuthenticationRecord
  revert_each [] rs = rs
  revert_each (c ∷ cs) rs =
      revert_each cs
        (db.records.update_one (λ r. r.id == c.id && same_status r.status c.status) as_pending rs)

  unfoldable pub recover_orphaned : ℕ → Options → Store → List Job → Store × List Job
  unfolding revert_each
  recover_orphaned now o s q =
      let cs = db.records.find (is_recoverable now o) o.limit s.records in
      if o.dry_run then (s, q) else (
        record s { records = revert_each cs s.records },
        if o.requeue_too then q ++ map recover_job cs else q,
      )
