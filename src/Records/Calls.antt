-- ===== src/Records/Calls.antt =====
-- Histories of calls of services/databaseService.js, by the API, the workers and the scripts.
use patch_proof_api.Base.{ℕ, Option, List, [], ◌∷◌, ◌≢◌}
use patch_proof_api.Records.Model.{RecordData, Store, Driver}
use patch_proof_api.Records.{
  Session, standalone, create_pending_registration, create_pending_transfer, attach_job,
  mark_confirmed, mark_failed, revert_pending,
}

-- The methods that change the store, with their arguments; the first is the time.
pub data Call : Type 0 where
  registers : ℕ → ℕ → ℕ → RecordData → Call
  transfers : ℕ → ℕ → ℕ → ℕ → RecordData → Call
  attaches : ℕ → ℕ → Option ℕ → Call
  confirms : Session → ℕ → ℕ → ℕ → Call
  fails : ℕ → ℕ → ℕ → Call
  reverts : ℕ → ℕ → Call

-- The call runs in a transaction, if it needs one.
abbrev pub IsTransactional : Call → Type 0
IsTransactional (confirms session _ _ _) = session ≢ standalone
IsTransactional (registers _ _ _ _) = Unit
IsTransactional (transfers _ _ _ _ _) = Unit
IsTransactional (attaches _ _ _) = Unit
IsTransactional (fails _ _ _) = Unit
IsTransactional (reverts _ _) = Unit

module _ (db : Driver) where
  unfoldable pub step : Call → Store → Store
  step (registers now id uid rd) s = (create_pending_registration db now id uid rd s).1
  step (transfers now id uid prev rd) s = (create_pending_transfer db now id uid prev rd s).1
  step (attaches now pid job) s = attach_job db now pid job s
  step (confirms session now pid txid) s = (mark_confirmed db session now pid txid s).1
  step (fails now pid reason) s = mark_failed db now pid reason s
  step (reverts now pid) s = revert_pending db now pid s

  unfoldable pub run : List Call → Store → Store
  unfolding step
  run [] s = s
  run (c ∷ cs) s = run cs (step c s)
