-- ===== src/Jobs/Requeue.antt =====
-- workers/broadcastWorker.js: the handler of failed jobs does not go on for ever.
use patch_proof_api.Base.{
  ℕ, suc, zero, ◌+◌, ◌-◌, ◌≤◌, ◌≡◌, Bool, Option, none, some, arith, Option-cases, inl, inr,
}
use patch_proof_api.Mongo.{Collection}
use patch_proof_api.Records.Model.{Driver}
use patch_proof_api.Claims.Model.{ClaimIntent}
use patch_proof_api.Jobs.{Job, next_job}

module _ (db : Driver) (claims : Collection ClaimIntent) where
  -- How often a job comes back, when it and all that it comes back as fail, so many times.
  abbrev pub comes_back : ℕ → Bool → ℕ → Option Job → ℕ
  comes_back failures auto most none = 0
  comes_back zero auto most (some j) = 0
  comes_back (suc n) auto most (some j) = elim (next_job db claims auto (some most) j) [
    | none ↦ 0
    | some k ↦ suc (comes_back n auto most (some k))
  ]

  next-count :
      (auto : Bool) (most : ℕ) (j k : Job)
      → next_job db claims auto (some most) j ≡ some k
      → (k.recover_count ≡ j.recover_count + 1) × (j.recover_count + 1 ≤ most)
  unfolding next_job
  next-count auto most j k h = ground arith

  -- However often the broadcast of a job fails, the job is put back into the queue at most
  -- `RECOVER_MAX_REQUEUES` times less its present count, where this setting is a number.
  pub requeues_bounded :
      (failures : ℕ) (auto : Bool) (most : ℕ) (j : Job)
      → comes_back failures auto most (some j) ≤ most - j.recover_count
  requeues_bounded zero auto most j = omega arith
  requeues_bounded (suc n) auto most j =
      elim (Option-cases (next_job db claims auto (some most) j)) [
        | inl last ↦ rw (last, comes_back) (omega arith)
        | inr (k, again) ↦
            let (a, b) = next-count auto most j k again in
            let ih = requeues_bounded n auto most k in
            rw (again, comes_back) (omega (arith, ih, a, b))
      ]
