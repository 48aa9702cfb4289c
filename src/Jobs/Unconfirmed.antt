-- ===== src/Jobs/Unconfirmed.antt =====
-- controllers/patchController.js, workers/broadcastWorker.js and the recovery script, as long as
-- services/blockchainService.js does not export the functions that broadcast.
use mathlib.Core.Option
use patch_proof_api.Base.{
  ℕ, ◌≡◌, refl, sym, ap, ◌∙◌, Bool, true, false, ◌&&◌, List, [], ◌∷◌, Option, none, some, arith,
  All, Bool-cases, inl, inr,
}
use patch_proof_api.Mongo.{Collection, first}
use patch_proof_api.Mongo.Laws.{first-none}
use patch_proof_api.Records.{get_patch_state, get_record_by_txid}
use patch_proof_api.Records.Model.{
  AuthenticationRecord, Store, Driver, is_pending, is_confirmed, opt_eq,
}
use patch_proof_api.Patches.{Crypto, not_found, verify_patch}
use patch_proof_api.Claims.Model.{ClaimIntent}
use patch_proof_api.Jobs.Quiet.{Event, happens, happens-Quiet}

module _ (db : Driver) (crypto : Crypto) (claims : Collection ClaimIntent) where
  first-All :
      (q : AuthenticationRecord → Bool) (rs : List AuthenticationRecord)
      → first q rs ≡ none
      → All (λ r. q r ≡ false) rs
  first-All q [] h = tt
  first-All q (r ∷ rs) h = elim (Bool-cases (q r)) [
    | inl hit ↦ absurd (ground arith)
    | inr miss ↦ (miss, first-All q rs (ground arith))
  ]

  -- No record is confirmed for a transaction.
  abbrev confirms : ℕ → AuthenticationRecord → Bool
  confirms txid r = opt_eq r.txid txid && is_confirmed r.status

  unrecorded :
      (txid : ℕ) (s : Store)
      → get_record_by_txid db txid s ≡ none
      → All (λ r. confirms txid r ≡ false) s.records
  unfolding get_record_by_txid
  unrecorded txid s h = first-All (confirms txid) s.records (
      sym (db.records.find_one_law (confirms txid) s.records)
      ∙ missing (db.records.find_one (confirms txid) s.records) h)
    where
      missing :
          (o : Option AuthenticationRecord) → Option.map (λ r. r.record_data) o ≡ none → o ≡ none
      missing none e = refl
      missing (some r) e = absurd (cc)

  still_unrecorded :
      (txid : ℕ) (s : Store)
      → All (λ r. confirms txid r ≡ false) s.records
      → get_record_by_txid db txid s ≡ none
  unfolding get_record_by_txid
  still_unrecorded txid s a =
      ap (Option.map (λ r. r.record_data))
        (db.records.find_one_law (confirms txid) s.records ∙ first-none _ s.records a)

  pending_unconfirmed :
      (txid : ℕ) (r : AuthenticationRecord) → is_pending r.status ≡ true → confirms txid r ≡ false
  pending_unconfirmed txid r h = ground arith

  unknown :
      (uid : ℕ) (s s' : Store)
      → s'.states ≡ s.states
      → get_patch_state db uid s ≡ none
      → verify_patch db crypto true uid s' ≡ not_found
  unfolding verify_patch get_patch_state
  unknown uid s s' same h = rw (same, h) refl

  All-false : (rs : List AuthenticationRecord) → All (λ r. false ≡ false) rs
  All-false [] = tt
  All-false (r ∷ rs) = (refl, All-false rs)

  -- As long as the functions that broadcast are not exported, nothing is ever registered or
  -- transferred: after any list of requests to register and to transfer, with jobs on or off, of
  -- attempts of the worker, of its failed jobs and of runs of the recovery script, the states of
  -- the patches are what they were, a patch without a state is not found by `verifyPatch`, and a
  -- transaction without a confirmed record has none.
  pub nothing_confirmed :
      (es : List Event) (s : Store)
      → let s' = happens db crypto claims es s in
        (s'.states ≡ s.states)
        × ((uid : ℕ)
            → get_patch_state db uid s ≡ none
            → verify_patch db crypto true uid s' ≡ not_found)
        × ((txid : ℕ) → get_record_by_txid db txid s ≡ none → get_record_by_txid db txid s' ≡ none)
  nothing_confirmed es s =
      let quiet =
        happens-Quiet db crypto claims (λ r. false) (λ r h. refl) es s s
          (refl, All-false s.records) in
      (
        quiet.0,
        λ uid h. unknown uid s (happens db crypto claims es s) quiet.0 h,
        λ txid h.
            still_unrecorded txid (happens db crypto claims es s)
              (happens-Quiet db crypto claims (confirms txid) (pending_unconfirmed txid) es s s
                (refl, unrecorded txid s h)).1,
      )
