-- ===== src/Jobs/Recover.antt =====
-- scripts/jobs/recover-orphaned-anchors.js: what the recovery may change.
use patch_proof_api.Base.{
  ℕ, zero, suc, ◌≡◌, refl, Bool, true, false, ◌||◌, ◌&&◌, List, [], ◌∷◌, some, arith, All, take,
  keep, ◌==◌, Bool-cases, inl, inr,
}
use patch_proof_api.Mongo.{first, limit_to}
use patch_proof_api.Mongo.Laws.{first-modify_first_kept}
use patch_proof_api.Records.Model.{
  AuthenticationRecord, Store, Driver, Status, pending, confirmed, failed, anchoring, is_failed,
  is_anchoring,
}
use patch_proof_api.Jobs.{
  Job, Options, is_recoverable, revert_each, recover_orphaned, same_status, as_pending,
}

All-keep : {D : Type 0} (p : D → Bool) (ds : List D) → All (λ d. p d ≡ true) (keep p ds)
All-keep p [] = tt
All-keep p (d ∷ ds) = elim (Bool-cases (p d)) [
  | inl h ↦ rw h (h, All-keep p ds)
  | inr h ↦ rw h (All-keep p ds)
]

All-take : {D : Type 0} (P : D → Type 0) (n : ℕ) (ds : List D) → All P ds → All P (take n ds)
All-take P zero ds a = tt
All-take P (suc n) [] a = tt
All-take P (suc n) (d ∷ ds) a = (a.0, All-take P n ds a.1)

All-limit_to :
    {D : Type 0} (P : D → Type 0) (n : ℕ) (ds : List D) → All P ds → All P (limit_to n ds)
All-limit_to P n ds a = elim (Bool-cases (n == 0)) [
  | inl unlimited ↦ rw unlimited a
  | inr limited ↦ rw limited (All-take P n ds a)
]

-- A status that the recovery does not touch.
abbrev pub IsSettled : Status → Type 0
IsSettled st = (is_failed st || is_anchoring st) ≡ false

settled-other :
    (now : ℕ) (o : Options) (r c : AuthenticationRecord)
    → IsSettled r.status
    → is_recoverable now o c ≡ true
    → same_status r.status c.status ≡ false
settled-other now o r c h e = statuses r.status c.status h (recoverable now o c e)
  where
    recoverable :
        (now : ℕ) (o : Options) (c : AuthenticationRecord)
        → is_recoverable now o c ≡ true
        → (is_failed c.status || is_anchoring c.status) ≡ true
    recoverable now o c e = ground arith

    statuses :
        (a b : Status)
        → IsSettled a
        → (is_failed b || is_anchoring b) ≡ true
        → same_status a b ≡ false
    statuses pending pending h e = absurd (cc)
    statuses pending confirmed h e = refl
    statuses pending failed h e = refl
    statuses pending anchoring h e = refl
    statuses confirmed pending h e = refl
    statuses confirmed confirmed h e = absurd (cc)
    statuses confirmed failed h e = refl
    statuses confirmed anchoring h e = refl
    statuses failed b h e = absurd (cc)
    statuses anchoring b h e = absurd (cc)

module _ (db : Driver) where
  revert_each-kept :
      (now : ℕ) (o : Options) (pid : ℕ) (r : AuthenticationRecord)
      (cs rs : List AuthenticationRecord)
      → IsSettled r.status
      → All (λ c. is_recoverable now o c ≡ true) cs
      → first (λ q. q.id == pid) rs ≡ some r
      → first (λ q. q.id == pid) (revert_each db cs rs) ≡ some r
  unfolding revert_each
  revert_each-kept now o pid r [] rs st a h = h
  revert_each-kept now o pid r (c ∷ cs) rs st a h = revert_each-kept now o pid r cs _ st a.1 (
      rw
        (db.records.update_one_law (λ q. q.id == c.id && same_status q.status c.status) as_pending
          rs)
        (first-modify_first_kept (λ q. q.id == pid)
          (λ q. q.id == c.id && same_status q.status c.status) as_pending rs r (λ e. refl)
          (missed (r.id == c.id) (settled-other now o r c st a.0)) h))
    where
      missed : {b : Bool} (x : Bool) → b ≡ false → (x && b) ≡ false
      missed true h = h
      missed false h = refl

  -- The recovery, with whichever options, leaves every record that is pending or confirmed as it
  -- is, and all patch states; and a dry run leaves the queue and the records alone.
  recover-settled :
      (now : ℕ) (o : Options) (s : Store) (q : List Job) (pid : ℕ) (r : AuthenticationRecord)
      → first (λ e. e.id == pid) s.records ≡ some r
      → IsSettled r.status
      → let (s', q') = recover_orphaned db now o s q in
        (first (λ e. e.id == pid) s'.records ≡ some r)
        × (s'.states ≡ s.states)
        × (o.dry_run ≡ true → (s' ≡ s) × (q' ≡ q))
  unfolding recover_orphaned
  recover-settled now o s q pid r h st = elim (Bool-cases o.dry_run) [
    | inl dry ↦ rw dry (h, refl, λ e. (refl, refl))
    | inr wet ↦ rw wet (revert_each-kept now o pid r _ s.records st found h, refl, λ e. absurd (cc))
  ]
    where
      found :
          All
            (λ c. is_recoverable now o c ≡ true)
            (db.records.find (is_recoverable now o) o.limit s.records)
      found =
          rw (db.records.find_law (is_recoverable now o) o.limit s.records)
            (All-limit_to _ o.limit _ (All-keep (is_recoverable now o) s.records))
