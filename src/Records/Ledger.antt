-- ===== src/Records/Ledger.antt =====
-- services/databaseService.js: what the service promises of the ownership of patches. A ledger says
-- of each patch at which transaction it is and who owns it; a call demands at most one change of
-- it, which the record that it confirms says: a registration enters its patch at the transaction,
-- and a transfer moves its patch there, from the transaction that it spends.
use mathlib.Core.Option
use patch_proof_api.Base.{
  ℕ, ◌≡◌, refl, ap, ◌∙◌, true, false, ◌&&◌, List, [], ◌∷◌, ◌++◌, Option, none, some, arith, All,
  ◌==◌, ==_iff, if◌then◌else◌, is_some, inl, inr, Bool-cases,
}
use patch_proof_api.Mongo.{first, modify_first}
use patch_proof_api.Records.Model.{PatchState, opt_eq}
use patch_proof_api.Records.{at_txid}
use patch_proof_api.Records.Ownership.{IsUnique}

-- The transaction of a patch, and its owner.
abbrev pub Ledger : Type 0
Ledger = ℕ → Option (ℕ × Option ℕ)

abbrev pub entry : PatchState → ℕ × Option ℕ
entry p = (p.current_txid, p.current_owner_address)

-- What the ledger is after an entry for one patch.
abbrev pub entered : ℕ → ℕ → Option ℕ → Ledger → Ledger
entered uid txid owner l u = if u == uid then some (txid, owner) else l u

-- What a call demands: nothing, an entry for a patch, or that a patch is moved from one transaction
-- to another.
pub data Demand : Type 0 where
  nothing : Demand
  enters : ℕ → ℕ → Option ℕ → Demand
  moves : ℕ → Option ℕ → ℕ → Option ℕ → Demand

-- One step of the ledger: the demand is met, or the ledger stays as it is. A move needs the patch
-- to be at the transaction that it is moved from, and an owner.
pub data Step (l l' : Ledger) : Demand → Type 0 where
  stays : {d : Demand} → ((u : ℕ) → l' u ≡ l u) → Step l l' d
  entering :
      (uid txid : ℕ) (owner : Option ℕ)
      → ((u : ℕ) → l' u ≡ entered uid txid owner l u)
      → Step l l' (enters uid txid owner)
  moving :
      (uid prev txid owner : ℕ) (before : Option ℕ)
      → l uid ≡ some (prev, before)
      → ((u : ℕ) → l' u ≡ entered uid txid (some owner) l u)
      → Step l l' (moves uid (some prev) txid (some owner))

-- The steps of a list of demands, one for each.
pub data Reach : List Demand → Ledger → Ledger → Type 0 where
  here : {l : Ledger} → Reach [] l l
  next :
      {d : Demand} {ds : List Demand} {l m n : Ledger}
      → Step l m d
      → Reach ds m n
      → Reach (d ∷ ds) l n

abbrev pub ledger_of : List PatchState → Ledger
ledger_of ds u = Option.map entry (first (λ p. p.uid_tag_id == u) ds)

-- An update of the state of a patch is an entry in the ledger.
pub ledger_of-modify_first :
    (uid txid : ℕ) (owner : Option ℕ) (ds : List PatchState) (u : ℕ)
    → is_some (first (λ p. p.uid_tag_id == uid) ds) ≡ true
    → ledger_of (modify_first (λ p. p.uid_tag_id == uid) (at_txid txid owner) ds) u
      ≡ entered uid txid owner (ledger_of ds) u
ledger_of-modify_first uid txid owner [] u h = absurd (cc)
ledger_of-modify_first uid txid owner (d ∷ ds) u h =
    ground (arith, ledger_of-modify_first uid txid owner ds u)

-- So is the state of a patch that had none.
pub ledger_of-append :
    (uid txid : ℕ) (owner : Option ℕ) (ds : List PatchState) (u : ℕ)
    → is_some (first (λ p. p.uid_tag_id == uid) ds) ≡ false
    → ledger_of
        (ds ++ record { uid_tag_id = uid; current_txid = txid; current_owner_address = owner } ∷ [])
        u
      ≡ entered uid txid owner (ledger_of ds) u
ledger_of-append uid txid owner [] u h = ground arith
ledger_of-append uid txid owner (d ∷ ds) u h = ground (arith, ledger_of-append uid txid owner ds u)

-- Where patches have one state each, the state that a transfer finds is the patch's.
All-first-none :
    (uid k : ℕ) (ds : List PatchState)
    → k ≡ uid
    → All (λ e. (e.uid_tag_id == k) ≡ false) ds
    → (prev : Option ℕ) → first (λ p. p.uid_tag_id == uid && opt_eq prev p.current_txid) ds ≡ none
All-first-none uid k [] e a prev = refl
All-first-none uid k (d ∷ ds) e a prev = ground (arith, All-first-none uid k ds e a.1 prev)

opt_eq-true : (o : Option ℕ) (b : ℕ) → opt_eq o b ≡ true → o ≡ some b
opt_eq-true none b h = absurd (cc)
opt_eq-true (some a) b h = ap some ((==_iff a b).0 h)

pub spendable-entry :
    (uid : ℕ) (prev : Option ℕ) (ds : List PatchState) (p : PatchState)
    → IsUnique (λ p. p.uid_tag_id) ds
    → first (λ p. p.uid_tag_id == uid && opt_eq prev p.current_txid) ds ≡ some p
    → (ledger_of ds uid ≡ some (entry p)) × (prev ≡ some p.current_txid)
spendable-entry uid prev [] p a e = absurd (cc)
spendable-entry uid prev (d ∷ ds) p a e = elim (Bool-cases (d.uid_tag_id == uid)) [
  | inl hit ↦ elim (Bool-cases (opt_eq prev d.current_txid)) [
    | inl same ↦
        let at : d ≡ p = ground arith in
        (
          rw hit (ap (λ x. some (entry x)) at),
          opt_eq-true prev d.current_txid same ∙ ap (λ x. some x.current_txid) at,
        )
    | inr other ↦
        absurd (ground (arith, All-first-none uid d.uid_tag_id ds ((==_iff _ _).0 hit) a.0 prev))
  ]
  | inr skip ↦ rw skip (spendable-entry uid prev ds p a.1 (ground arith))
]

-- One state for each patch is kept by what the service does to the states.
modify_first-All :
    (k uid txid : ℕ) (owner : Option ℕ) (ds : List PatchState)
    → All (λ e. (e.uid_tag_id == k) ≡ false) ds
    → All
        (λ e. (e.uid_tag_id == k) ≡ false)
        (modify_first (λ p. p.uid_tag_id == uid) (at_txid txid owner) ds)
modify_first-All k uid txid owner [] a = tt
modify_first-All k uid txid owner (d ∷ ds) a = elim (Bool-cases (d.uid_tag_id == uid)) [
  | inl hit ↦ rw hit a
  | inr miss ↦ rw miss (a.0, modify_first-All k uid txid owner ds a.1)
]

pub modify_first-IsUnique :
    (uid txid : ℕ) (owner : Option ℕ) (ds : List PatchState)
    → IsUnique (λ p. p.uid_tag_id) ds
    → IsUnique (λ p. p.uid_tag_id) (modify_first (λ p. p.uid_tag_id == uid) (at_txid txid owner) ds)
modify_first-IsUnique uid txid owner [] a = tt
modify_first-IsUnique uid txid owner (d ∷ ds) a = elim (Bool-cases (d.uid_tag_id == uid)) [
  | inl hit ↦ rw hit a
  | inr miss ↦ rw miss (
    modify_first-All d.uid_tag_id uid txid owner ds a.0,
    modify_first-IsUnique uid txid owner ds a.1,
  )
]

append-All :
    (k : ℕ) (ds : List PatchState) (d : PatchState)
    → All (λ e. (e.uid_tag_id == k) ≡ false) ds
    → (d.uid_tag_id == k) ≡ false
    → All (λ e. (e.uid_tag_id == k) ≡ false) (ds ++ d ∷ [])
append-All k [] d a n = (n, tt)
append-All k (x ∷ ds) d a n = (a.0, append-All k ds d a.1 n)

pub append-IsUnique :
    (d : PatchState) (ds : List PatchState)
    → IsUnique (λ p. p.uid_tag_id) ds
    → is_some (first (λ p. p.uid_tag_id == d.uid_tag_id) ds) ≡ false
    → IsUnique (λ p. p.uid_tag_id) (ds ++ d ∷ [])
append-IsUnique d [] a n = (tt, tt)
append-IsUnique d (x ∷ ds) a n = elim (Bool-cases (x.uid_tag_id == d.uid_tag_id)) [
  | inl hit ↦ absurd (ground arith)
  | inr miss ↦
      (append-All x.uid_tag_id ds d a.0 (ground arith), append-IsUnique d ds a.1 (ground arith))
]

-- In a ledger no patch is ever lost.
Step-keeps_patch :
    {l l' : Ledger} {d : Demand} (u : ℕ)
    → Step l l' d
    → is_some (l u) ≡ true
    → is_some (l' u) ≡ true
Step-keeps_patch u (stays same) h = rw (same u) h
Step-keeps_patch u (entering uid txid owner e) h = rw (e u) (ground arith)
Step-keeps_patch u (moving uid prev txid owner before at e) h = rw (e u) (ground arith)

pub Reach-keeps_patch :
    {l l' : Ledger} {ds : List Demand} (u : ℕ)
    → Reach ds l l'
    → is_some (l u) ≡ true
    → is_some (l' u) ≡ true
Reach-keeps_patch u here h = h
Reach-keeps_patch u (next st r) h = Reach-keeps_patch u r (Step-keeps_patch u st h)
