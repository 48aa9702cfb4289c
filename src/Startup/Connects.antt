-- ===== src/Startup/Connects.antt =====
-- config/db.js: how often initDb tries to connect, and how long it waits.
use native.Mathlib.Numerals.{unary_clauses}
use patch_proof_api.Base.{
  ℕ, zero, suc, ◌+◌, ◌*◌, ◌^◌, ◌≤◌, ◌<◌, ◌≡◌, refl, sym, subst, Bool, true, false, Option, none,
  some, arith, ◌==◌, ==_iff, Bool-cases, inl, inr,
}
use patch_proof_api.Startup.{connect_from}

-- The first attempt that succeeds, from the attempt `a` on, with the seconds waited before it.
abbrev pub IsFirst : (ℕ → Bool) → ℕ → ℕ → ℕ → ℕ × ℕ → Type 0
IsFirst connects left a waited (n, s) =
    (a ≤ n)
    × (n < a + left)
    × (connects n ≡ true)
    × ((i : ℕ) → a ≤ i → i < n → connects i ≡ false)
    × (s + 2 ^ a ≡ waited + 2 ^ n)

-- All fail, or the first that succeeds is the last that is made.
abbrev pub Tried : (ℕ → Bool) → ℕ → ℕ → ℕ → Option (ℕ × ℕ) → Type 0
Tried connects left a waited none = (i : ℕ) → a ≤ i → i < a + left → connects i ≡ false
Tried connects left a waited (some (n, s)) = IsFirst connects left a waited (n, s)

at_or_after :
    (connects : ℕ → Bool) (a i : ℕ)
    → a ≤ i
    → connects a ≡ false
    → (suc a ≤ i → connects i ≡ false)
    → connects i ≡ false
at_or_after connects a i le here later = elim (Bool-cases (i == a)) [
  | inl same ↦ subst (λ k. connects k ≡ false) (sym ((==_iff i a).0 same)) here
  | inr other ↦ later (ground arith)
]

double_pow : (a : ℕ) → 2 ^ (a + 1) ≡ 2 ^ a * 2
double_pow a = simp unary_clauses refl

double : (x y s w z : ℕ) → y ≡ x * 2 → s + y ≡ (w + x) + z → s + x ≡ w + z
double x y s w z e h = omega arith

Tried-step :
    (connects : ℕ → Bool) (left a waited : ℕ) (o : Option (ℕ × ℕ))
    → connects a ≡ false
    → Tried connects left (a + 1) (waited + 2 ^ a) o
    → Tried connects (suc left) a waited o
Tried-step connects left a waited none here later =
    λ i le lt. at_or_after connects a i le here (λ le'. later i (omega arith) (omega arith))
Tried-step connects left a waited (some (n, s)) here (le, lt, connected, before, time) = (
  omega arith,
  omega arith,
  connected,
  λ i le lt. at_or_after connects a i le here (λ le'. before i (omega arith) lt),
  double (2 ^ a) (2 ^ (a + 1)) s waited (2 ^ n) (double_pow a) time,
)

connect_from-Tried :
    (connects : ℕ → Bool) (left a waited : ℕ)
    → Tried connects left a waited (connect_from connects left a waited)
unfolding connect_from
connect_from-Tried connects zero a waited = λ i le lt. absurd (omega arith)
connect_from-Tried connects (suc left) a waited = elim (Bool-cases (connects a)) [
  | inl now ↦ rw now (omega arith, omega arith, now, (λ i le lt. absurd (omega arith)), refl)
  | inr fails ↦ rw fails (
      Tried-step connects left a waited _ fails
        (connect_from-Tried connects left (a + 1) (waited + 2 ^ a)))
]

-- The connection to the database is given up only after five failed attempts; otherwise the first
-- of the five that succeeds is the last that is made, and 2 ^ n - 2 seconds were waited before
-- attempt n.
connects_within : (connects : ℕ → Bool) → Tried connects 5 1 0 (connect_from connects 5 1 0)
connects_within connects = connect_from-Tried connects 5 1 0
