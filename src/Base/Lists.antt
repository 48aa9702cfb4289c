-- ===== src/Base/Lists.antt =====
-- Lists measured by native numbers, and list functions on Boolean tests.
use Prim.Native.Nat.{ℕ, zero, suc, ◌+◌}
use mathlib.Core.Path.{◌≡◌}
use mathlib.Core.Logic.{◌⊎◌, inl, inr}
use mathlib.Core.Bool.{Bool, false, ◌||◌}
use mathlib.Core.List.{List, [], ◌∷◌, ◌++◌}
use mathlib.Core.Option.{Option, none, some}
use native.Mathlib.Omega.{arith}
use patch_proof_api.Base.Tests.{if◌then◌else◌, ◌==◌}

module _ {ℓ} {A : Type ℓ} where
  abbrev pub length : List A → ℕ
  length [] = 0
  length (x ∷ xs) = suc (length xs)

  abbrev pub get_elem? : List A → ℕ → Option A
  get_elem? [] i = none
  get_elem? (x ∷ xs) zero = some x
  get_elem? (x ∷ xs) (suc i) = get_elem? xs i

  abbrev pub take : ℕ → List A → List A
  take zero xs = []
  take (suc n) [] = []
  take (suc n) (x ∷ xs) = x ∷ take n xs

  -- `xs.filter(p)`
  abbrev pub keep : (A → Bool) → List A → List A
  keep p [] = []
  keep p (x ∷ xs) = if p x then x ∷ keep p xs else keep p xs

  -- `xs.some(p)`
  abbrev pub any : (A → Bool) → List A → Bool
  any p [] = false
  any p (x ∷ xs) = p x || any p xs

  -- Every element satisfies the predicate.
  abbrev pub All {κ} : (A → Type κ) → List A → Type κ
  All P [] = Unit
  All P (x ∷ xs) = P x × All P xs

  -- Some element satisfies the predicate.
  abbrev pub Exists : (A → Type 0) → List A → Type 0
  Exists P [] = ⊥
  Exists P (x ∷ xs) = P x ⊎ Exists P xs

  length-append : (xs ys : List A) → length (xs ++ ys) ≡ length xs + length ys
  length-append [] ys = omega arith
  length-append (x ∷ xs) ys = omega (arith, length-append xs ys)

module _ {ℓ} {A : Type ℓ} where
  pub All-mono {κ} : (P Q : A → Type κ) (xs : List A) → ((a : A) → P a → Q a) → All P xs → All Q xs
  All-mono P Q [] h a = tt
  All-mono P Q (x ∷ xs) h a = (h x a.0, All-mono P Q xs h a.1)

  Exists-mono : (P Q : A → Type 0) (xs : List A) → ((a : A) → P a → Q a) → Exists P xs → Exists Q xs
  Exists-mono P Q [] h e = e
  Exists-mono P Q (x ∷ xs) h (inl e) = inl (h x e)
  Exists-mono P Q (x ∷ xs) h (inr e) = inr (Exists-mono P Q xs h e)

  pub Exists-append_left : (P : A → Type 0) (xs ys : List A) → Exists P xs → Exists P (xs ++ ys)
  Exists-append_left P [] ys e = absurd e
  Exists-append_left P (x ∷ xs) ys (inl e) = inl e
  Exists-append_left P (x ∷ xs) ys (inr e) = inr (Exists-append_left P xs ys e)

-- Membership of a number, `ids.includes(i)`.
abbrev pub elem : ℕ → List ℕ → Bool
elem i [] = false
elem i (x ∷ xs) = i == x || elem i xs
