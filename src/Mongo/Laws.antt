-- ===== src/Mongo/Laws.antt =====
-- Lemmas about the reference functions by which the laws of a collection are stated.
use mathlib.Core.Option
use patch_proof_api.Base.{
  ◌≡◌, refl, sym, ap, ◌∙◌, subst, Bool, true, ◌&&◌, List, [], ◌∷◌, ◌++◌, some, none, false, arith,
  All, Exists, map, inl, inr, Bool-cases, is_some, if◌then◌else◌,
}
use patch_proof_api.Mongo.{first, modify_first, modify_all}

subst_head :
    {D : Type 0} (P : D → Type 0) (f : D → D) (ds : List D) {x d : D}
    → x ≡ d
    → (P d → P (f d))
    → Exists P (x ∷ ds)
    → Exists P (f x ∷ ds)
subst_head P f ds e h (inl w) = inl (subst (λ y. P y → P (f y)) (sym e) h w)
subst_head P f ds e h (inr w) = inr w

module _ {D : Type 0} where
  -- What a search finds passes the test.
  pub first-passes : (p : D → Bool) (ds : List D) (d : D) → first p ds ≡ some d → p d ≡ true
  first-passes p [] d e = absurd (cc)
  first-passes p (x ∷ ds) d e = ground (arith, first-passes p ds d)

  -- A field that an update leaves alone is the same in every document afterwards.
  map-modify_first {ℓ} :
      {B : Type ℓ} (g : D → B) (p : D → Bool) (f : D → D) (ds : List D)
      → ((d : D) → g (f d) ≡ g d)
      → map g (modify_first p f ds) ≡ map g ds
  map-modify_first g p f [] h = refl
  map-modify_first g p f (x ∷ ds) h = ground (arith, h x, map-modify_first g p f ds h)

  map-modify_all {ℓ} :
      {B : Type ℓ} (g : D → B) (p : D → Bool) (f : D → D) (ds : List D)
      → ((d : D) → g (f d) ≡ g d)
      → map g (modify_all p f ds) ≡ map g ds
  map-modify_all g p f [] h = refl
  map-modify_all g p f (x ∷ ds) h = ground (arith, h x, map-modify_all g p f ds h)

  -- A predicate that an update keeps where it applies holds of all documents afterwards.
  pub All-modify_first :
      (P : D → Type 0) (p : D → Bool) (f : D → D) (ds : List D)
      → ((d : D) → p d ≡ true → P d → P (f d))
      → All P ds
      → All P (modify_first p f ds)
  All-modify_first P p f [] h a = tt
  All-modify_first P p f (x ∷ ds) h a = ground (arith, h x, All-modify_first P p f ds h a.1)

  pub All-modify_all :
      (P : D → Type 0) (p : D → Bool) (f : D → D) (ds : List D)
      → ((d : D) → p d ≡ true → P d → P (f d))
      → All P ds
      → All P (modify_all p f ds)
  All-modify_all P p f [] h a = tt
  All-modify_all P p f (x ∷ ds) h a = ground (arith, h x, All-modify_all P p f ds h a.1)

  pub All-append : (P : D → Type 0) (xs ys : List D) → All P xs → All P ys → All P (xs ++ ys)
  All-append P [] ys a b = b
  All-append P (x ∷ xs) ys a b = (a.0, All-append P xs ys a.1 b)

  pub All-upsert :
      (P : D → Type 0) (p : D → Bool) (f : D → D) (d : D) (ds : List D)
      → ((e : D) → p e ≡ true → P e → P (f e))
      → P d
      → All P ds
      → All P (if is_some (first p ds) then modify_first p f ds else ds ++ d ∷ [])
  All-upsert P p f d ds h new a = elim (Bool-cases (is_some (first p ds))) [
    | inl there ↦ rw there (All-modify_first P p f ds h a)
    | inr missing ↦ rw missing (All-append P ds (d ∷ []) a (new, tt))
  ]

  -- An update touches the first document that passes, and no other.
  pub Exists-modify_first :
      (P : D → Type 0) (p : D → Bool) (f : D → D) (ds : List D) (d : D)
      → first p ds ≡ some d
      → (P d → P (f d))
      → Exists P ds
      → Exists P (modify_first p f ds)
  Exists-modify_first P p f [] d e h x = absurd x
  Exists-modify_first P p f (x ∷ ds) d e h w = elim (Bool-cases (p x)) [
    | inl hit ↦ let same : x ≡ d = ground arith in rw hit (subst_head P f ds same h w)
    | inr miss ↦ rw miss (elim w [
      | inl here ↦ inl here
      | inr there ↦ inr (Exists-modify_first P p f ds d (ground arith) h there)
    ])
  ]

  pub Exists-modify_first_hit :
      (P : D → Type 0) (p : D → Bool) (f : D → D) (ds : List D) (d : D)
      → first p ds ≡ some d
      → P (f d)
      → Exists P (modify_first p f ds)
  Exists-modify_first_hit P p f [] d e h = absurd (cc)
  Exists-modify_first_hit P p f (x ∷ ds) d e h = elim (Bool-cases (p x)) [
    | inl hit ↦ let same : d ≡ x = ground arith in rw hit (inl (subst (λ y. P (f y)) same h))
    | inr miss ↦ rw miss (inr (Exists-modify_first_hit P p f ds d (ground arith) h))
  ]

  -- A search for what the update keeps finds the updated document.
  pub first-modify_first_self :
      (p : D → Bool) (f : D → D) (ds : List D)
      → ((d : D) → p d ≡ true → p (f d) ≡ true)
      → first p (modify_first p f ds) ≡ Option.map f (first p ds)
  first-modify_first_self p f [] h = refl
  first-modify_first_self p f (x ∷ ds) h = ground (arith, h x, first-modify_first_self p f ds h)

  -- An update of the document that a search finds, by a test that says more, is seen by the search.
  pub first-modify_first_sub :
      (p q : D → Bool) (f : D → D) (ds : List D) (d : D)
      → first p ds ≡ some d
      → q d ≡ true
      → ((e : D) → q e ≡ true → p e ≡ true)
      → ((e : D) → p (f e) ≡ p e)
      → first p (modify_first q f ds) ≡ some (f d)
  first-modify_first_sub p q f [] d e hit sub same = absurd (cc)
  first-modify_first_sub p q f (x ∷ ds) d e hit sub same = elim (Bool-cases (p x)) [
    | inl here ↦ let at : x ≡ d = ground arith in rw (at, hit) (rw (same d) (rw (sub d hit) refl))
    | inr miss ↦
        let skip : q x ≡ false = ground (arith, sub x) in
        rw (skip, miss) (first-modify_first_sub p q f ds d (ground arith) hit sub same)
  ]

  -- A search for other documents is not disturbed.
  pub first-modify_first_ne :
      (q p : D → Bool) (f : D → D) (ds : List D)
      → ((d : D) → p d ≡ true → (q d ≡ false) × (q (f d) ≡ false))
      → first q (modify_first p f ds) ≡ first q ds
  first-modify_first_ne q p f [] h = refl
  first-modify_first_ne q p f (x ∷ ds) h = ground (arith, h x, first-modify_first_ne q p f ds h)

  pub first-append :
      (q : D → Bool) (xs : List D) (d : D)
      → first q (xs ++ d ∷ [])
        ≡ (if is_some (first q xs) then first q xs else if q d then some d else none)
  first-append q [] d = refl
  first-append q (x ∷ xs) d = ground (arith, first-append q xs d)

  -- What passes the stronger test is found, if not first, by the weaker.
  pub first-weaken :
      (p q : D → Bool) (ds : List D) (d : D)
      → ((e : D) → q e ≡ true → p e ≡ true)
      → first q ds ≡ some d
      → (e : D) × (first p ds ≡ some e)
  first-weaken p q [] d h e = absurd (cc)
  first-weaken p q (x ∷ ds) d h e = elim (Bool-cases (p x)) [
    | inl hit ↦ (x, rw hit)
    | inr miss ↦
        let (y, found) = first-weaken p q ds d h (ground (arith, h x)) in (y, rw miss found)
  ]

  pub first-none : (p : D → Bool) (ds : List D) → All (λ d. p d ≡ false) ds → first p ds ≡ none
  first-none p [] a = refl
  first-none p (x ∷ ds) a = rw (a.0) (first-none p ds a.1)

  pub first-none_and :
      (p q : D → Bool) (ds : List D) → All (λ d. p d ≡ false) ds → first (λ d. p d && q d) ds ≡ none
  first-none_and p q [] a = refl
  first-none_and p q (x ∷ ds) a = rw (a.0) (first-none_and p q ds a.1)

  -- An update of documents that fail the test, such as `d`, leaves the search for `d` alone.
  pub first-modify_first_kept :
      (q p : D → Bool) (f : D → D) (ds : List D) (d : D)
      → ((e : D) → q (f e) ≡ q e)
      → p d ≡ false
      → first q ds ≡ some d
      → first q (modify_first p f ds) ≡ some d
  first-modify_first_kept q p f [] d k n e = e
  first-modify_first_kept q p f (x ∷ ds) d k n e = elim (Bool-cases (q x)) [
    | inl hit ↦
        let same : x ≡ d = ground arith in
        let missed : p x ≡ false = ap p same ∙ n in rw (missed, hit) (ap some same)
    | inr miss ↦
        let later : first q ds ≡ some d = ground arith in
        ground (arith, k x, first-modify_first_kept q p f ds d k n later)
  ]

  pub first-append_kept :
      (q : D → Bool) (ds : List D) (d e : D) → first q ds ≡ some d → first q (ds ++ e ∷ []) ≡ some d
  first-append_kept q ds d e h = first-append q ds e ∙ rw h

  pub Exists-modify_first_fixed :
      (P : D → Type 0) (p : D → Bool) (f : D → D) (ds : List D)
      → ((d : D) → p d ≡ true → P d → P (f d))
      → Exists P ds
      → Exists P (modify_first p f ds)
  Exists-modify_first_fixed P p f [] h e = e
  Exists-modify_first_fixed P p f (x ∷ ds) h (inl e) = elim (Bool-cases (p x)) [
    | inl hit ↦ rw hit (inl (h x hit e))
    | inr miss ↦ rw miss (inl e)
  ]
  Exists-modify_first_fixed P p f (x ∷ ds) h (inr e) = elim (Bool-cases (p x)) [
    | inl hit ↦ rw hit (inr e)
    | inr miss ↦ rw miss (inr (Exists-modify_first_fixed P p f ds h e))
  ]

  -- An update of many finds, for a test that it keeps, the updated document.
  pub first-modify_all :
      (q p : D → Bool) (f : D → D) (ds : List D)
      → ((d : D) → q (f d) ≡ q d)
      → first q (modify_all p f ds) ≡ Option.map (λ d. if p d then f d else d) (first q ds)
  first-modify_all q p f [] k = refl
  first-modify_all q p f (x ∷ ds) k = ground (arith, k x, first-modify_all q p f ds k)
