-- ===== src/Mongo/InMemory.antt =====
-- A collection held in memory. It meets the laws, so that what is proved for every collection can
-- be run and applied to data.
use patch_proof_api.Base.{
  ℕ, ◌≤◌, ◌≡◌, refl, ap, Bool, true, false, ◌&&◌, List, [], ◌∷◌, ◌++◌, Option, none, some, arith,
  leb, if◌then◌else◌, Bool-cases, inl, inr, is_some, All, All-mono, keep, length,
}
use patch_proof_api.Mongo.{first, modify_first, modify_all, drop_first, Picks, limit_to, Collection}

module _ {D : Type 0} (p : D → Bool) (key : D → ℕ) where
  -- The list split at a document that passes and has the least key, if there is one.
  abbrev pub Split : Type 0
  Split = Option (List D × D × List D)

  abbrev pub extend : D → List D → Split → Split
  extend d ds none = if p d then some ([], d, ds) else none
  extend d ds (some (xs, b, ys)) =
      if p d && leb (key d) (key b) then some ([], d, ds) else some (d ∷ xs, b, ys)

  abbrev pub split : List D → Split
  split [] = none
  split (d ∷ ds) = extend d ds (split ds)

  abbrev pub IsSplit : List D → Split → Type 0
  IsSplit ds none = All (λ d. p d ≡ false) ds
  IsSplit ds (some (xs, b, ys)) =
      (ds ≡ xs ++ b ∷ ys) × (p b ≡ true) × All (λ e. p e ≡ true → key b ≤ key e) ds

  extend-IsSplit :
      (d : D) (ds : List D) (s : Split) → IsSplit ds s → IsSplit (d ∷ ds) (extend d ds s)
  extend-IsSplit d ds none h = elim (Bool-cases (p d)) [
    | inl hit ↦ rw hit (refl, hit, ((λ _. omega arith), All-mono _ _ ds (λ e no q. absurd (cc)) h))
    | inr miss ↦ rw miss (miss, h)
  ]
  extend-IsSplit d ds (some (xs, b, ys)) h = elim (Bool-cases (p d && leb (key d) (key b))) [
    | inl hit ↦ rw hit (
      refl,
      ground arith,
      ((λ _. omega arith), All-mono _ _ ds (λ e le q. ground (arith, le q)) h.2),
    )
    | inr miss ↦ rw miss (ap (◌∷◌ d) h.0, h.1, ((λ q. ground arith), h.2))
  ]

  pub split-IsSplit : (ds : List D) → IsSplit ds (split ds)
  split-IsSplit [] = tt
  split-IsSplit (d ∷ ds) = extend-IsSplit d ds (split ds) (split-IsSplit ds)

  module _ (f : D → D) where
    abbrev pub replace : List D → Split → Option D × List D
    replace ds none = (none, ds)
    replace ds (some (xs, b, ys)) = (some (f b), xs ++ f b ∷ ys)

    pub replace-Picks :
        (ds : List D) (s : Split)
        → IsSplit ds s
        → Picks p key f ds (replace ds s).0 (replace ds s).1
    replace-Picks ds none h = inl (h, refl, refl)
    replace-Picks ds (some (xs, b, ys)) h = inr (xs, b, ys, h.0, h.1, h.2, refl, refl)

abbrev pub in_memory : (D : Type 0) → Collection D
in_memory D = record {
  find_one = first;
  find_one_law = λ p ds. refl;
  find = λ p n ds. limit_to n (keep p ds);
  find_law = λ p n ds. refl;
  count = λ p ds. length (keep p ds);
  count_law = λ p ds. refl;
  update_one = modify_first;
  update_one_law = λ p f ds. refl;
  update_many = modify_all;
  update_many_law = λ p f ds. refl;
  upsert = λ p f d ds. if is_some (first p ds) then modify_first p f ds else ds ++ d ∷ [];
  upsert_law = λ p f d ds. refl;
  create = λ d ds. ds ++ d ∷ [];
  create_law = λ d ds. refl;
  find_one_and_update = λ p key f ds. replace p key f ds (split p key ds);
  find_one_and_update_law = λ p key f ds. replace-Picks p key f ds _ (split-IsSplit p key ds);
  find_one_and_delete = λ p ds. (first p ds, drop_first p ds);
  find_one_and_delete_law = λ p ds. refl;
}
