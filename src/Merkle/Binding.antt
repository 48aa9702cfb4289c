-- ===== src/Merkle/Binding.antt =====
-- scripts/batchAnchor.js and controllers/adminController.js: what the Merkle root tells of the
-- leaves.
use patch_proof_api.Base.{ℕ, zero, suc, ◌≡◌, refl, sym, ap, ◌∙◌, List, [], ◌∷◌, some, arith, length}
use patch_proof_api.Merkle.{compute_merkle_root, root_loop, next_level}
use patch_proof_api.Merkle.Path.{merkle_path_climbs}

module _ {H : Type 0} (combine : H → H → H) where
  -- Two pairs of digests with one hash are the same pair.
  abbrev pub IsCollisionFree : Type 0
  IsCollisionFree = (a b c d : H) → combine a b ≡ combine c d → (a ≡ c) × (b ≡ d)

  length-next_level_eq :
      (xs ys : List H)
      → length xs ≡ length ys
      → length (next_level combine xs) ≡ length (next_level combine ys)
  unfolding next_level
  length-next_level_eq [] [] e = refl
  length-next_level_eq [] (c ∷ s) e = absurd (omega arith)
  length-next_level_eq (a ∷ r) [] e = absurd (omega arith)
  length-next_level_eq (a ∷ []) (c ∷ []) e = refl
  length-next_level_eq (a ∷ []) (c ∷ d ∷ s) e = absurd (omega arith)
  length-next_level_eq (a ∷ b ∷ r) (c ∷ []) e = absurd (omega arith)
  length-next_level_eq (a ∷ b ∷ r) (c ∷ d ∷ s) e = ap suc (length-next_level_eq r s (omega arith))

  module _ (free : IsCollisionFree) where
    next_level_injective :
        (xs ys : List H)
        → length xs ≡ length ys
        → next_level combine xs ≡ next_level combine ys
        → xs ≡ ys
    unfolding next_level
    next_level_injective [] [] e h = refl
    next_level_injective [] (c ∷ s) e h = absurd (omega arith)
    next_level_injective (a ∷ r) [] e h = absurd (omega arith)
    next_level_injective (a ∷ []) (c ∷ []) e h =
        ap (λ x. x ∷ []) (free a a c c (ground (arith, h))).0
    next_level_injective (a ∷ []) (c ∷ d ∷ s) e h = absurd (omega arith)
    next_level_injective (a ∷ b ∷ r) (c ∷ []) e h = absurd (omega arith)
    next_level_injective (a ∷ b ∷ r) (c ∷ d ∷ s) e h =
        let (first, second) = free a b c d (ground (arith, h)) in
        let rest = next_level_injective r s (omega arith) (ground (arith, h)) in
        rw (first, second, rest) refl

    root_loop_injective :
        (f : ℕ) (xs ys : List H) (root : H)
        → length xs ≡ length ys
        → root_loop combine f xs ≡ some root
        → root_loop combine f ys ≡ some root
        → xs ≡ ys
    unfolding root_loop
    root_loop_injective f [] ys root e h k = absurd (cc)
    root_loop_injective f (a ∷ r) [] root e h k = absurd (cc)
    root_loop_injective f (a ∷ []) (c ∷ []) root e h k = ground (arith, h, k)
    root_loop_injective f (a ∷ []) (c ∷ d ∷ s) root e h k = absurd (omega arith)
    root_loop_injective f (a ∷ b ∷ r) (c ∷ []) root e h k = absurd (omega arith)
    root_loop_injective zero (a ∷ b ∷ r) (c ∷ d ∷ s) root e h k = absurd (cc)
    root_loop_injective (suc f) (a ∷ b ∷ r) (c ∷ d ∷ s) root e h k =
        next_level_injective (a ∷ b ∷ r) (c ∷ d ∷ s) e (
          root_loop_injective f (next_level combine (a ∷ b ∷ r)) (next_level combine (c ∷ d ∷ s))
            root (length-next_level_eq (a ∷ b ∷ r) (c ∷ d ∷ s) e) h k)

    -- The root binds the batch. If no two pairs of digests have the same hash, then two batches of
    -- the same number of leaves with the same root are the same, leaf by leaf.
    pub merkle_root_binds :
        (zeros : H) (xs ys : List H)
        → length xs ≡ length ys
        → compute_merkle_root combine zeros xs ≡ compute_merkle_root combine zeros ys
        → xs ≡ ys
    unfolding compute_merkle_root
    merkle_root_binds zeros [] [] e h = refl
    merkle_root_binds zeros [] (c ∷ s) e h = absurd (omega arith)
    merkle_root_binds zeros (a ∷ r) [] e h = absurd (omega arith)
    merkle_root_binds zeros (a ∷ r) (c ∷ s) e h =
        let (p, _, there, _) = merkle_path_climbs combine zeros 0 (a ∷ r) a refl in
        root_loop_injective (length (a ∷ r)) (a ∷ r) (c ∷ s) _ e there
          (ap (λ n. root_loop combine n (c ∷ s)) e ∙ (sym h ∙ there))
