-- ===== src/Merkle/Path.antt =====
-- A path of scripts/batchAnchor.js leads from its leaf to the root.
use native.Mathlib.Nat.{pow-suc}
use patch_proof_api.Base.{
  ℕ, zero, suc, ◌+◌, ◌-◌, ◌∙◌, ◌*◌, ◌/◌, ◌%◌, ◌^◌, ◌≤◌, ◌≡◌, refl, List, [], ◌∷◌, map, some, arith,
  ◌==◌, if◌then◌else◌, length, get_elem?, Bool-cases, inl, inr,
}
use patch_proof_api.Merkle.{
  next_level, root_loop, compute_merkle_root, sibling, path_loop, compute_merkle_path,
}

-- The index of the sibling moves with the list.
sibling_shift :
    {H : Type 0} (i : ℕ) (a b : H) (r : List H) → sibling (suc (suc i)) (a ∷ b ∷ r) ≡ sibling i r
unfolding sibling
sibling_shift i a b r =
    let parity : suc (suc i) % 2 ≡ i % 2 = omega arith in
    rw parity (elim (Bool-cases (i % 2 == 1)) [
      | inl odd ↦ let e : suc (suc i) - 1 ≡ suc (suc (i - 1)) = ground arith in rw (odd, e)
      | inr even ↦ let e : suc (suc i) + 1 ≡ suc (suc (i + 1)) = omega arith in rw (even, e)
    ])

-- One more digest on a path pays for twice as many leaves.
path_bound :
    {H : Type 0} (p : List H) (m n : ℕ)
    → 2 ^ length p + 1 ≤ 2 * n
    → n * 2 ≤ suc (suc m) + 1
    → 2 ^ suc (length p) + 1 ≤ 2 * suc (suc m)
path_bound [] m n h k = omega arith
path_bound (x ∷ p) m n h k = omega (arith, pow-suc 2 (suc (length p)), pow-suc 2 (length p))

module _ {H : Type 0} (combine : H → H → H) where
  -- What a verifier does with a leaf, its index and the path: it hashes upwards.
  unfoldable pub climb : ℕ → H → List H → H
  climb idx h [] = h
  climb idx h (s ∷ p) = climb (idx / 2) (if idx % 2 == 1 then combine s h else combine h s) p

  length-next_level : (l : List H) → length (next_level combine l) * 2 ≤ length l + 1
  unfolding next_level
  length-next_level [] = omega arith
  length-next_level (a ∷ []) = omega arith
  length-next_level (a ∷ b ∷ r) = omega (arith, length-next_level r)

  -- A leaf in range has a sibling, and the two make its parent.
  sibling-next_level :
      (i : ℕ) (l : List H) (x : H)
      → get_elem? l i ≡ some x
      → (s : H) × (sibling i l ≡ some s)
        × (get_elem? (next_level combine l) (i / 2)
            ≡ some (if i % 2 == 1 then combine s x else combine x s))
  unfolding next_level sibling
  sibling-next_level i [] x e = absurd (cc)
  sibling-next_level zero (a ∷ []) x e = (a, refl, cc)
  sibling-next_level (suc i) (a ∷ []) x e = absurd (cc)
  sibling-next_level zero (a ∷ b ∷ r) x e = (b, refl, cc)
  sibling-next_level (suc zero) (a ∷ b ∷ r) x e = (a, refl, cc)
  sibling-next_level (suc (suc i)) (a ∷ b ∷ r) x e =
      let (s, es, en) = sibling-next_level i r x e in
      let half : suc (suc i) / 2 ≡ suc (i / 2) = omega arith in
      let parity : suc (suc i) % 2 ≡ i % 2 = omega arith in
      (s, sibling_shift i a b r ∙ es, rw (half, parity) en)

  -- The two loops, on the same fuel: the path climbs to the root, and is short.
  loops_agree :
      (f i : ℕ) (l : List H) (x : H)
      → length l ≤ f
      → get_elem? l i ≡ some x
      → (p : List H) × (path_loop combine f i l ≡ some (map some p))
        × (root_loop combine f l ≡ some (climb i x p))
        × (2 ^ length p + 1 ≤ 2 * length l)
  unfolding path_loop root_loop climb
  loops_agree f i [] x h e = absurd (cc)
  loops_agree f zero (a ∷ []) x h e = ([], refl, e, omega arith)
  loops_agree f (suc i) (a ∷ []) x h e = absurd (cc)
  loops_agree zero i (a ∷ b ∷ r) x h e = absurd (omega arith)
  loops_agree (suc f) i (a ∷ b ∷ r) x h e =
      let (s, es, en) = sibling-next_level i (a ∷ b ∷ r) x e in
      let n = next_level combine (a ∷ b ∷ r) in
      let (p, ep, er, ez) =
        loops_agree f (i / 2) n _ (omega (arith, length-next_level (a ∷ b ∷ r))) en in
      (
        s ∷ p,
        rw (es, ep),
        er,
        path_bound p (length r) (length n) ez (length-next_level (a ∷ b ∷ r)),
      )

  -- For every leaf the script computes a root and a path, and the path leads from the leaf to that
  -- root: hashing upwards from the leaf, left or right by the bits of its index, ends in the root.
  -- The path has no undefined entry, and its length is logarithmic in the number of leaves.
  pub merkle_path_climbs :
      (zeros : H) (index : ℕ) (hashes : List H) (leaf : H)
      → get_elem? hashes index ≡ some leaf
      → (p : List H) × (compute_merkle_path combine index hashes ≡ some (map some p))
        × (compute_merkle_root combine zeros hashes ≡ some (climb index leaf p))
        × (2 ^ length p + 1 ≤ 2 * length hashes)
  unfolding compute_merkle_path compute_merkle_root
  merkle_path_climbs zeros index [] leaf e = absurd (cc)
  merkle_path_climbs zeros index (a ∷ r) leaf e =
      loops_agree (length (a ∷ r)) index (a ∷ r) leaf (omega arith) e
