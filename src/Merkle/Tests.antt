-- ===== src/Merkle/Tests.antt =====
-- Runs of the Merkle tree, with a tree of terms in place of hashes, and the theorem at these.
use patch_proof_api.Base.{ℕ, ◌+◌, ◌*◌, ◌^◌, ◌≤◌, ◌≡◌, refl, List, [], ◌∷◌, some, map, length}
use patch_proof_api.Merkle.{
  compute_merkle_root, compute_merkle_path, root_loop, path_loop, next_level, sibling,
}
use patch_proof_api.Merkle.Binding.{IsCollisionFree, merkle_root_binds}
use patch_proof_api.Merkle.Path.{climb, merkle_path_climbs}

-- It tells the left argument from the right.
abbrev combine : ℕ → ℕ → ℕ
combine a b = 10 * a + b

root_of_three : compute_merkle_root combine 0 (1 ∷ 2 ∷ 3 ∷ []) ≡ some 153
unfolding compute_merkle_root root_loop next_level
root_of_three = refl

path_of_last : compute_merkle_path combine 2 (1 ∷ 2 ∷ 3 ∷ []) ≡ some (some 3 ∷ some 12 ∷ [])
unfolding compute_merkle_path path_loop next_level sibling
path_of_last = refl

merkle_path_climbs_example :
    (p : List ℕ) × (compute_merkle_path combine 2 (1 ∷ 2 ∷ 3 ∷ []) ≡ some (map some p))
    × (compute_merkle_root combine 0 (1 ∷ 2 ∷ 3 ∷ []) ≡ some (climb combine 2 3 p))
    × (2 ^ length p + 1 ≤ 2 * 3)
merkle_path_climbs_example = merkle_path_climbs combine 0 2 (1 ∷ 2 ∷ 3 ∷ []) 3 refl

-- A batch whose odd last leaf is repeated is longer and has the same root.
root_of_repeated : compute_merkle_root combine 0 (1 ∷ 2 ∷ 3 ∷ 3 ∷ []) ≡ some 153
unfolding compute_merkle_root root_loop next_level
root_of_repeated = refl

-- Terms, as digests without collisions.
data Digest : Type 0 where
  of_leaf : ℕ → Digest
  of_pair : Digest → Digest → Digest

abbrev of_leaves : List ℕ → List Digest
of_leaves [] = []
of_leaves (n ∷ ns) = of_leaf n ∷ of_leaves ns

of_pair-IsCollisionFree : IsCollisionFree of_pair
of_pair-IsCollisionFree a b c d e = (cc, cc)

merkle_root_binds_example : of_leaves (1 ∷ 2 ∷ 3 ∷ []) ≡ of_leaf 1 ∷ of_leaf 2 ∷ of_leaf 3 ∷ []
merkle_root_binds_example =
    merkle_root_binds of_pair of_pair-IsCollisionFree (of_leaf 0) (of_leaves (1 ∷ 2 ∷ 3 ∷ []))
      (of_leaf 1 ∷ of_leaf 2 ∷ of_leaf 3 ∷ []) refl refl
