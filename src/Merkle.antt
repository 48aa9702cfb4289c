-- ===== src/Merkle.antt =====
-- The Merkle tree of scripts/batchAnchor.js and controllers/adminController.js, which hold the
-- same two functions: `computeMerkleRoot` and `computeMerklePath`. A digest is a value of any
-- type; `combine left right` is sha256 of the two digests one after the other, and `zeros` is the
-- buffer of 32 zero bytes. The `while` loops run on fuel, one unit for each leaf.
pub mod Path
pub mod Binding
pub mod Tests
use mathlib.Core.Option
use patch_proof_api.Base.{
  ℕ, zero, suc, ◌+◌, ◌-◌, ◌/◌, ◌%◌, List, [], ◌∷◌, Option, none, some, ◌==◌, if◌then◌else◌, length,
  get_elem?,
}

module _ {H : Type 0} (combine : H → H → H) where
  -- One round of the inner `for` loop: neighbours are hashed together, an odd last one with itself.
  unfoldable pub next_level : List H → List H
  next_level [] = []
  next_level (a ∷ []) = combine a a ∷ []
  next_level (a ∷ b ∷ r) = combine a b ∷ next_level r

  -- `while (level.length > 1)`, then `level[0]`; `none` when the fuel runs out.
  unfoldable pub root_loop : ℕ → List H → Option H
  root_loop f [] = none
  root_loop f (a ∷ []) = some a
  root_loop zero (a ∷ b ∷ r) = none
  root_loop (suc f) (a ∷ b ∷ r) = root_loop f (next_level (a ∷ b ∷ r))

  unfoldable pub compute_merkle_root : H → List H → Option H
  unfolding root_loop next_level
  compute_merkle_root zeros [] = some zeros
  compute_merkle_root zeros (a ∷ r) = root_loop (length (a ∷ r)) (a ∷ r)

abbrev pub or_else : {H : Type 0} → Option H → Option H → Option H
or_else none y = y
or_else (some x) y = some x

-- `level[pairIndex] || level[idx]`; `none` is `undefined`.
unfoldable pub sibling : {H : Type 0} → ℕ → List H → Option H
sibling idx level =
    or_else (get_elem? level (if idx % 2 == 1 then idx - 1 else idx + 1)) (get_elem? level idx)

module _ {H : Type 0} (combine : H → H → H) where
  -- The loop of `computeMerklePath`: the outer `none` is lack of fuel, an inner one `undefined`.
  unfoldable pub path_loop : ℕ → ℕ → List H → Option (List (Option H))
  path_loop f idx [] = some []
  path_loop f idx (a ∷ []) = some []
  path_loop zero idx (a ∷ b ∷ r) = none
  path_loop (suc f) idx (a ∷ b ∷ r) =
      Option.map (◌∷◌ (sibling idx (a ∷ b ∷ r)))
        (path_loop f (idx / 2) (next_level combine (a ∷ b ∷ r)))

  unfoldable pub compute_merkle_path : ℕ → List H → Option (List (Option H))
  unfolding path_loop sibling next_level
  compute_merkle_path index hashes = path_loop (length hashes) index hashes
