-- ===== src/Scripts/Backfill.antt =====
-- scripts/migrations/backfill-utxo-keyIdentifier.js: outputs without a key get the funding key, in
-- batches. An output is named by its outpoint, and a key of 0 is one that is missing or empty.
use patch_proof_api.Base.{
  ℕ, zero, suc, Bool, List, [], ◌∷◌, ◌++◌, Option, none, some, ◌==◌, leb, length, keep, map,
  if◌then◌else◌,
}
use patch_proof_api.Mongo.{Collection}
use patch_proof_api.Utxo.{Utxo, Outpoint, outpoint, is_among}

abbrev pub is_missing : Utxo → Bool
is_missing u = u.key_identifier == 0

-- The update, with the time that mongoose writes; all batches are taken to run at one time.
abbrev pub set_key : ℕ → ℕ → Utxo → Utxo
set_key now key u = record u { key_identifier = key; updated_at = now }

-- `parseInt` of the argument after `--batch-size`, if it is a number above 0, else 500.
abbrev pub batch_size_or : ℕ → Option ℕ → ℕ
batch_size_or d none = d
batch_size_or d (some zero) = d
batch_size_or d (some (suc n)) = suc n

module _ (c : Collection Utxo) (now key : ℕ) where
  -- `updateMany({ _id: { $in: batch } }, { $set: { keyIdentifier } })`
  unfoldable pub update_batch : List Outpoint → List Utxo → List Utxo
  update_batch batch us = c.update_many (is_among batch) (set_key now key) us

  -- The loop over the cursor, with the batch so far; what is left at the end is updated last.
  unfoldable pub drain : ℕ → List Outpoint → List Outpoint → List Utxo → List Utxo
  unfolding update_batch
  drain size [] [] us = us
  drain size [] (b ∷ bs) us = update_batch (b ∷ bs) us
  drain size (o ∷ os) batch us =
      let full = drain size os [] (update_batch (batch ++ o ∷ []) us) in
      let more = drain size os (batch ++ o ∷ []) us in
      if leb size (length (batch ++ o ∷ [])) then full else more

  -- `main`, after the check of the key; `cursor` is what the query has found.
  unfoldable pub backfill : Bool → Option ℕ → List Utxo → List Utxo
  unfolding drain
  backfill dry_run size us =
      if dry_run
      then us
      else drain (batch_size_or 500 size) (map outpoint (keep is_missing us)) [] us
