-- ===== src/Scripts/Batches.antt =====
-- scripts/migrations/backfill-utxo-keyIdentifier.js: the batches do what one update would.
use patch_proof_api.Base.{
  ℕ, ◌≡◌, refl, sym, ap, ◌∙◌, Bool, true, false, ◌||◌, List, [], ◌∷◌, ◌++◌, Option, arith, ==_self,
  leb, length, keep, map, All, if◌then◌else◌, Bool-cases, inl, inr,
}
use mathlib.Core.List.{append-nil, append_assoc}
use patch_proof_api.Mongo.{Collection, modify_all}
use patch_proof_api.Utxo.{Utxo, Outpoint, outpoint, is_at, is_among}
use patch_proof_api.Scripts.Backfill.{
  is_missing, set_key, update_batch, drain, backfill, batch_size_or,
}

-- The reference: one update of every output without a key.
abbrev pub backfilled : ℕ → ℕ → List Utxo → List Utxo
backfilled now key us = modify_all is_missing (set_key now key) us

is_among-append :
    (xs ys : List Outpoint) (u : Utxo) → is_among (xs ++ ys) u ≡ (is_among xs u || is_among ys u)
is_among-append [] ys u = refl
is_among-append (x ∷ xs) ys u = ground (arith, is_among-append xs ys u)

-- Two updates by the same value are one update of what either reaches.
modify_all-modify_all :
    (now key : ℕ) (p q : List Outpoint) (us : List Utxo)
    → modify_all (is_among q) (set_key now key) (modify_all (is_among p) (set_key now key) us)
      ≡ modify_all (is_among (p ++ q)) (set_key now key) us
modify_all-modify_all now key p q [] = refl
modify_all-modify_all now key p q (u ∷ us) =
    ground (arith, is_among-append p q u, modify_all-modify_all now key p q us)

modify_all-cong :
    (p q : Utxo → Bool) (f : Utxo → Utxo) (us : List Utxo)
    → All (λ u. p u ≡ q u) us
    → modify_all p f us ≡ modify_all q f us
modify_all-cong p q f [] h = refl
modify_all-cong p q f (u ∷ us) h =
    rw (h.0) (ap (◌∷◌ (if q u then f u else u)) (modify_all-cong p q f us h.1))

-- No two outputs have an outpoint in common, as the unique index has it.
abbrev pub IsDistinct : List Utxo → Type 0
IsDistinct [] = Unit
IsDistinct (u ∷ us) = All (λ v. is_at (outpoint u) v ≡ false) us × IsDistinct us

abbrev pub cursor : List Utxo → List Outpoint
cursor us = map outpoint (keep is_missing us)

absent :
    (u : Utxo) (us : List Utxo)
    → All (λ v. is_at (outpoint u) v ≡ false) us
    → is_among (cursor us) u ≡ false
absent u [] h = refl
absent u (v ∷ us) h = elim (Bool-cases (is_missing v)) [
  | inl missing ↦ rw (missing, absent u us h.1) (ground (arith, h.0))
  | inr has ↦ rw has (absent u us h.1)
]

cursor-cons :
    (u : Utxo) (us vs : List Utxo)
    → All (λ v. is_at (outpoint u) v ≡ false) vs
    → All (λ v. is_among (cursor us) v ≡ is_missing v) vs
    → All (λ v. is_among (cursor (u ∷ us)) v ≡ is_missing v) vs
cursor-cons u us [] d h = tt
cursor-cons u us (v ∷ vs) d h = elim (Bool-cases (is_missing u)) [
  | inl missing ↦ (rw missing (rw (d.0) h.0), cursor-cons u us vs d.1 h.1)
  | inr has ↦ (rw has h.0, cursor-cons u us vs d.1 h.1)
]

cursor-is_missing :
    (us : List Utxo) → IsDistinct us → All (λ v. is_among (cursor us) v ≡ is_missing v) us
cursor-is_missing [] d = tt
cursor-is_missing (u ∷ us) d = (
  elim (Bool-cases (is_missing u)) [
    | inl missing ↦ rw missing (ground (arith, ==_self u.txid, ==_self u.vout))
    | inr has ↦ rw (has, absent u us d.0) refl
  ],
  cursor-cons u us us d.0 (cursor-is_missing us d.1),
)

module _ (c : Collection Utxo) (now key : ℕ) where
  nothing : (us : List Utxo) → modify_all (is_among []) (set_key now key) us ≡ us
  nothing [] = refl
  nothing (u ∷ us) = ap (◌∷◌ u) (nothing us)

  drain-modify_all :
      (size : ℕ) (os batch : List Outpoint) (us : List Utxo)
      → drain c now key size os batch us ≡ modify_all (is_among (batch ++ os)) (set_key now key) us
  unfolding drain update_batch
  drain-modify_all size [] [] us = sym (nothing us)
  drain-modify_all size [] (b ∷ bs) us = rw (append-nil (b ∷ bs)) (c.update_many_law _ _ us)
  drain-modify_all size (o ∷ os) batch us =
      elim (Bool-cases (leb size (length (batch ++ o ∷ [])))) [
        | inl full ↦
            rw (full, c.update_many_law)
              (drain-modify_all size os [] _
                ∙ (modify_all-modify_all now key (batch ++ o ∷ []) os us
                    ∙ ap (λ b. modify_all (is_among b) (set_key now key) us)
                        (append_assoc batch (o ∷ []) os)))
        | inr more ↦ rw more (
            drain-modify_all size os (batch ++ o ∷ []) us
            ∙ ap (λ b. modify_all (is_among b) (set_key now key) us)
                (append_assoc batch (o ∷ []) os))
      ]

  -- The batches do what one update of all would: whatever the batch size, the migration gives the
  -- key to exactly the outputs that have none, where no two outputs have an outpoint in common; and
  -- a dry run changes nothing.
  pub backfill-backfilled :
      (dry_run : Bool) (size : Option ℕ) (us : List Utxo)
      → IsDistinct us
      → backfill c now key dry_run size us ≡ (if dry_run then us else backfilled now key us)
  unfolding backfill
  backfill-backfilled true size us d = refl
  backfill-backfilled false size us d =
      drain-modify_all (batch_size_or 500 size) (cursor us) [] us
      ∙ modify_all-cong (is_among (cursor us)) is_missing (set_key now key) us
          (cursor-is_missing us d)
