-- ===== src/Transactions/Shape.antt =====
-- services/blockchainService.js: what a transaction that is swept looks like.
use patch_proof_api.Base.{
  ℕ, ◌+◌, ◌-◌, ◌≤◌, ◌<◌, ◌≡◌, ◌≢◌, refl, sym, ap, ◌∙◌, Bool, true, false, List, [], ◌∷◌, map,
  Option, none, some, arith, leb, Bool-cases, Option-cases, inl, inr,
}
use patch_proof_api.Retry.{Unspent, total}
use patch_proof_api.Transactions.{
  Input, pays, Transaction, Signature, Bsv, apply_signatures, Amounts, SweepResult, sweep_planned,
  sweep_sent, sweep_failed, sweep_tx, swept_input, finish_sweep, sign_swept, sweep_address,
  nothing_to_sweep, signing_failed, insufficient_after_fees, serialize_failed,
}

module _ (bsv : Bsv) where
  -- What an input spends: the output, and what it holds.
  abbrev pub spends : Input → ℕ × ℕ × ℕ
  spends i = (i.txid, i.vout, i.satoshis)

  -- The fee of the draft, which pays all but one satoshi.
  abbrev pub draft_fee : ℕ → ℕ → List Unspent → ℕ
  draft_fee to fee_rate us = bsv.fee (sweep_tx bsv us to fee_rate (total us - 1))

  -- All that is swept goes to the one address, but for the fee of the draft.
  abbrev pub Paid : ℕ → ℕ → List Unspent → Transaction → Amounts → Type 0
  Paid to fee_rate us tx a =
      (map spends tx.inputs ≡ map (λ u. (u.tx_hash, u.tx_pos, u.value)) us)
      × (tx.outputs ≡ pays to a.final_amount ∷ [])
      × (a.total_satoshis ≡ total us)
      × (a.final_amount + draft_fee to fee_rate us ≡ total us)
      × (0 < a.final_amount)
      × (bsv.serializes tx ≡ true)

  -- What every sweep that gets as far as signing has in common.
  abbrev pub Conserved : Bool → ℕ → ℕ → List Unspent → SweepResult → Type 0
  Conserved dry_run to fee_rate us nothing_to_sweep = us ≡ []
  Conserved dry_run to fee_rate us signing_failed = Unit
  Conserved dry_run to fee_rate us serialize_failed = Unit
  Conserved dry_run to fee_rate us (insufficient_after_fees sum fee) =
      (sum ≡ total us) × (fee ≡ draft_fee to fee_rate us) × (sum ≤ fee)
  Conserved dry_run to fee_rate us (sweep_planned tx a) =
      (dry_run ≡ true) × Paid to fee_rate us tx a
  Conserved dry_run to fee_rate us (sweep_failed tx a) =
      (dry_run ≡ false) × Paid to fee_rate us tx a
  Conserved dry_run to fee_rate us (sweep_sent txid tx a) =
      (dry_run ≡ false) × Paid to fee_rate us tx a

  -- A signature changes nothing of what the inputs spend.
  apply_signatures-spends :
      (gs : List Signature) (is js : List Input)
      → apply_signatures bsv gs is ≡ some js
      → map spends js ≡ map spends is
  unfolding apply_signatures
  apply_signatures-spends [] is js h = let same : is ≡ js = cc in ap (map spends) (sym same)
  apply_signatures-spends (g ∷ gs) [] js h = absurd (cc)
  apply_signatures-spends (g ∷ gs) (x ∷ is) js h = elim (Option-cases (bsv.script_of g)) [
    | inl bad ↦ absurd (none-some (sym (rw bad refl) ∙ h))
    | inr (sc, good) ↦ elim (Option-cases (apply_signatures bsv gs is)) [
      | inl short ↦ absurd (none-some (sym (rw (good, short) refl) ∙ h))
      | inr (ks, rest) ↦
          let same : record x { script_sig = some sc } ∷ ks ≡ js =
            some-same (sym (rw (good, rest) refl) ∙ h) in
          ap (map spends) (sym same)
          ∙ ap (λ l. spends x ∷ l) (apply_signatures-spends gs is ks rest)
    ]
  ]
    where
      none-some : none ≢ some js
      none-some e = absurd (cc)

      some-same : {l : List Input} → some l ≡ some js → l ≡ js
      some-same e = cc

  spends-swept :
      (us : List Unspent)
      → map spends (map swept_input us) ≡ map (λ u. (u.tx_hash, u.tx_pos, u.value)) us
  spends-swept [] = refl
  spends-swept (u ∷ us) = ap (λ l. (u.tx_hash, u.tx_pos, u.value) ∷ l) (spends-swept us)

  finish-Conserved :
      (dry_run : Bool) (to fee_rate final : ℕ) (us : List Unspent) (tx : Transaction)
      (signatures : Option (List Signature)) (o : Option (List Input)) (txid : Option ℕ)
      → sign_swept bsv tx signatures ≡ o
      → (map spends tx.inputs ≡ map (λ u. (u.tx_hash, u.tx_pos, u.value)) us)
      → (tx.outputs ≡ pays to final ∷ [])
      → (final + draft_fee to fee_rate us ≡ total us)
      → (0 < final)
      → Conserved dry_run to fee_rate us (finish_sweep bsv dry_run tx (total us) final o txid)
  finish-Conserved dry_run to fee_rate final us tx gs none txid h i p q r = tt
  finish-Conserved dry_run to fee_rate final us tx none (some is) txid h i p q r = absurd (cc)
  finish-Conserved true to fee_rate final us tx (some gs) (some is) txid h i p q r =
      elim (Bool-cases (bsv.serializes (record tx { inputs = is }))) [
        | inr bad ↦ rw bad tt
        | inl good ↦
            rw good (refl, (apply_signatures-spends gs tx.inputs is h ∙ i, p, refl, q, r, good))
      ]
  finish-Conserved false to fee_rate final us tx (some gs) (some is) none h i p q r =
      elim (Bool-cases (bsv.serializes (record tx { inputs = is }))) [
        | inr bad ↦ rw bad tt
        | inl good ↦
            rw good (refl, (apply_signatures-spends gs tx.inputs is h ∙ i, p, refl, q, r, good))
      ]
  finish-Conserved false to fee_rate final us tx (some gs) (some is) (some txid) h i p q r =
      elim (Bool-cases (bsv.serializes (record tx { inputs = is }))) [
        | inr bad ↦ rw bad tt
        | inl good ↦
            rw good (refl, (apply_signatures-spends gs tx.inputs is h ∙ i, p, refl, q, r, good))
      ]

  -- On every outcome of a sweep: there is nothing to sweep; the KMS does not sign or the
  -- transaction is not accepted by `serialize`; the draft's fee is no less than what the outputs
  -- hold; or the transaction spends exactly the outputs of the address, and its one written output
  -- pays to the destination what they hold less the fee of the draft, which is above 0. That
  -- transaction is planned in a dry run only, and sent or refused in a real one only.
  pub sweep-Conserved :
      (dry_run : Bool) (to fee_rate : ℕ) (signatures : Option (List Signature)) (txid : Option ℕ)
      (us : List Unspent)
      → Conserved dry_run to fee_rate us (sweep_address bsv dry_run to fee_rate signatures txid us)
  unfolding sweep_address
  sweep-Conserved dry_run to fee_rate signatures txid [] = refl
  sweep-Conserved dry_run to fee_rate signatures txid (u ∷ us) =
      let sum = total (u ∷ us) in
      let fee = bsv.fee (sweep_tx bsv (u ∷ us) to fee_rate (sum - 1)) in
      elim (Bool-cases (leb sum fee)) [
        | inl short ↦ rw short (refl, refl, ground arith)
        | inr enough ↦ rw enough (
            finish-Conserved dry_run to fee_rate (sum - fee) (u ∷ us) _ signatures _ txid refl
              (spends-swept (u ∷ us)) refl (ground arith) (ground arith))
      ]
