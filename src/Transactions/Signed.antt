-- ===== src/Transactions/Signed.antt =====
-- services/blockchainService.js: which signature goes to which input of a transaction.
use patch_proof_api.Base.{
  ℕ, zero, suc, ◌+◌, ◌≤◌, ◌≡◌, ◌≢◌, refl, sym, ap, ◌∙◌, subst, List, [], ◌∷◌, map, Option, none,
  some, arith, ltb, length, Bool-cases, Option-cases, inl, inr, get_elem?,
}
use patch_proof_api.Transactions.{
  Input, data_out, Transaction, Funding, Signature, Bsv, SigningHash, insufficient_funds, built,
  input_of, funds, signing_hashes, op_return_of, build_op_return_transaction, apply_signatures,
}

module _ (bsv : Bsv) where
  abbrev hash_for : Transaction → Funding → ℕ → Option SigningHash
  hash_for tx u k = some (record { key_identifier = u.key_identifier; sighash = bsv.sighash tx k })

  hash_at :
      (tx : Transaction) (from i : ℕ) (us : List Funding) (u : Funding)
      → get_elem? us i ≡ some u
      → get_elem? (signing_hashes bsv tx from us) i ≡ hash_for tx u (from + i)
  hash_at tx from i [] u h = absurd (cc)
  hash_at tx from zero (x ∷ us) u h =
      let same : x ≡ u = cc in
      let here : from ≡ from + 0 = omega arith in
      subst (λ v. hash_for tx x from ≡ hash_for tx v (from + 0)) same (ap (hash_for tx x) here)
  hash_at tx from (suc i) (x ∷ us) u h =
      let next : suc from + i ≡ from + suc i = omega arith in
      hash_at tx (suc from) i us u h ∙ ap (hash_for tx u) next

  -- A transaction that `buildOpReturnTransaction` returns spends the given outputs in their order,
  -- carries the data and nothing else beside the change, is covered by the funds, and its
  -- `i`-th hash is that of input `i`, for the key of the `i`-th output.
  op_return-built :
      (us : List Funding) (data_ change fee_rate i : ℕ) (u : Funding) (tx : Transaction)
      (hs : List SigningHash)
      → build_op_return_transaction bsv us data_ change fee_rate ≡ built tx hs
      → get_elem? us i ≡ some u
      → (tx.inputs ≡ map input_of us)
        × (tx.outputs ≡ data_out data_ ∷ [])
        × (bsv.fee tx ≤ funds us)
        × (get_elem? hs i
            ≡ some (record { key_identifier = u.key_identifier; sighash = bsv.sighash tx i }))
  unfolding build_op_return_transaction
  op_return-built [] data_ change fee_rate i u tx hs h e = absurd (cc)
  op_return-built (x ∷ us) data_ change fee_rate i u tx hs h e =
      let t = op_return_of bsv (x ∷ us) data_ change fee_rate in
      elim (Bool-cases (ltb (funds (x ∷ us)) (bsv.fee t))) [
        | inl short ↦
            absurd (short-built {a = funds (x ∷ us)} {b = bsv.fee t} (sym (rw short refl) ∙ h))
        | inr enough ↦
            let (same, hashes) =
              built-same {t = t} {l = signing_hashes bsv t 0 (x ∷ us)} (sym (rw enough refl) ∙ h) in
            let start : 0 + i ≡ i = omega arith in
            (
              ap (λ q. q.inputs) (sym same),
              ap (λ q. q.outputs) (sym same),
              subst (λ q. bsv.fee q ≤ funds (x ∷ us)) same (ground arith),
              subst (λ q. get_elem? hs i ≡ hash_for q u i) same
                  (subst (λ l. get_elem? l i ≡ hash_for t u i) hashes
                    (hash_at t 0 i (x ∷ us) u e ∙ ap (hash_for t u) start)),
            )
      ]
    where
      short-built : {a b : ℕ} → insufficient_funds a b ≢ built tx hs
      short-built e = absurd (cc)

      built-same :
          {t : Transaction} {l : List SigningHash} → built t l ≡ built tx hs → (t ≡ tx) × (l ≡ hs)
      built-same e = (cc, cc)

  abbrev signed_by : ℕ → Input → Input
  signed_by sc i = record i { script_sig = some sc }

  -- The input that a signature has gone to.
  abbrev pub Signed : List Signature → ℕ → Input → Input → Type 0
  Signed [] n i j = i ≡ j
  Signed (g ∷ gs) zero i j =
      (s : ℕ) × (bsv.script_of g ≡ some s) × (j ≡ record i { script_sig = some s })
  Signed (g ∷ gs) (suc n) i j = Signed gs n i j

  apply_signatures-length :
      (gs : List Signature) (is js : List Input)
      → apply_signatures bsv gs is ≡ some js
      → length gs ≤ length is
  unfolding apply_signatures
  apply_signatures-length [] is js h = omega arith
  apply_signatures-length (g ∷ gs) [] js h = absurd (cc)
  apply_signatures-length (g ∷ gs) (x ∷ is) js h =
      elim (Option-cases (apply_signatures bsv gs is)) [
        | inl short ↦ absurd (ground arith)
        | inr (ks, rest) ↦ omega (arith, apply_signatures-length gs is ks rest)
      ]

  -- Where `applySignatures` returns, the `n`-th signature is in the `n`-th input, and the inputs
  -- past the last signature are left as they are, unsigned.
  apply_signatures-Signed :
      (gs : List Signature) (is js : List Input) (n : ℕ) (i : Input)
      → apply_signatures bsv gs is ≡ some js
      → get_elem? is n ≡ some i
      → (length gs ≤ length is) × ((j : Input) × (get_elem? js n ≡ some j) × Signed gs n i j)
  unfolding apply_signatures
  apply_signatures-Signed [] is js n i h e =
      let same : is ≡ js = cc in
      (omega arith, (i, subst (λ l. get_elem? l n ≡ some i) same e, refl))
  apply_signatures-Signed (g ∷ gs) [] js n i h e = absurd (cc)
  apply_signatures-Signed (g ∷ gs) (x ∷ is) js n i h e = elim (Option-cases (bsv.script_of g)) [
    | inl bad ↦ absurd (none-some (sym (rw bad refl) ∙ h))
    | inr (sc, good) ↦ elim (Option-cases (apply_signatures bsv gs is)) [
      | inl short ↦ absurd (none-some (sym (rw (good, short) refl) ∙ h))
      | inr (ks, rest) ↦
          let same : record x { script_sig = some sc } ∷ ks ≡ js =
            some-same (sym (rw (good, rest) refl) ∙ h) in
          subst
            (λ l.
              (length (g ∷ gs) ≤ length (x ∷ is))
              × ((j : Input) × (get_elem? l n ≡ some j) × Signed (g ∷ gs) n i j))
            same (at n sc ks good rest e (λ m e'. apply_signatures-Signed gs is ks m i rest e'))
    ]
  ]
    where
      none-some : none ≢ some js
      none-some e = absurd (cc)

      some-same : {l : List Input} → some l ≡ some js → l ≡ js
      some-same e = cc

      at :
          (m sc : ℕ) (ks : List Input)
          → bsv.script_of g ≡ some sc
          → apply_signatures bsv gs is ≡ some ks
          → get_elem? (x ∷ is) m ≡ some i
          → ((k : ℕ)
              → get_elem? is k ≡ some i
              → (length gs ≤ length is)
                × ((j : Input) × (get_elem? ks k ≡ some j) × Signed gs k i j))
          → (length (g ∷ gs) ≤ length (x ∷ is))
            × ((j : Input) × (get_elem? (record x { script_sig = some sc } ∷ ks) m ≡ some j)
                × Signed (g ∷ gs) m i j)
      at zero sc ks good rest e below =
          let same : x ≡ i = cc in
          (
            omega (arith, apply_signatures-length gs is ks rest),
            (record x { script_sig = some sc }, refl, (sc, good, ap (signed_by sc) same)),
          )
      at (suc m) sc ks good rest e below =
          let (le, (j, there, sg)) = below m e in (omega (arith, le), (j, there, sg))
