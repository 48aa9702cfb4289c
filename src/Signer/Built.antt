-- ===== src/Signer/Built.antt =====
-- services/blockchainService.js, services/kmsSigner.js and routes/internalSigner.route.js together:
-- a transaction is built, its hashes are signed, and the signatures are applied.
use patch_proof_api.Base.{
  ℕ, suc, ◌≡◌, refl, sym, ap, subst, ◌∙◌, true, false, List, [], ◌∷◌, map, some, Bool-cases, inl,
  inr, All, ltb,
}
use patch_proof_api.Middleware.{api_key_middleware}
use patch_proof_api.Retry.{Kms, returned, sign_batch}
use patch_proof_api.Transactions.{
  Input, Transaction, Funding, Signature, Bsv, SigningHash, built, insufficient_funds, input_of,
  funds, signing_hashes, op_return_of, build_op_return_transaction, apply_signatures,
}
use patch_proof_api.Signer.{Signer, sign_route, response_of}
use patch_proof_api.Signer.Batch.{body_of, valid_of, outcome_of, sign_batch-sign_route}

module _ (bsv : Bsv) where
  built-hashes :
      (us : List Funding) (data_ change fee_rate : ℕ) (tx : Transaction) (hs : List SigningHash)
      → build_op_return_transaction bsv us data_ change fee_rate ≡ built tx hs
      → (hs ≡ signing_hashes bsv tx 0 us) × (tx.inputs ≡ map input_of us)
  unfolding build_op_return_transaction
  built-hashes [] data_ change fee_rate tx hs e = absurd (cc)
  built-hashes (u ∷ us) data_ change fee_rate tx hs e =
      let t = op_return_of bsv (u ∷ us) data_ change fee_rate in
      elim (Bool-cases (ltb (funds (u ∷ us)) (bsv.fee t))) [
        | inl short ↦
            absurd (short-built {a = funds (u ∷ us)} {b = bsv.fee t} (sym (rw short refl) ∙ e))
        | inr enough ↦
            let (same, hashes) =
              built-same {t = t} {l = signing_hashes bsv t 0 (u ∷ us)} (sym (rw enough refl) ∙ e) in
            (
              subst (λ q. hs ≡ signing_hashes bsv q 0 (u ∷ us)) same (sym hashes),
              ap (λ q. q.inputs) (sym same),
            )
      ]
    where
      short-built : {a b : ℕ} → insufficient_funds a b ≡ built tx hs → ⊥
      short-built e = absurd (cc)

      built-same :
          {t : Transaction} {l : List SigningHash} → built t l ≡ built tx hs → (t ≡ tx) × (l ≡ hs)
      built-same e = (cc, cc)

  module _ (s : Signer) (g : ℕ → Signature) (script : ℕ → ℕ)
      (total : (h : ℕ) → s.sign h ≡ some (g h))
      (parses : (h : ℕ) → bsv.script_of (g h) ≡ some (script h)) where
    -- The inputs, each with the signature of its own hash.
    abbrev pub signed_inputs : Transaction → ℕ → List Funding → List Input
    signed_inputs tx index [] = []
    signed_inputs tx index (u ∷ us) =
        record (input_of u) { script_sig = some (script (bsv.sighash tx index)) }
        ∷ signed_inputs tx (suc index) us

    -- The requests all hold a hash.
    abbrev pub AllHashes : List SigningHash → Type 0
    AllHashes hs = All (λ h. s.is_hash h.sighash ≡ true) hs

    applied :
        (tx : Transaction) (index : ℕ) (us : List Funding)
        → AllHashes (signing_hashes bsv tx index us)
        → apply_signatures bsv
            (map g (valid_of s (signing_hashes bsv tx index us)))
            (map input_of us)
          ≡ some (signed_inputs tx index us)
    unfolding apply_signatures
    applied tx index [] valid = refl
    applied tx index (u ∷ us) valid =
        rw (valid.0, parses (bsv.sighash tx index), applied tx (suc index) us valid.1) refl

    valid_first :
        (h : SigningHash) (hs : List SigningHash)
        → AllHashes (h ∷ hs)
        → outcome_of s g total (valid_of s (h ∷ hs)) ≡ returned (map g (valid_of s (h ∷ hs)))
    valid_first h hs valid = rw valid.0 refl

    -- A transaction that `buildOpReturnTransaction` returns is signed throughout by the signer of
    -- the host: if its hashes are well formed, `signBatch` returns signatures, and
    -- `applySignatures` puts in each input the signature of its own hash.
    pub built-signed :
        (kms : Kms) (want got : List ℕ) (us : List Funding) (data_ change fee_rate : ℕ)
        (tx : Transaction) (hs : List SigningHash)
        → build_op_return_transaction bsv us data_ change fee_rate ≡ built tx hs
        → AllHashes hs
        → api_key_middleware want got ≡ true
        → kms.is_ready ≡ true
        → kms.has_endpoint ≡ true
        → kms.is_mock ≡ false
        → (gs : List Signature) × (sign_batch kms
              (λ i. response_of (sign_route s want got (body_of hs)))
              hs
            ≡ (returned gs, 1))
          × (apply_signatures bsv gs tx.inputs ≡ some (signed_inputs tx 0 us))
    unfolding build_op_return_transaction
    built-signed kms want got [] data_ change fee_rate tx hs e valid key ready endpoint real =
        absurd (cc)
    built-signed kms want got (u ∷ us) data_ change fee_rate tx [] e valid key ready endpoint real =
        absurd (cc (built-hashes (u ∷ us) data_ change fee_rate tx [] e).0)
    built-signed kms want got (u ∷ us) data_ change fee_rate tx (h ∷ hs) e valid key ready endpoint
          real =
        let (same, ins) = built-hashes (u ∷ us) data_ change fee_rate tx (h ∷ hs) e in
        (
          map g (valid_of s (h ∷ hs)),
          sign_batch-sign_route s g total kms want got h hs key ready endpoint real
              ∙ ap (λ o. (o, 1)) (valid_first h hs valid),
          ap (λ is. apply_signatures bsv (map g (valid_of s (h ∷ hs))) is) ins
              ∙ (ap (λ l. apply_signatures bsv (map g (valid_of s l)) (map input_of (u ∷ us))) same
                  ∙ applied tx 0 (u ∷ us) (subst AllHashes same valid)),
        )
