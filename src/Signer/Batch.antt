-- ===== src/Signer/Batch.antt =====
-- services/kmsSigner.js against routes/internalSigner.route.js: what signBatch gives.
use patch_proof_api.Base.{
  ℕ, zero, suc, ◌-◌, ◌≡◌, refl, ap, ◌∙◌, true, false, List, [], ◌∷◌, map, keep, some, arith,
}
use patch_proof_api.Middleware.{api_key_middleware}
use patch_proof_api.Retry.{
  Response, Outcome, returned, thrown, status, Kms, sign_batch, attempt_from, attempts_or,
  is_retried, of_response,
}
use patch_proof_api.Transactions.{Signature, SigningHash}
use patch_proof_api.Signer.{
  Signer, Body, requests, to_sign, sign_all, sign_hashes, sign_route, response_of,
}

-- The requests of `signBatch` as the route reads them.
abbrev pub body_of : List SigningHash → Body
body_of hs = requests (map (λ h. some h.sighash) hs)

-- The hashes among them, in their order.
abbrev pub valid_of : Signer → List SigningHash → List ℕ
valid_of s hs = keep s.is_hash (map (λ h. h.sighash) hs)

module _ (s : Signer) (g : ℕ → Signature) (total : (h : ℕ) → s.sign h ≡ some (g h)) where
  to_sign-valid : (hs : List SigningHash) → to_sign s (map (λ h. some h.sighash) hs) ≡ valid_of s hs
  unfolding to_sign
  to_sign-valid [] = refl
  to_sign-valid (h ∷ hs) = ground (arith, to_sign-valid hs)

  sign_all-map : (hs : List ℕ) → sign_all s hs ≡ some (map g hs)
  unfolding sign_all
  sign_all-map [] = refl
  sign_all-map (h ∷ hs) = rw (total h, sign_all-map hs) refl

  -- What the hashes that are valid come to: none of them is an error that is not tried again.
  abbrev pub outcome_of : List ℕ → Outcome (List Signature)
  outcome_of [] = thrown (status 400)
  outcome_of (h ∷ hs) = returned (map g (h ∷ hs))

  sign_hashes-response :
      (hs : List ℕ)
      → (is_retried (response_of (sign_hashes s hs)) ≡ false)
        × (of_response (response_of (sign_hashes s hs)) ≡ outcome_of hs)
  sign_hashes-response [] = (refl, refl)
  sign_hashes-response (h ∷ hs) = (rw (sign_all-map (h ∷ hs)) refl, rw (sign_all-map (h ∷ hs)) refl)

  first_attempt :
      (r : Response (List Signature)) (left attempt : ℕ)
      → is_retried r ≡ false
      → attempt_from (λ i. r) left attempt ≡ (r, attempt)
  unfolding attempt_from
  first_attempt r zero attempt e = refl
  first_attempt r (suc left) attempt e = rw e refl

  sign_route-sign_hashes :
      (want got : List ℕ) (hs : List SigningHash)
      → api_key_middleware want got ≡ true
      → sign_route s want got (body_of hs) ≡ sign_hashes s (valid_of s hs)
  unfolding sign_route
  sign_route-sign_hashes want got hs key = rw key (ap (sign_hashes s) (to_sign-valid hs))

  -- Against the signer of the host, with its key, `signBatch` needs one request and gives the
  -- signatures of the hashes that are valid, in their order: a hash that is not valid is left out,
  -- so that the signatures after it move up. Where none is valid it throws with status 400.
  pub sign_batch-sign_route :
      (kms : Kms) (want got : List ℕ) (h : SigningHash) (hs : List SigningHash)
      → api_key_middleware want got ≡ true
      → kms.is_ready ≡ true
      → kms.has_endpoint ≡ true
      → kms.is_mock ≡ false
      → sign_batch kms (λ i. response_of (sign_route s want got (body_of (h ∷ hs)))) (h ∷ hs)
        ≡ (outcome_of (valid_of s (h ∷ hs)), 1)
  unfolding sign_batch
  sign_batch-sign_route kms want got h hs key ready endpoint real =
      let (final, given) = sign_hashes-response (valid_of s (h ∷ hs)) in
      let route = sign_route-sign_hashes want got (h ∷ hs) key in
      let r : Response (List Signature) = response_of (sign_route s want got (body_of (h ∷ hs))) in
      rw
        (
          ready,
          endpoint,
          real,
          first_attempt r (attempts_or 3 kms.max_attempts - 1) 1
              (ap (λ a. is_retried (response_of a)) route ∙ final),
        )
        (ap (λ o. (o, 1)) (ap (λ a. of_response (response_of a)) route ∙ given))
