-- ===== src/Retry/Decides.antt =====
-- services/kmsSigner.js and clients/wocClient.js: which attempt decides a request.
use patch_proof_api.Base.{
  ℕ, zero, suc, ◌-◌, ◌+◌, ◌≤◌, ◌<◌, ◌≡◌, refl, subst, ◌⊎◌, ◌↔◌, ◌∙◌, true, false, List, ◌∷◌, arith,
  Bool-cases, inl, inr,
}
use patch_proof_api.Retry.{
  Response, Outcome, returned, is_retried, of_response, attempt_from, Kms, attempts_or, sign_batch,
  request, status, malformed, network, thrown, is_utxo_spent, not_ready, not_configured, mock_mode,
  invalid_payload,
}

-- The attempt that decides: all before it failed in a way that is tried again, and it did not, or
-- it is the last one allowed.
abbrev pub Decides : {A : Type 0} → (ℕ → Response A) → ℕ → ℕ → Response A × ℕ → Type 0
Decides server first last (r, k) =
    (first ≤ k)
    × (k ≤ last)
    × ((i : ℕ) → first ≤ i → i < k → is_retried (server i) ≡ true)
    × (r ≡ server k)
    × (is_retried (server k) ≡ true → k ≡ last)

≤-cases : {m n : ℕ} → m ≤ n → (m ≡ n) ⊎ (suc m ≤ n)
≤-cases {m = m} {n = n} h = omega arith

attempt_from-Decides :
    {A : Type 0} (server : ℕ → Response A) (left attempt : ℕ)
    → Decides server attempt (attempt + left) (attempt_from server left attempt)
unfolding attempt_from
attempt_from-Decides server zero attempt =
    (omega arith, omega arith, λ i h l. absurd (omega arith), refl, λ e. omega arith)
attempt_from-Decides server (suc left) attempt = elim (Bool-cases (is_retried (server attempt))) [
  | inl again ↦
      let (a, b, c, d, e) = attempt_from-Decides server left (suc attempt) in
      rw again (omega arith, omega arith, earlier again c, d, λ h. e h ∙ omega arith)
  | inr final ↦
      rw final (omega arith, omega arith, λ i h l. absurd (omega arith), refl, λ h. absurd (cc))
]
  where
    earlier :
        {k : ℕ}
        → is_retried (server attempt) ≡ true
        → ((i : ℕ) → suc attempt ≤ i → i < k → is_retried (server i) ≡ true)
        → (i : ℕ) → attempt ≤ i
        → i < k
        → is_retried (server i) ≡ true
    earlier h c i l r = elim (≤-cases l) [
      | inl same ↦ subst (λ j. is_retried (server j) ≡ true) same h
      | inr more ↦ c i more r
    ]

-- When the KMS client is ready and not in mock mode, `signBatch` on a list that is not empty gives
-- what the deciding attempt gave, at most `KMS_SIGN_RETRY_ATTEMPTS` (3 when it is not set) requests
-- being sent.
sign_batch-Decides :
    {A R : Type 0} (kms : Kms) (server : ℕ → Response (List A)) (r : R) (rs : List R)
    → kms.is_ready ≡ true
    → kms.has_endpoint ≡ true
    → kms.is_mock ≡ false
    → (a : Response (List A)) × (k : ℕ) × (sign_batch kms server (r ∷ rs) ≡ (of_response a, k))
      × Decides server 1 (attempts_or 3 kms.max_attempts) (a, k)
unfolding sign_batch
sign_batch-Decides kms server r rs h1 h2 h3 = (
  _,
  _,
  rw (h1, h2, h3) refl,
  subst (λ n. Decides server 1 n (attempt_from server (attempts_or 3 kms.max_attempts - 1) 1))
      (last kms.max_attempts) (attempt_from-Decides server (attempts_or 3 kms.max_attempts - 1) 1),
)
  where
    last : (m : ℕ) → 1 + (attempts_or 3 m - 1) ≡ attempts_or 3 m
    last zero = refl
    last (suc m) = omega arith

-- A request of the initialised WhatsOnChain client gives what the deciding attempt gave, of at most
-- `WOC_RETRIES` + 1 attempts (3 when it is not set or 0).
request-Decides :
    {A : Type 0} (retries : ℕ) (server : ℕ → Response A)
    → (a : Response A) × (k : ℕ) × (request true retries server ≡ (of_response a, k))
      × Decides server 1 (1 + attempts_or 2 retries) (a, k)
unfolding request
request-Decides retries server = (_, _, refl, attempt_from-Decides server (attempts_or 2 retries) 1)

-- `isUtxoSpent` answers false in one case only, a request that ends in status 404, and true only
-- when the request was answered: a failure of the network or of the server is never read as
-- unspent.
is_utxo_spent_iff :
    {A : Type 0} (r : Outcome A)
    → ((is_utxo_spent r ≡ returned false) ↔ (r ≡ thrown (status 404)))
      × (is_utxo_spent r ≡ returned true → (a : A) × (r ≡ returned a))
unfolding is_utxo_spent
is_utxo_spent_iff (returned a) = ((λ h. absurd (cc), λ h. absurd (cc)), λ h. (a, refl))
is_utxo_spent_iff (thrown malformed) = ((λ h. absurd (cc), λ h. absurd (cc)), λ h. absurd (cc))
is_utxo_spent_iff (thrown network) = ((λ h. absurd (cc), λ h. absurd (cc)), λ h. absurd (cc))
is_utxo_spent_iff (thrown (status s)) = ((λ h. ground arith, λ h. ground arith), λ h. ground arith)
is_utxo_spent_iff not_ready = ((λ h. absurd (cc), λ h. absurd (cc)), λ h. absurd (cc))
is_utxo_spent_iff not_configured = ((λ h. absurd (cc), λ h. absurd (cc)), λ h. absurd (cc))
is_utxo_spent_iff mock_mode = ((λ h. absurd (cc), λ h. absurd (cc)), λ h. absurd (cc))
is_utxo_spent_iff invalid_payload = ((λ h. absurd (cc), λ h. absurd (cc)), λ h. absurd (cc))
