-- ===== src/Retry.antt =====
-- services/kmsSigner.js and clients/wocClient.js: requests to the KMS and to WhatsOnChain, each
-- tried again with exponential backoff. The service at the other end is a function from the
-- number of the attempt to its answer; the delays are not modelled.
pub mod Decides
pub mod Tests
use patch_proof_api.Base.{
  ℕ, zero, suc, ◌-◌, ◌+◌, Bool, true, false, ◌&&◌, ◌||◌, not, List, [], ◌∷◌, Option, none, some,
  ◌==◌, leb, ltb, if◌then◌else◌, keep, length,
}

-- `malformed`: an answer without what the KMS client needs of it. `network`: no answer.
pub data Failure : Type 0 where
  malformed network : Failure
  status : ℕ → Failure

pub data Response (A : Type 0) : Type 0 where
  answer : A → Response A
  fails : Failure → Response A

pub data Outcome (A : Type 0) : Type 0 where
  returned : A → Outcome A
  thrown : Failure → Outcome A
  not_ready not_configured mock_mode invalid_payload : Outcome A

-- `!status || status >= 500`, or an error that is not of the HTTP client
abbrev pub is_retryable : Failure → Bool
is_retryable malformed = true
is_retryable network = true
is_retryable (status s) = s == 0 || leb 500 s

abbrev pub is_retried : {A : Type 0} → Response A → Bool
is_retried (answer a) = false
is_retried (fails f) = is_retryable f

abbrev pub of_response : {A : Type 0} → Response A → Outcome A
of_response (answer a) = returned a
of_response (fails f) = thrown f

-- The loop from one attempt on, with so many retries left: what it gives, and its last attempt.
unfoldable pub attempt_from : {A : Type 0} → (ℕ → Response A) → ℕ → ℕ → Response A × ℕ
attempt_from server zero attempt = (server attempt, attempt)
attempt_from server (suc left) attempt =
    let rest = attempt_from server left (suc attempt) in
    if is_retried (server attempt) then rest else (server attempt, attempt)

pub record Kms : Type 0 where
  pub is_ready : Bool
  pub has_endpoint : Bool
  pub is_mock : Bool
  pub max_attempts : ℕ

-- `KMS_SIGN_RETRY_ATTEMPTS || 3`
abbrev pub attempts_or : ℕ → ℕ → ℕ
attempts_or d zero = d
attempts_or d (suc n) = suc n

-- `signBatch`: the second component is the number of requests that were sent.
unfoldable pub sign_batch :
    {A R : Type 0} → Kms → (ℕ → Response (List A)) → List R → Outcome (List A) × ℕ
unfolding attempt_from
sign_batch kms server [] = (returned [], 0)
sign_batch kms server (r ∷ rs) =
    if not kms.is_ready
    then (not_ready, 0)
    else if not kms.has_endpoint
    then (not_configured, 0)
    else if kms.is_mock
    then (mock_mode, 0)
    else let (a, n) = attempt_from server (attempts_or 3 kms.max_attempts - 1) 1 in
      (of_response a, n)

-- The payload needs both `Mhex` and `pmcHex`.
abbrev has_payload : Option ℕ → Option ℕ → Bool
has_payload (some _) (some _) = true
has_payload (some _) none = false
has_payload none _ = false

unfoldable pub svd_derive_shared_secret :
    {A : Type 0} → Kms → (ℕ → Response A) → Option ℕ → Option ℕ → Outcome A × ℕ
unfolding attempt_from
svd_derive_shared_secret kms server m pmc =
    if not kms.is_ready
    then (not_ready, 0)
    else if not kms.has_endpoint
    then (not_configured, 0)
    else if kms.is_mock
    then (mock_mode, 0)
    else if not (has_payload m pmc)
    then (invalid_payload, 0)
    else let (a, n) = attempt_from server (attempts_or 3 kms.max_attempts - 1) 1 in
      (of_response a, n)

-- `WocClient._request`: `WOC_RETRIES || 2` retries after the first attempt.
unfoldable pub request : {A : Type 0} → Bool → ℕ → (ℕ → Response A) → Outcome A × ℕ
unfolding attempt_from
request is_ready retries server =
    if not is_ready
    then (not_ready, 0)
    else let (a, n) = attempt_from server (attempts_or 2 retries) 1 in (of_response a, n)

-- An unspent output as the API lists it; a height of 0 is one in the mempool.
pub record Unspent : Type 0 where
  pub tx_hash : ℕ
  pub tx_pos : ℕ
  pub value : ℕ
  pub height : ℕ

-- `height - u.height + 1 >= minConfirmations`, without the truncation of ℕ
abbrev pub has_confirmations : ℕ → ℕ → Unspent → Bool
has_confirmations tip least u = ltb 0 u.height && leb (least + u.height) (tip + 1)

abbrev pub total : List Unspent → ℕ
total [] = 0
total (u ∷ us) = u.value + total us

pub record ChainHealth : Type 0 where
  pub total_utxos : ℕ
  pub total_satoshis : ℕ
  pub confirmed_utxos : ℕ
  pub confirmed_satoshis : ℕ
  pub height : ℕ

-- `getChainHealth`, from the two answers.
unfoldable pub get_chain_health : ℕ → ℕ → List Unspent → ChainHealth
get_chain_health least tip list =
    let confirmed = keep (has_confirmations tip least) list in
    record {
      total_utxos = length list;
      total_satoshis = total list;
      confirmed_utxos = length confirmed;
      confirmed_satoshis = total confirmed;
      height = tip;
    }

-- `getUnspentOutputs`, from the answers.
unfoldable pub get_unspent_outputs : ℕ → ℕ → List Unspent → List Unspent
get_unspent_outputs zero tip list = list
get_unspent_outputs (suc n) tip list = keep (has_confirmations tip (suc n)) list

-- `isUtxoSpent`: an answer means spent, and 404 unspent.
unfoldable pub is_utxo_spent : {A : Type 0} → Outcome A → Outcome Bool
is_utxo_spent (returned a) = returned true
is_utxo_spent (thrown (status s)) = if s == 404 then returned false else thrown (status s)
is_utxo_spent (thrown malformed) = thrown malformed
is_utxo_spent (thrown network) = thrown network
is_utxo_spent not_ready = not_ready
is_utxo_spent not_configured = not_configured
is_utxo_spent mock_mode = mock_mode
is_utxo_spent invalid_payload = invalid_payload
