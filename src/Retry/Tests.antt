-- ===== src/Retry/Tests.antt =====
-- Runs of the retry loops of services/kmsSigner.js and clients/wocClient.js, and the theorems at
-- these.
use patch_proof_api.Base.{ℕ, ◌≡◌, ◌==◌, if◌then◌else◌, refl, true, false, List, [], ◌∷◌}
use patch_proof_api.Retry.{
  Response, answer, fails, network, status, Outcome, returned, thrown, Kms, sign_batch, request,
  attempt_from,
}

abbrev kms : Kms
kms = record { is_ready = true; has_endpoint = true; is_mock = false; max_attempts = 0 }

-- Two failures, then an answer.
abbrev flaky : ℕ → Response (List ℕ)
flaky i = if i == 1 then fails network else if i == 2 then fails (status 503) else answer (7 ∷ [])

third_time : sign_batch {R = ℕ} kms flaky (1 ∷ []) ≡ (returned (7 ∷ []), 3)
unfolding sign_batch attempt_from
third_time = refl

no_retry : request {A = ℕ} true 5 (λ i. fails (status 404)) ≡ (thrown (status 404), 1)
unfolding request attempt_from
no_retry = refl

abbrev refused : Outcome ℕ
refused = thrown (status 503)

abbrev absent : Outcome ℕ
absent = thrown (status 404)
