-- ===== src/AuthCodes/Tests.antt =====
-- Runs of services/authService.js, and the theorems at these.
use patch_proof_api.Base.{◌+◌, ◌≡◌, refl, true, List, [], ◌∷◌, some, arith, ◌==◌}
use patch_proof_api.Mongo.{Collection}
use patch_proof_api.Mongo.InMemory.{in_memory}
use patch_proof_api.AuthCodes.{
  VerificationCode, Bcrypt, test, mocked, code_sent, token_for, not_found_or_expired,
  request_verification, submit_verification,
}
use patch_proof_api.AuthCodes.OneTime.{request-submit}

abbrev bcrypt : Bcrypt
bcrypt = record { hash = λ code salt. code + salt; compare = λ code h. code + 10 == h }

abbrev db : Collection VerificationCode
db = in_memory VerificationCode

abbrev old_code : List VerificationCode
old_code = record { identifier = 3; code_hash = 999; created_at = 1 } ∷ []

abbrev after_request : List VerificationCode
after_request = (request_verification db bcrypt test true mocked 50 123456 10 (some 3) old_code).1

requested :
    request_verification db bcrypt test true mocked 50 123456 10 (some 3) old_code
    ≡ (code_sent (some 123456), after_request)
unfolding request_verification
requested = refl

request-submit_example :
    let (r, after) = submit_verification db bcrypt true (some 3) (some 123456) after_request in
    (r ≡ token_for 3)
    × ((submit_verification db bcrypt true (some 3) (some 123456) after).0 ≡ not_found_or_expired)
request-submit_example =
    request-submit db bcrypt test true true mocked 50 123456 10 3 123456 123456 (some 123456)
      old_code after_request requested (omega arith)
