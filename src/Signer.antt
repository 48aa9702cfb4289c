-- ===== src/Signer.antt =====
-- routes/internalSigner.route.js: a signer on the host itself, which stands in for the KMS. The
-- signature of a hash by the key that it holds is a parameter.
pub mod Batch
pub mod Built
pub mod Tests
use patch_proof_api.Base.{
  ℕ, Bool, true, false, List, [], ◌∷◌, Option, none, some, if◌then◌else◌, keep,
}
use patch_proof_api.Middleware.{api_key_middleware}
use patch_proof_api.Retry.{Failure, status, Response, answer, fails}
use patch_proof_api.Transactions.{Signature, SigningHash}

-- `/^[0-9a-fA-F]{64}$/.test`, and `ECDSA.sign` with the key, `none` where it throws.
pub record Signer : Type 0 where
  pub is_hash : ℕ → Bool
  pub sign : ℕ → Option Signature

-- The body of POST /sign: requests, each with a hash or not, or one hash, or neither.
pub data Body : Type 0 where
  requests : List (Option ℕ) → Body
  hash_hex : ℕ → Body
  neither : Body

pub data Answer : Type 0 where
  unauthorized bad_request failed : Answer
  signatures : List Signature → Answer

module _ (s : Signer) where
  -- `toSign`: what is not a hash is left out.
  unfoldable pub to_sign : List (Option ℕ) → List ℕ
  to_sign [] = []
  to_sign (none ∷ rs) = to_sign rs
  to_sign (some h ∷ rs) = if s.is_hash h then h ∷ to_sign rs else to_sign rs

  abbrev pub hashes_of : Body → List ℕ
  hashes_of (requests rs) = to_sign rs
  hashes_of (hash_hex h) = if s.is_hash h then h ∷ [] else []
  hashes_of neither = []

  abbrev pub with_signature : Option Signature → Option (List Signature) → Option (List Signature)
  with_signature none rest = none
  with_signature (some g) none = none
  with_signature (some g) (some gs) = some (g ∷ gs)

  unfoldable pub sign_all : List ℕ → Option (List Signature)
  sign_all [] = some []
  sign_all (h ∷ hs) = with_signature (s.sign h) (sign_all hs)

  abbrev pub of_signed : Option (List Signature) → Answer
  of_signed none = failed
  of_signed (some gs) = signatures gs

  abbrev pub sign_hashes : List ℕ → Answer
  sign_hashes [] = bad_request
  sign_hashes (h ∷ hs) = of_signed (sign_all (h ∷ hs))

  -- POST /sign, with the key of the server and that of the caller.
  unfoldable pub sign_route : List ℕ → List ℕ → Body → Answer
  unfolding to_sign sign_all
  sign_route want got body =
      if api_key_middleware want got then sign_hashes (hashes_of body) else unauthorized

-- What the client of the KMS makes of an answer.
abbrev pub response_of : Answer → Response (List Signature)
response_of unauthorized = fails (status 401)
response_of bad_request = fails (status 400)
response_of failed = fails (status 500)
response_of (signatures gs) = answer gs
