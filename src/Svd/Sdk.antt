-- ===== src/Svd/Sdk.antt =====
-- clients/svdSdk.js: the client of the SVD endpoints. The server is a parameter: what it answers to
-- a request, and its state afterwards. Codes of errors are those that the client compares with.
use patch_proof_api.Base.{
  ℕ, zero, suc, ◌≡◌, refl, Bool, true, false, not, ◌&&◌, Option, none, some, ltb, if◌then◌else◌,
}

pub data Code : Type 0 where
  svd_expired svd_replayed : Code
  other : ℕ → Code

-- The body of an answer that is not 2xx: its fields `error` and `code`.
pub record ErrorBody : Type 0 where
  pub error : Option Code
  pub code : Option Code

-- What `fetch` gives; `unreachable` is a request that fails.
pub data Answer (A : Type 0) : Type 0 where
  answered : A → Answer A
  refused : ErrorBody → Answer A
  unreachable : Answer A

-- `SvdError` with its code, `SvdNetworkError`, and the errors of the loop itself.
pub data SdkError : Type 0 where
  svd_error : Option Code → SdkError
  network_error derivation_failure cancelled max_attempts_reached : SdkError

pub data Result (A : Type 0) : Type 0 where
  ok : A → Result A
  err : SdkError → Result A

-- `_fetchJson`: the message is the field `error` of the body, the code its field `code`.
unfoldable pub fetch_json : {A : Type 0} → Answer A → Result A
fetch_json (answered a) = ok a
fetch_json (refused b) = err (svd_error b.code)
fetch_json unreachable = err network_error

-- `e instanceof SvdError && (e.code === 'SVD_EXPIRED' || e.code === 'SVD_REPLAYED')`
abbrev pub is_retried : SdkError → Bool
is_retried (svd_error (some svd_expired)) = true
is_retried (svd_error (some svd_replayed)) = true
is_retried (svd_error (some (other _))) = false
is_retried (svd_error none) = false
is_retried network_error = false
is_retried derivation_failure = false
is_retried cancelled = false
is_retried max_attempts_reached = false

-- The endpoints, at each attempt: `begin` gives the challenge, `complete` the token.
pub record Server (S T : Type 0) : Type 0 where
  pub begin : ℕ → S → Answer ℕ × S
  pub complete : ℕ → ℕ → ℕ → S → Answer T × S
  pub kid : ℕ → S → S

-- What the client does with a challenge: the derived key and the DER signature, `none` where the
-- scalar is zero; and whether the caller has aborted before an attempt.
pub record Client : Type 0 where
  pub sign : ℕ → Option ℕ
  pub is_aborted : ℕ → Bool
  pub max_attempts : ℕ

module _ {S T : Type 0} (server : Server S T) (client : Client) where
  abbrev pub completed : Answer T × S → Result T × S
  completed (a, s) = (fetch_json a, s)

  abbrev pub signed : ℕ → ℕ → Option ℕ → S → Result T × S
  signed attempt m none s = (err derivation_failure, s)
  signed attempt m (some sig) s = completed (server.complete attempt m sig s)

  abbrev pub begun : ℕ → Result ℕ × S → Result T × S
  begun attempt (ok m, s) = signed attempt m (client.sign m) s
  begun attempt (err e, s) = (err e, s)

  -- The body of the `try` block.
  unfoldable pub try_login : ℕ → S → Result T × S
  unfolding fetch_json
  try_login attempt s = let (a, s') = server.begin attempt s in begun attempt (fetch_json a, s')

  -- The `catch` block: the key id is asked for, and the loop goes on or the error is thrown.
  abbrev pub caught : Bool → ℕ → (S → Result T × S) → Result T × S → Result T × S
  caught is_last attempt again (ok t, s) = (ok t, s)
  caught is_last attempt again (err e, s) =
      if is_retried e && not is_last
      then again (server.kid attempt s)
      else (err e, server.kid attempt s)

  -- The loop with so many attempts left.
  unfoldable pub login_from : ℕ → ℕ → S → Result T × S
  unfolding try_login
  login_from zero attempt s = (err max_attempts_reached, s)
  login_from (suc left) attempt s =
      let rest =
        caught (not (ltb 0 left)) attempt (login_from left (suc attempt)) (try_login attempt s) in
      if client.is_aborted attempt then (err cancelled, s) else rest

  unfoldable pub login : S → Result T × S
  unfolding login_from
  login s = login_from client.max_attempts 1 s

  -- An attempt whose two requests are answered ends the login.
  pub login_from-answered :
      (left attempt m sig : ℕ) (t : T) (s s1 s2 : S)
      → client.is_aborted attempt ≡ false
      → server.begin attempt s ≡ (answered m, s1)
      → client.sign m ≡ some sig
      → server.complete attempt m sig s1 ≡ (answered t, s2)
      → login_from (suc left) attempt s ≡ (ok t, s2)
  unfolding login_from try_login fetch_json
  login_from-answered left attempt m sig t s s1 s2 on b sg c = rw (on, b, sg, c) refl
