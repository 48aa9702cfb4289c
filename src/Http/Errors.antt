-- ===== src/Http/Errors.antt =====
-- The error handler of app.js: the status that an error gives, and what is logged of the request.
use patch_proof_api.Base.{
  ℕ, Bool, false, ◌&&◌, ◌||◌, List, [], ◌∷◌, Option, none, some, if◌then◌else◌, codes, contains_i,
  starts_with_i, length, ◌==◌,
}
use patch_proof_api.Http.Express.{starts_with}

-- The classes of errors.js that the handler tells apart.
pub data AppError : Type 0 where
  conflict not_found forbidden data_inconsistency other : AppError

abbrev pub error_status : AppError → ℕ
error_status conflict = 409
error_status not_found = 404
error_status forbidden = 403
error_status data_inconsistency = 422
error_status other = 500

-- A value that is logged, or what stands for it. A value of the body is a number here, objects in
-- it too, which are logged as they are; the value of a header is text.
pub data Logged : Type 0 where
  redacted : Logged
  plain : ℕ → Logged
  text : List ℕ → Logged

-- `/^M$/i` and the like: the whole name, in any case.
abbrev is_name : List ℕ → List ℕ → Bool
is_name p name = length p == length name && starts_with_i p name

abbrev any : List Bool → Bool
any [] = false
any (b ∷ bs) = b || any bs

-- `/(password|token|secret|signature|svd|pmcHex|^M$|^jti$|^cnf$)/i.test(k)`
unfoldable pub is_secret : List ℕ → Bool
is_secret k = any (
    contains_i (codes "password") k
    ∷ contains_i (codes "token") k
    ∷ contains_i (codes "secret") k
    ∷ contains_i (codes "signature") k
    ∷ contains_i (codes "svd") k
    ∷ contains_i (codes "pmchex") k
    ∷ is_name (codes "m") k
    ∷ is_name (codes "jti") k
    ∷ is_name (codes "cnf") k
    ∷ [])

-- The properties of the body, or the headers, in their order.
abbrev pub Fields : Type 0
Fields = List (List ℕ × ℕ)

abbrev pub redact_field : List ℕ × ℕ → List ℕ × Logged
redact_field (k, v) = if is_secret k then (k, redacted) else (k, plain v)

unfoldable pub redact_body : Fields → List (List ℕ × Logged)
redact_body [] = []
redact_body (f ∷ fs) = redact_field f ∷ redact_body fs

-- `if (headers.authorization) headers.authorization = '[REDACTED]'`, and the same for the key: a
-- header that is there and empty stays as it is.
abbrev pub redact_header : Option (List ℕ) → Option Logged
redact_header none = none
redact_header (some []) = some (text [])
redact_header (some (c ∷ cs)) = some redacted

-- `req.body`: not there, an object, or another value.
pub data Body : Type 0 where
  missing : Body
  object : Fields → Body
  value : ℕ → Body

-- What the handler reads of the error and the request: the two headers that are secret, and the
-- others, and the body.
pub record Failed : Type 0 where
  pub message : ℕ
  pub stack : ℕ
  pub id : ℕ
  pub method : ℕ
  pub url : List ℕ
  pub authorization : Option (List ℕ)
  pub x_api_key : Option (List ℕ)
  pub other_headers : Fields
  pub body : Body

-- The body that is logged: `[REDACTED_SVD_BODY]`, the redacted object, or what it was.
pub data LoggedBody : Type 0 where
  svd_body missing_body : LoggedBody
  fields : List (List ℕ × Logged) → LoggedBody
  value_body : ℕ → LoggedBody

pub record LogEntry : Type 0 where
  pub error : ℕ
  pub stack : ℕ
  pub id : ℕ
  pub method : ℕ
  pub url : List ℕ
  pub authorization : Option Logged
  pub x_api_key : Option Logged
  pub other_headers : Fields
  pub body : LoggedBody

-- `if (body && typeof body === 'object')`
abbrev pub redact : Body → LoggedBody
redact missing = missing_body
redact (object fs) = fields (redact_body fs)
redact (value v) = value_body v

unfoldable pub log_entry : Failed → LogEntry
log_entry r = record {
  error = r.message;
  stack = r.stack;
  id = r.id;
  method = r.method;
  url = r.url;
  authorization = redact_header r.authorization;
  x_api_key = redact_header r.x_api_key;
  other_headers = r.other_headers;
  body = if starts_with (codes "/api/svd") r.url then svd_body else redact r.body;
}
