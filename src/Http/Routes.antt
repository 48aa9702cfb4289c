-- ===== src/Http/Routes.antt =====
-- The middleware and the routes of app.js and routes/, in the order in which they are mounted.
-- Static files and the pages of the documentation are left out: they call no handler.
use patch_proof_api.Base.{
  ℕ, ◌*◌, Bool, true, false, ◌&&◌, ◌||◌, not, List, [], ◌∷◌, Option, none, some, ltb, if◌then◌else◌,
  codes,
}
use patch_proof_api.Middleware.{
  Jwt, Decision, missing_token, invalid_svd_binding, token_expired, token_invalid, next_error,
  api_key_middleware, jwt_auth_svd,
}
use patch_proof_api.Startup.{NodeEnv, is_production, is_test}
use patch_proof_api.Http.Express.{Express, starts_with}
use patch_proof_api.Http.Errors.{other, error_status}

pub data Method : Type 0 where
  get head post delete options : Method

pub data Limiter : Type 0 where
  public_api request_verification submit_verification svd_begin svd_complete svd_canary : Limiter

pub data Schema : Type 0 where
  register_patch uid_param txid_param transfer_ownership unlock_content : Schema
  request_verification submit_verification svd_register svd_begin svd_complete : Schema

-- The handlers that requests are passed to.
pub data Handler : Type 0 where
  ping health ready signer_pubkey signer_sign svd_register svd_begin svd_complete svd_kid : Handler
  svd_canary internal_metrics request_verification submit_verification register_patch : Handler
  verify_patch transfer_ownership registration_status transfer_status unlock_content : Handler
  create_claim approve_claim claim_status export_data delete_me certificate_pdf utxo_health :
      Handler
  utxo_maintain batch_anchor metrics : Handler

pub data Guard : Type 0 where
  limited : Limiter → Guard
  cors waf json api_key api_key_in_prod jwt signer_key : Guard
  valid : Schema → Guard

-- A route, or middleware that is mounted for every path or under one and passes on what its guards
-- let through.
pub data Layer : Type 0 where
  route : Method → List ℕ → List Guard → Handler → Layer
  everywhere : List Guard → Layer
  mounted : List ℕ → List Guard → Layer

-- What is configured: the environment, the API key and that of the signer, the origins that are
-- allowed and two switches; and the libraries that verify tokens and that match paths.
pub record Config : Type 0 where
  pub express : Express
  pub node_env : NodeEnv
  pub server_key : List ℕ
  pub signer_key : List ℕ
  pub jwt : Jwt
  pub is_allowed : ℕ → Bool
  pub signer_enabled : Bool
  pub metrics_require_key : Bool

-- A request with a JSON body: its head, and what the limiters and schemas say of it. A key that is
-- missing is empty.
pub record Request : Type 0 where
  pub method : Method
  pub path : List ℕ
  pub origin : Option ℕ
  pub content_length : Option ℕ
  pub body_parses : Bool
  pub api_key : List ℕ
  pub bearer : List ℕ
  pub token : Option ℕ
  pub allows : Limiter → Bool
  pub is_valid : Schema → Bool

-- A response that is sent before any handler, or the handler that is called.
pub data Outcome : Type 0 where
  answered : ℕ → Outcome
  handled : Handler → Outcome

-- What a guard does: passes the request on, or answers it with a status.
pub data Verdict : Type 0 where
  passes : Verdict
  answers : ℕ → Verdict

abbrev passes_or : Bool → ℕ → Verdict
passes_or b status = if b then passes else answers status

abbrev pub of_jwt : Decision → Verdict
of_jwt missing_token = answers 401
of_jwt invalid_svd_binding = answers 401
of_jwt token_expired = answers 401
of_jwt token_invalid = answers 401
of_jwt next_error = answers (error_status other)
of_jwt (Decision.next _) = passes

-- `req.header('x-api-key') || bearer`
abbrev pub signer_credential : List ℕ → List ℕ → List ℕ
signer_credential [] bearer = bearer
signer_credential (c ∷ s) bearer = c ∷ s

abbrev is_oversized : Option ℕ → Bool
is_oversized none = false
is_oversized (some n) = ltb (32 * 1024) n

-- `limit: '1mb'` of `express.json`, which throws at a larger body, as it does at one that does not
-- parse; a body without a length that is too large does not parse.
abbrev pub is_over_limit : Option ℕ → Bool
is_over_limit none = false
is_over_limit (some n) = ltb (1024 * 1024) n

abbrev pub is_origin_allowed : Config → Option ℕ → Bool
is_origin_allowed c none = true
is_origin_allowed c (some o) = not (is_production c.node_env) || c.is_allowed o

-- `cors` answers the preflight requests itself.
abbrev of_cors : Bool → Method → Verdict
of_cors false method = answers (error_status other)
of_cors true get = passes
of_cors true head = passes
of_cors true post = passes
of_cors true delete = passes
of_cors true options = answers 204

-- `authed` of routes/internalSigner.route.js does what the middleware for the API key does.
unfoldable pub check : Config → Request → Guard → Verdict
check c r (limited l) = passes_or (r.allows l) 429
check c r cors = of_cors (is_origin_allowed c r.origin) r.method
check c r waf =
    if starts_with (codes "/api/svd") r.path && is_oversized r.content_length
    then answers 413
    else passes
check c r json =
    if is_over_limit r.content_length
    then answers (error_status other)
    else passes_or r.body_parses (error_status other)
check c r api_key = passes_or (api_key_middleware c.server_key r.api_key) 401
check c r api_key_in_prod =
    passes_or (is_test c.node_env || api_key_middleware c.server_key r.api_key) 401
check c r jwt = of_jwt (jwt_auth_svd c.jwt r.token)
check c r signer_key =
    passes_or (api_key_middleware c.signer_key (signer_credential r.api_key r.bearer)) 401
check c r (valid s) = passes_or (r.is_valid s) 400

abbrev pub and_then : Verdict → Verdict → Verdict
and_then passes rest = rest
and_then (answers status) rest = answers status

unfoldable pub check_all : Config → Request → List Guard → Verdict
unfolding check
check_all c r [] = passes
check_all c r (g ∷ gs) = and_then (check c r g) (check_all c r gs)

-- A route for GET answers HEAD too.
abbrev pub is_method : Method → Method → Bool
is_method get get = true
is_method get head = true
is_method post post = true
is_method delete delete = true
is_method _ _ = false

unfoldable pub is_for : Config → Request → Layer → Bool
is_for c r (route m pattern gs h) = is_method m r.method && c.express.fits pattern r.path
is_for c r (everywhere gs) = true
is_for c r (mounted prefix gs) = c.express.fits_under prefix r.path

abbrev pub after : Verdict → Outcome → Outcome
after passes rest = rest
after (answers status) rest = answered status

-- What a layer that matches does, with what the layers after it do.
abbrev pub enter : Config → Request → Layer → Outcome → Outcome
enter c r (route m pattern gs h) rest = after (check_all c r gs) (handled h)
enter c r (everywhere gs) rest = after (check_all c r gs) rest
enter c r (mounted prefix gs) rest = after (check_all c r gs) rest

unfoldable pub dispatch : Config → Request → List Layer → Outcome
unfolding check_all is_for
dispatch c r [] = answered 404
dispatch c r (l ∷ ls) =
    let rest = dispatch c r ls in if is_for c r l then enter c r l rest else rest
