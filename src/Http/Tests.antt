-- ===== src/Http/Tests.antt =====
-- Requests to the application, and the theorems at these.
use patch_proof_api.Base.{
  not, All, ℕ, ◌≡◌, refl, inr, Bool, true, false, List, [], ◌∷◌, ◌++◌, none, some, arith, codes,
  map, lower,
}
use patch_proof_api.Middleware.{Verified, api_key_middleware}
use patch_proof_api.Startup.{production}
use patch_proof_api.Http.Express.{Express, same_text, starts_with}
use patch_proof_api.Http.Routes.{
  Config, Request, Method, Handler, answered, handled, dispatch, check_all, check, is_for,
}
use patch_proof_api.Http.Table.{app, layers}
use patch_proof_api.Http.Admitted.{app-Admitted}
use patch_proof_api.Http.Waf.{login_to, case_escapes_limit}
use patch_proof_api.Http.Errors.{object, Failed, log_entry, is_secret}
use patch_proof_api.Http.Limits.{
  absent, text, LimitStore, is_counted, admitted, get_normalized_key, user_ids_escape_limit,
}
use patch_proof_api.Http.Redacted.{log_keeps_secrets}

-- A library that knows no parameters.
abbrev prefixed : List ℕ → List ℕ → Bool
prefixed p s = starts_with (map lower p) (map lower s)

prefixed-append :
    (p q s : List ℕ) → same_text (map lower (p ++ q)) (map lower s) ≡ true → prefixed p s ≡ true
prefixed-append [] q s h = refl
prefixed-append (c ∷ p) q [] h = absurd (ground arith)
prefixed-append (c ∷ p) q (d ∷ s) h = ground (arith, prefixed-append p q s)

abbrev express : Express
express = record {
  fits = λ p s. same_text (map lower p) (map lower s);
  fits_under = prefixed;
  under_law = λ p q s h. prefixed-append p (b'/' ∷ q) s h;
  plain_law = λ p s a b. refl;
}

abbrev config : Config
config = record {
  express = express;
  node_env = production;
  server_key = 1 ∷ 2 ∷ [];
  signer_key = 3 ∷ [];
  jwt = record { verify = λ t. Verified.invalid; is_hex64 = λ h. true; to_lower = λ h. h };
  is_allowed = λ o. false;
  signer_enabled = true;
  metrics_require_key = false;
}

abbrev request : Method → List ℕ → List ℕ → Request
request method path key = record {
  method = method;
  path = path;
  origin = none;
  content_length = some 10;
  body_parses = true;
  api_key = key;
  bearer = [];
  token = none;
  allows = λ l. true;
  is_valid = λ s. true;
}

abbrev anchor : Request
anchor = request Method.post (codes "/v1/Admin/batch-anchor") (1 ∷ 2 ∷ [])

anchor_handled : app config anchor ≡ handled Handler.batch_anchor
unfolding app layers dispatch check_all check is_for api_key_middleware
anchor_handled = refl

app-Admitted_example : api_key_middleware (1 ∷ 2 ∷ []) (1 ∷ 2 ∷ []) ≡ true
app-Admitted_example = app-Admitted config anchor Handler.batch_anchor anchor_handled

without_key : app config (request Method.post (codes "/v1/admin/batch-anchor") []) ≡ answered 401
unfolding app layers dispatch check_all check is_for api_key_middleware
without_key = refl

unknown_under_api : app config (request Method.get (codes "/api/none") []) ≡ answered 401
unfolding app layers dispatch check_all check is_for api_key_middleware
unknown_under_api = refl

unknown : app config (request Method.get (codes "/none") []) ≡ answered 404
unfolding app layers dispatch check_all check is_for
unknown = refl

-- A master key is registered without any credential.
register_open :
    app config (request Method.post (codes "/api/svd/register") []) ≡ handled Handler.svd_register
unfolding app layers dispatch check_all check is_for
register_open = refl

case_escapes_limit_example :
    (app config (login_to (codes "/api/svd/begin") 40000 (request Method.post [] []))
      ≡ answered 413)
    × (app config (login_to (codes "/API/svd/begin") 40000 (request Method.post [] []))
        ≡ handled Handler.svd_begin)
case_escapes_limit_example =
    case_escapes_limit config (request Method.post [] []) 40000 (refl, refl, refl, refl, refl)
      (omega arith) (omega arith)

abbrev failed : ℕ → ℕ → Failed
failed key code = record {
  message = 1;
  stack = 2;
  id = 3;
  method = 4;
  url = codes "/v1/auth";
  authorization = none;
  x_api_key = some (key ∷ []);
  other_headers = (codes "host", 5) ∷ [];
  body = object ((codes "identifier", 4) ∷ (codes "resetTOKEN", code) ∷ []);
}

log_keeps_secrets_example : log_entry (failed 1 2) ≡ log_entry (failed 3 4)
unfolding is_secret
log_keeps_secrets_example = log_keeps_secrets (failed 1 2) (failed 3 4) (
  refl,
  refl,
  refl,
  refl,
  refl,
  tt,
  tt,
  refl,
  inr (refl, (λ _. refl), (refl, (λ e. absurd (cc)), tt)),
)

-- A limiter that admits one request for a key in a window.
abbrev once : LimitStore
once = record {
  admits = λ counted k. not (is_counted k counted);
  new_law = λ counted k h. rw h refl;
}

user_ids_escape_limit_example :
    All
      (λ b. b ≡ true)
      (admitted once (codes "10.0.0.1") [] (
        map
          (λ u. record { user_id = text u; identifier = text (codes "x@y.z") })
          (codes "a" ∷ codes "b" ∷ codes "c" ∷ [])))
user_ids_escape_limit_example =
    user_ids_escape_limit once (codes "10.0.0.1") (text (codes "x@y.z")) []
      (codes "a" ∷ codes "b" ∷ codes "c" ∷ []) (refl, refl, (refl, refl, (refl, refl, tt)))

-- Without the field the second request is refused, also in other letters.
second_refused :
    admitted once (codes "10.0.0.1") [] (
      map
        (λ s. record { user_id = absent; identifier = text (codes s) })
        ("x@y.z" ∷ " X@y.z " ∷ []))
    ≡ true ∷ false ∷ []
unfolding admitted get_normalized_key
second_refused = refl
