-- ===== src/Http/Redacted.antt =====
-- app.js: what the log of an error tells of the request.
use patch_proof_api.Base.{
  ℕ, ◌≡◌, ◌⊎◌, refl, sym, subst, ap, true, false, List, [], ◌∷◌, Option, none, some, codes,
  if◌then◌else◌, Bool-cases, inl, inr,
}
use patch_proof_api.Http.Express.{starts_with}
use patch_proof_api.Http.Errors.{
  is_secret, Fields, redact_body, redact_header, Body, missing, object, value, Failed, LoggedBody,
  LogEntry, Logged, svd_body, fields, redact, log_entry,
}

-- Two bodies with the same names in the same order, which differ in the values of secret names
-- alone.
abbrev pub AgreeInPublic : Fields → Fields → Type 0
AgreeInPublic [] [] = Unit
AgreeInPublic [] (g ∷ gs) = ⊥
AgreeInPublic (f ∷ fs) [] = ⊥
AgreeInPublic ((k, v) ∷ fs) ((k', v') ∷ gs) =
    (k ≡ k') × (is_secret k ≡ false → v ≡ v') × AgreeInPublic fs gs

redact_body-agree : (fs gs : Fields) → AgreeInPublic fs gs → redact_body fs ≡ redact_body gs
unfolding redact_body
redact_body-agree [] [] h = refl
redact_body-agree [] (g ∷ gs) h = absurd h
redact_body-agree (f ∷ fs) [] h = absurd h
redact_body-agree ((k, v) ∷ fs) ((k', v') ∷ gs) (same, public, rest) =
    elim (Bool-cases (is_secret k)) [
      | inl secret ↦ rw (sym same, secret, redact_body-agree fs gs rest) refl
      | inr shown ↦ rw (sym same, shown, public shown, redact_body-agree fs gs rest) refl
    ]

-- Headers that are missing, empty or filled alike.
abbrev pub HeadersAlike : Option (List ℕ) → Option (List ℕ) → Type 0
HeadersAlike none none = Unit
HeadersAlike none (some q) = ⊥
HeadersAlike (some p) none = ⊥
HeadersAlike (some []) (some []) = Unit
HeadersAlike (some []) (some (d ∷ ds)) = ⊥
HeadersAlike (some (c ∷ cs)) (some []) = ⊥
HeadersAlike (some (c ∷ cs)) (some (d ∷ ds)) = Unit

-- Objects that agree in public, or bodies that are the same.
abbrev pub BodiesAlike : Body → Body → Type 0
BodiesAlike missing b = missing ≡ b
BodiesAlike (value v) b = value v ≡ b
BodiesAlike (object fs) missing = ⊥
BodiesAlike (object fs) (value v) = ⊥
BodiesAlike (object fs) (object gs) = AgreeInPublic fs gs

-- Two failures that an observer of the log may not tell apart: the same error, identity, method,
-- address and other headers, the two secret headers missing, empty or filled alike, and bodies that
-- agree in public, or any bodies under /api/svd.
abbrev pub LooksAlike : Failed → Failed → Type 0
LooksAlike r q =
    (r.message ≡ q.message)
    × (r.stack ≡ q.stack)
    × (r.id ≡ q.id)
    × (r.method ≡ q.method)
    × (r.url ≡ q.url)
    × HeadersAlike r.authorization q.authorization
    × HeadersAlike r.x_api_key q.x_api_key
    × (r.other_headers ≡ q.other_headers)
    × ((starts_with (codes "/api/svd") r.url ≡ true) ⊎ BodiesAlike r.body q.body)

redact_header-agree : (o p : Option (List ℕ)) → HeadersAlike o p → redact_header o ≡ redact_header p
redact_header-agree none none e = refl
redact_header-agree none (some q) e = absurd e
redact_header-agree (some p) none e = absurd e
redact_header-agree (some []) (some []) e = refl
redact_header-agree (some []) (some (d ∷ ds)) e = absurd e
redact_header-agree (some (c ∷ cs)) (some []) e = absurd e
redact_header-agree (some (c ∷ cs)) (some (d ∷ ds)) e = refl

redact-agree : (b b' : Body) → BodiesAlike b b' → redact b ≡ redact b'
redact-agree missing b' h = ap redact h
redact-agree (value v) b' h = ap redact h
redact-agree (object fs) missing h = absurd h
redact-agree (object fs) (value v) h = absurd h
redact-agree (object fs) (object gs) h = ap fields (redact_body-agree fs gs h)

-- The entry that is logged, by its parts.
abbrev entry_of : Failed → List ℕ → Option Logged → Option Logged → LoggedBody → LogEntry
entry_of q url authorization x_api_key body = record {
  error = q.message;
  stack = q.stack;
  id = q.id;
  method = q.method;
  url = url;
  authorization = authorization;
  x_api_key = x_api_key;
  other_headers = q.other_headers;
  body = body;
}

-- The log keeps secrets: two failures with the same error, address and other headers, whose
-- requests differ only in the values of the two secret headers, where these are filled, in those of
-- the body's own fields with a secret name and, under /api/svd, in the body as a whole are logged
-- alike.
pub log_keeps_secrets : (r q : Failed) → LooksAlike r q → log_entry r ≡ log_entry q
unfolding log_entry
log_keeps_secrets r q (message, stack, id, method, url, auth, key, others, body) =
    rw
      (
        message,
        stack,
        id,
        method,
        url,
        others,
        redact_header-agree r.authorization q.authorization auth,
        redact_header-agree r.x_api_key q.x_api_key key,
      )
      (ap (entry_of q q.url (redact_header q.authorization) (redact_header q.x_api_key))
        (logged body))
  where
    logged :
        (starts_with (codes "/api/svd") r.url ≡ true) ⊎ BodiesAlike r.body q.body
        → (if starts_with (codes "/api/svd") q.url then svd_body else redact r.body)
          ≡ (if starts_with (codes "/api/svd") q.url then svd_body else redact q.body)
    logged (inl svd) = rw (subst (λ u. starts_with (codes "/api/svd") u ≡ true) url svd) refl
    logged (inr alike) = rw (redact-agree r.body q.body alike) refl
