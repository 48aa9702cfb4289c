-- ===== src/Http/Waf.antt =====
-- app.js: the limit on the size of bodies under /api/svd, and a path that escapes it.
use patch_proof_api.Base.{
  ℕ, ◌*◌, ◌≡◌, ◌<◌, ◌≤◌, refl, ap, ◌∙◌, Bool, true, false, List, [], ◌∷◌, ◌++◌, some, arith, ltb,
  codes, map, lower,
}
use patch_proof_api.Http.Express.{is_plain, same_text}
use patch_proof_api.Http.Routes.{
  Config, Request, Method, post, Limiter, Schema, Handler, answered, handled, Verdict, passes,
  answers, check, check_all, is_for, after, dispatch, is_origin_allowed, Layer, route, everywhere,
  mounted, Guard, limited, cors, waf, json, valid,
}
use patch_proof_api.Http.Table.{app, layers, signer_layers, svd_layers, patch_layers, other_layers}

module _ (c : Config) (r : Request) where
  dispatch-miss :
      (l : Layer) (ls : List Layer) → is_for c r l ≡ false → dispatch c r (l ∷ ls) ≡ dispatch c r ls
  unfolding dispatch
  dispatch-miss l ls e = rw e refl

  dispatch-pass :
      (p : List ℕ) (gs : List Guard) (ls : List Layer)
      → is_for c r (mounted p gs) ≡ true
      → check_all c r gs ≡ passes
      → dispatch c r (mounted p gs ∷ ls) ≡ dispatch c r ls
  unfolding dispatch
  dispatch-pass p gs ls e h = rw e (ap (λ v. after v (dispatch c r ls)) h)

  dispatch-everywhere :
      (gs : List Guard) (ls : List Layer) (v : Verdict)
      → check_all c r gs ≡ v
      → dispatch c r (everywhere gs ∷ ls) ≡ after v (dispatch c r ls)
  unfolding dispatch is_for
  dispatch-everywhere gs ls v h = ap (λ v. after v (dispatch c r ls)) h

  dispatch-route :
      (m : Method) (p : List ℕ) (gs : List Guard) (h : Handler) (ls : List Layer)
      → is_for c r (route m p gs h) ≡ true
      → check_all c r gs ≡ passes
      → dispatch c r (route m p gs h ∷ ls) ≡ handled h
  unfolding dispatch
  dispatch-route m p gs h ls e k = rw e (ap (λ v. after v (handled h)) k)

-- The first message of a login, to a path, with a body of so many bytes.
abbrev pub login_to : List ℕ → ℕ → Request → Request
login_to path n r = record r { method = post; path = path; content_length = some n }

-- What lets it through, apart from its size.
abbrev pub IsAllowed : Config → Request → Type 0
IsAllowed c r =
    (is_origin_allowed c r.origin ≡ true)
    × (r.allows Limiter.public_api ≡ true)
    × (r.allows Limiter.svd_begin ≡ true)
    × (r.is_valid Schema.svd_begin ≡ true)
    × (r.body_parses ≡ true)

-- Both paths are that of the route, apart from case, and no other before it.
fits_begin :
    (c : Config) (path : List ℕ)
    → is_plain path ≡ true
    → same_text (codes "/api/svd/begin") (map lower path) ≡ true
    → c.express.fits (codes "/api/svd/begin") path ≡ true
fits_begin c path plain same = c.express.plain_law (codes "/api/svd/begin") path refl plain ∙ same

module _ (c : Config) (r : Request) (n : ℕ) (allowed : IsAllowed c r) (big : 32 * 1024 < n)
    (within_limit : n ≤ 1024 * 1024) where
  -- The layers after the limit on the size.
  abbrev after_limit : List Layer
  after_limit =
      everywhere (json ∷ [])
      ∷ (signer_layers c.signer_enabled
          ++ (svd_layers ++ (patch_layers ++ other_layers c.metrics_require_key)))

  -- The path comes to the limit.
  app-limit :
      (path : List ℕ)
      → c.express.fits (codes "/api/svd/begin") path ≡ true
      → app c (login_to path n r)
        ≡ dispatch c (login_to path n r) (everywhere (waf ∷ []) ∷ after_limit)
  unfolding app layers is_for check_all check
  app-limit path begin =
      let q = login_to path n r in
      dispatch-miss c q _ _ refl
      ∙ (dispatch-miss c q _ _ refl
          ∙ (dispatch-miss c q _ _ refl
              ∙ (dispatch-pass c q (codes "/api") (limited Limiter.public_api ∷ []) _
                    (c.express.under_law (codes "/api") (codes "svd/begin") path begin)
                    (rw allowed.1 refl)
                  ∙ dispatch-everywhere c q (cors ∷ []) _ passes (rw allowed.0 refl))))

  signers_missed :
      (path : List ℕ) (b : Bool) (ls : List Layer)
      → c.express.fits (codes "/internal/signer/sign") path ≡ false
      → dispatch c (login_to path n r) (signer_layers b ++ ls) ≡ dispatch c (login_to path n r) ls
  unfolding is_for
  signers_missed path false ls e = refl
  signers_missed path true ls e =
      dispatch-miss c (login_to path n r) _ _ refl ∙ dispatch-miss c (login_to path n r) _ _ e

  json_passes : (path : List ℕ) → check_all c (login_to path n r) (json ∷ []) ≡ passes
  unfolding check_all check
  json_passes path = rw (fits_limit, allowed.4) refl
    where
      fits_limit : ltb (1024 * 1024) n ≡ false
      fits_limit = ground arith

  -- From the limit to the handler.
  limit-handled :
      (path : List ℕ)
      → c.express.fits (codes "/api/svd/begin") path ≡ true
      → c.express.fits (codes "/internal/signer/sign") path ≡ false
      → c.express.fits (codes "/api/svd/register") path ≡ false
      → dispatch c (login_to path n r) after_limit ≡ handled Handler.svd_begin
  unfolding is_for check_all check
  limit-handled path begin sign register =
      let q = login_to path n r in
      dispatch-everywhere c q (json ∷ []) _ passes (json_passes path)
      ∙ (signers_missed path c.signer_enabled _ sign
          ∙ (dispatch-miss c q _ _ register
              ∙ dispatch-route c q post (codes "/api/svd/begin")
                  (limited Limiter.svd_begin ∷ valid Schema.svd_begin ∷ []) Handler.svd_begin _
                  begin (rw (allowed.2, allowed.3) refl)))

  -- A body of more than 32 KiB and at most 1 MiB, that parses, is answered with 413 at
  -- /api/svd/begin; the same request to /API/svd/begin reaches the handler, since the limit
  -- compares the path with regard to case and the routes do not; the limiters, the schema and the
  -- check of the origin let both through.
  pub case_escapes_limit :
      (app c (login_to (codes "/api/svd/begin") n r) ≡ answered 413)
      × (app c (login_to (codes "/API/svd/begin") n r) ≡ handled Handler.svd_begin)
  unfolding check_all check
  case_escapes_limit = (
    app-limit (codes "/api/svd/begin") (fits_begin c (codes "/api/svd/begin") refl refl)
        ∙ dispatch-everywhere c (login_to (codes "/api/svd/begin") n r) (waf ∷ []) after_limit
            (answers 413) (rw oversized refl),
    app-limit (codes "/API/svd/begin") begin
        ∙ (dispatch-everywhere c (login_to (codes "/API/svd/begin") n r) (waf ∷ []) after_limit
              passes refl
            ∙ limit-handled (codes "/API/svd/begin") begin
                (c.express.plain_law (codes "/internal/signer/sign") (codes "/API/svd/begin") refl
                  refl)
                (c.express.plain_law (codes "/api/svd/register") (codes "/API/svd/begin") refl
                  refl)),
  )
    where
      begin : c.express.fits (codes "/api/svd/begin") (codes "/API/svd/begin") ≡ true
      begin = fits_begin c (codes "/API/svd/begin") refl refl

      oversized : ltb (32 * 1024) n ≡ true
      oversized = ground arith
