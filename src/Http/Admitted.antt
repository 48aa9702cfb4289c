-- ===== src/Http/Admitted.antt =====
-- app.js: a handler is reached only with the credential that it wants, over the table of routes.
use patch_proof_api.Base.{
  ◌≡◌, refl, Bool, true, false, ◌&&◌, List, [], ◌∷◌, ◌++◌, codes, if◌then◌else◌, arith, inl, inr,
}
use patch_proof_api.Http.Routes.{
  Config, Request, Layer, api_key, Handler, handled, passes, check_all, is_for, is_method, get,
}
use patch_proof_api.Http.Table.{
  layers, app, early_layers, signer_layers, svd_layers, patch_layers, other_layers,
}
use patch_proof_api.Http.Access.{
  Admitted, first-Found, AllSound, AllSound-append, passing, dispatch-Admitted,
}

module _ (c : Config) (r : Request) where
  early-AllSound : AllSound c r early_layers
  early-AllSound = ((λ fits d. tt), ((λ fits d. tt), ((λ fits d. tt), passing c r tt)))

  signer-AllSound : (b : Bool) → c.signer_enabled ≡ b → AllSound c r (signer_layers b)
  signer-AllSound false e = tt
  signer-AllSound true e =
      ((λ fits d. (e, first-Found c r _ _ d)), ((λ fits d. (e, first-Found c r _ _ d)), tt))

  -- The path of the canary is one under /api.
  canary_under_api :
      (b : Bool)
      → c.express.fits_under (codes "/api") r.path ≡ false
      → (b && c.express.fits (codes "/api/svd/canary") r.path) ≡ true
      → ⊥
  canary_under_api b e h =
      let under =
        c.express.under_law (codes "/api") (codes "svd/canary") r.path
          (right b (c.express.fits (codes "/api/svd/canary") r.path) h) in
      cc
    where
      right : (x y : Bool) → (x && y) ≡ true → y ≡ true
      right x y h = ground arith

  svd-AllSound : AllSound c r svd_layers
  unfolding is_for
  svd-AllSound = (
    (λ fits d. tt),
    (
      (λ fits d. first-Found c r _ _ d),
      (
        (λ fits d. first-Found c r _ _ d),
        (
          (λ fits d. tt),
          (
            (λ under key.
                ((λ fits d. first-Found c r _ _ key), ((λ fits d. first-Found c r _ _ d), tt))),
            (λ not. (
              (λ fits d. absurd (canary_under_api (is_method get r.method) not fits)),
              ((λ fits d. first-Found c r _ _ d), tt),
            )),
          ),
        ),
      ),
    ),
  )

  patch-AllSound : AllSound c r patch_layers
  patch-AllSound = (
    (λ fits d. first-Found c r _ _ d),
    (
      (λ fits d. first-Found c r _ _ d),
      (
        (λ fits d. first-Found c r _ _ d),
        (
          (λ fits d. tt),
          (
            (λ fits d. first-Found c r _ _ d),
            ((λ fits d. tt), ((λ fits d. tt), ((λ fits d. first-Found c r _ _ d), tt))),
          ),
        ),
      ),
    ),
  )

  metrics-Admitted :
      (b : Bool)
      → c.metrics_require_key ≡ b
      → check_all c r (if b then api_key ∷ [] else []) ≡ passes
      → Admitted c r Handler.metrics
  metrics-Admitted false e d = inl e
  metrics-Admitted true e d = inr (first-Found c r _ _ d)

  other-AllSound : AllSound c r (other_layers c.metrics_require_key)
  other-AllSound = (
    (λ fits d. tt),
    (
      (λ fits d. first-Found c r _ _ d),
      (
        (λ fits d. tt),
        (
          (λ fits d. first-Found c r _ _ d),
          (
            (λ fits d. first-Found c r _ _ d),
            (
              (λ fits d. tt),
              (
                (λ fits d. first-Found c r _ _ d),
                (
                  (λ fits d. first-Found c r _ _ d),
                  (
                    (λ fits d. first-Found c r _ _ d),
                    ((λ fits d. metrics-Admitted c.metrics_require_key refl d), tt),
                  ),
                ),
              ),
            ),
          ),
        ),
      ),
    ),
  )

  -- A request reaches a handler only with the credential that this handler wants: the API key for
  -- the administration, the approval of claims, the release of content and, outside of tests, the
  -- registration of patches; a verified token for a transfer; the key of the signer for signatures;
  -- and for a login or a code the leave of its limiter.
  pub app-Admitted : (h : Handler) → app c r ≡ handled h → Admitted c r h
  unfolding app layers
  app-Admitted h e =
      dispatch-Admitted c r (layers c) h
        (AllSound-append c r early_layers (signer_layers c.signer_enabled ++ served) early-AllSound
          (AllSound-append c r (signer_layers c.signer_enabled) served
            (signer-AllSound c.signer_enabled refl)
            (AllSound-append c r svd_layers (patch_layers ++ other_layers c.metrics_require_key)
              svd-AllSound
              (AllSound-append c r patch_layers (other_layers c.metrics_require_key) patch-AllSound
                other-AllSound))))
        e
    where
      served : List Layer
      served = svd_layers ++ (patch_layers ++ other_layers c.metrics_require_key)
