-- ===== src/Http/Access.antt =====
-- app.js: what the guards of the routes find, and what a request that is passed on has shown.
use patch_proof_api.Base.{
  ◌≡◌, ◌⊎◌, refl, subst, true, false, List, [], ◌∷◌, ◌++◌, arith, Bool-cases, inl, inr,
}
use patch_proof_api.Middleware.{Decision, Auth, api_key_middleware, jwt_auth_svd}
use patch_proof_api.Startup.{is_test}
use patch_proof_api.Http.Routes.{
  Config, Request, Layer, route, everywhere, mounted, Guard, limited, cors, waf, json, api_key,
  api_key_in_prod, jwt, signer_key, valid, Limiter, Handler, Outcome, handled, Verdict, passes,
  answers, check, check_all, signer_credential, of_jwt, after, and_then, is_for, dispatch,
}

module _ (c : Config) (r : Request) where
  abbrev pub HasKey : Type 0
  HasKey = api_key_middleware c.server_key r.api_key ≡ true

  abbrev pub HasToken : Type 0
  HasToken = (a : Auth) × (jwt_auth_svd c.jwt r.token ≡ Decision.next a)

  abbrev pub HasSignerKey : Type 0
  HasSignerKey =
      (c.signer_enabled ≡ true)
      × (api_key_middleware c.signer_key (signer_credential r.api_key r.bearer) ≡ true)

  -- The credential that a handler wants; the handlers of the last lines are open to everyone.
  abbrev pub Admitted : Handler → Type 0
  Admitted Handler.unlock_content = HasKey
  Admitted Handler.approve_claim = HasKey
  Admitted Handler.utxo_health = HasKey
  Admitted Handler.utxo_maintain = HasKey
  Admitted Handler.batch_anchor = HasKey
  Admitted Handler.svd_canary = HasKey
  Admitted Handler.internal_metrics = HasKey
  Admitted Handler.register_patch = (is_test c.node_env ≡ true) ⊎ HasKey
  Admitted Handler.metrics = (c.metrics_require_key ≡ false) ⊎ HasKey
  Admitted Handler.transfer_ownership = HasToken
  Admitted Handler.export_data = HasToken
  Admitted Handler.delete_me = HasToken
  Admitted Handler.signer_pubkey = HasSignerKey
  Admitted Handler.signer_sign = HasSignerKey
  Admitted Handler.request_verification = r.allows Limiter.request_verification ≡ true
  Admitted Handler.submit_verification = r.allows Limiter.submit_verification ≡ true
  Admitted Handler.svd_begin = r.allows Limiter.svd_begin ≡ true
  Admitted Handler.svd_complete = r.allows Limiter.svd_complete ≡ true
  Admitted _ = Unit

  -- What a guard that passes the request on has found.
  abbrev pub Found : Guard → Type 0
  Found (limited l) = r.allows l ≡ true
  Found cors = Unit
  Found waf = Unit
  Found json = Unit
  Found api_key = HasKey
  Found api_key_in_prod = (is_test c.node_env ≡ true) ⊎ HasKey
  Found jwt = HasToken
  Found signer_key = api_key_middleware c.signer_key (signer_credential r.api_key r.bearer) ≡ true
  Found (valid s) = r.is_valid s ≡ true

  of_jwt-passes : (d : Decision) → of_jwt d ≡ passes → (a : Auth) × (d ≡ Decision.next a)
  of_jwt-passes (Decision.next a) e = (a, refl)
  of_jwt-passes Decision.missing_token e = absurd (cc)
  of_jwt-passes Decision.invalid_svd_binding e = absurd (cc)
  of_jwt-passes Decision.token_expired e = absurd (cc)
  of_jwt-passes Decision.token_invalid e = absurd (cc)
  of_jwt-passes Decision.next_error e = absurd (cc)

  check-Found : (g : Guard) → check c r g ≡ passes → Found g
  unfolding check
  check-Found (limited l) e = ground arith
  check-Found cors e = tt
  check-Found waf e = tt
  check-Found json e = tt
  check-Found api_key e = ground arith
  check-Found api_key_in_prod e = elim (Bool-cases (is_test c.node_env)) [
    | inl test ↦ inl test
    | inr live ↦ inr (ground arith)
  ]
  check-Found jwt e = of_jwt-passes (jwt_auth_svd c.jwt r.token) e
  check-Found signer_key e = ground arith
  check-Found (valid s) e = ground arith

  pub first-Found : (g : Guard) (gs : List Guard) → check_all c r (g ∷ gs) ≡ passes → Found g
  unfolding check_all
  first-Found g gs e = at (check c r g) refl e
    where
      at : (v : Verdict) → check c r g ≡ v → and_then v (check_all c r gs) ≡ passes → Found g
      at passes d e = check-Found g d
      at (answers status) d e = absurd (cc)

  same : (h h' : Handler) → handled h ≡ handled h' → h ≡ h'
  same h h' e = cc

  -- The guards of a route, and of the middleware that is mounted before it, let through only who
  -- has what its handler wants.
  abbrev pub AllSound : List Layer → Type 0
  AllSound [] = Unit
  AllSound (route m pattern gs h ∷ ls) =
      (is_for c r (route m pattern gs h) ≡ true → check_all c r gs ≡ passes → Admitted h)
      × AllSound ls
  AllSound (everywhere gs ∷ ls) = AllSound ls
  AllSound (mounted prefix gs ∷ ls) =
      (is_for c r (mounted prefix gs) ≡ true → check_all c r gs ≡ passes → AllSound ls)
      × (is_for c r (mounted prefix gs) ≡ false → AllSound ls)

  pub AllSound-append : (ls ms : List Layer) → AllSound ls → AllSound ms → AllSound (ls ++ ms)
  AllSound-append [] ms s t = t
  AllSound-append (route m pattern gs h ∷ ls) ms s t = (s.0, AllSound-append ls ms s.1 t)
  AllSound-append (everywhere gs ∷ ls) ms s t = AllSound-append ls ms s t
  AllSound-append (mounted prefix gs ∷ ls) ms s t =
      ((λ fits d. AllSound-append ls ms (s.0 fits d) t), (λ not. AllSound-append ls ms (s.1 not) t))

  -- Middleware that asks for nothing that a handler wants.
  pub passing : {P Q R K : Type 0} → K → (P → Q → K) × (R → K)
  passing k = ((λ fits d. k), (λ not. k))

  after-handled :
      (v : Verdict) (rest : Outcome) (h : Handler)
      → after v rest ≡ handled h
      → (v ≡ passes) × (rest ≡ handled h)
  after-handled passes rest h e = (refl, e)
  after-handled (answers status) rest h e = absurd (cc)

  pub dispatch-Admitted :
      (ls : List Layer) (h : Handler) → AllSound ls → dispatch c r ls ≡ handled h → Admitted h
  unfolding dispatch
  dispatch-Admitted [] h s e = absurd (cc)
  dispatch-Admitted (route m pattern gs h' ∷ ls) h s e =
      elim (Bool-cases (is_for c r (route m pattern gs h'))) [
        | inr miss ↦ dispatch-Admitted ls h s.1 (ground arith)
        | inl hit ↦
            let (d, e') = after-handled (check_all c r gs) (handled h') h (ground arith) in
            subst Admitted (same h' h e') (s.0 hit d)
      ]
  dispatch-Admitted (everywhere gs ∷ ls) h s e =
      let (d, rest) = after-handled (check_all c r gs) (dispatch c r ls) h (ground arith) in
      dispatch-Admitted ls h s rest
  dispatch-Admitted (mounted prefix gs ∷ ls) h s e =
      elim (Bool-cases (is_for c r (mounted prefix gs))) [
        | inr miss ↦ dispatch-Admitted ls h (s.1 miss) (ground arith)
        | inl hit ↦
            let (d, rest) = after-handled (check_all c r gs) (dispatch c r ls) h (ground arith) in
            dispatch-Admitted ls h (s.0 hit d) rest
      ]
