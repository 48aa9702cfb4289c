-- ===== src/Startup/Production.antt =====
-- app.js: when the server starts, and what has then been checked in production.
use mathlib.Core.List.{append-nil, append_assoc}
use patch_proof_api.Base.{
  ℕ, ◌≡◌, ◌≢◌, ◌↔◌, refl, sym, ap, subst, ◌∙◌, Bool, true, false, ◌||◌, List, [], ◌∷◌, ◌++◌, Option,
  none, some, arith, All, Bool-cases, inl, inr, if◌then◌else◌, elem,
}
use patch_proof_api.Startup.Urls.{has_auth_in_mongo_uri, has_password_escaped, no_backslash}
use patch_proof_api.Startup.{
  production, is_production, Init, returns, throws, exits, Stage, secrets, database, replay_cache,
  svd, self_test, utxo, Policy, hard_in_production, hard, World, SecretName, required_secrets,
  has_secret, has_all, connect_to, init_cache_at, validate_required_secrets, init_db, init_cache,
  init_svd, init_utxo, use_kms, steps, is_fatal, started, run_steps, start_server,
}

-- A step with which start-up goes on.
abbrev pub GoesOn : Bool → Stage × Policy × Init → Type 0
GoesOn live (st, policy, returns) = Unit
GoesOn live (st, policy, throws) = is_fatal live policy ≡ false
GoesOn live (st, policy, exits) = ⊥

-- The steps that returned.
abbrev pub returned : List (Stage × Policy × Init) → List Stage
returned [] = []
returned ((st, policy, returns) ∷ r) = st ∷ returned r
returned ((st, policy, throws) ∷ r) = returned r
returned ((st, policy, exits) ∷ r) = returned r

run_steps-started :
    (live : Bool) (ss : List (Stage × Policy × Init)) (flags f : List Stage)
    → run_steps live ss flags ≡ started f
    → All (GoesOn live) ss × (f ≡ flags ++ returned ss)
unfolding run_steps
run_steps-started live [] flags f e = (tt, ground (arith, append-nil flags))
run_steps-started live ((st, policy, returns) ∷ r) flags f e =
    let (a, b) = run_steps-started live r (flags ++ st ∷ []) f e in
    ((tt, a), b ∙ append_assoc flags (st ∷ []) (returned r))
run_steps-started live ((st, policy, exits) ∷ r) flags f e = absurd (cc)
run_steps-started live ((st, policy, throws) ∷ r) flags f e =
    elim (Bool-cases (is_fatal live policy)) [
      | inl fatal ↦ absurd (ground arith)
      | inr mild ↦ let (a, b) = run_steps-started live r flags f (ground arith) in ((mild, a), b)
    ]

started-run_steps :
    (live : Bool) (ss : List (Stage × Policy × Init)) (flags : List Stage)
    → All (GoesOn live) ss
    → run_steps live ss flags ≡ started (flags ++ returned ss)
unfolding run_steps
started-run_steps live [] flags h = ap started (sym (append-nil flags))
started-run_steps live ((st, policy, returns) ∷ r) flags h =
    started-run_steps live r (flags ++ st ∷ []) h.1
    ∙ ap started (append_assoc flags (st ∷ []) (returned r))
started-run_steps live ((st, policy, exits) ∷ r) flags h = absurd (h.0)
started-run_steps live ((st, policy, throws) ∷ r) flags h =
    rw (h.0) (started-run_steps live r flags h.1)

-- The server starts exactly if no step ends the process and no step throws whose error is fatal;
-- it then holds exactly the steps that returned as ready.
start_server_iff :
    (w : World) (flags : List Stage)
    → (start_server w ≡ started flags)
      ↔ (All (GoesOn (is_production w.node_env)) (steps w) × (flags ≡ returned (steps w)))
unfolding start_server
start_server_iff w flags = (
  (λ e. run_steps-started (is_production w.node_env) (steps w) [] flags e),
  λ h. started-run_steps (is_production w.node_env) (steps w) [] h.0 ∙ ap started (sym h.1),
)

-- What a server that starts in production has been given.
abbrev pub IsSafe : World → Type 0
IsSafe w =
    All (λ n. has_secret w n ≡ true) required_secrets
    × ((uri : List ℕ) × (w.mongodb_uri ≡ some uri) × (has_auth_in_mongo_uri uri ≡ true))
    × ((url : List ℕ) × (w.redis_url ≡ some url)
        × ((has_password_escaped url || w.has_redis_password) ≡ true))
    × (w.has_jwt_secret ≡ true)
    × (use_kms w ≡ true)
    × (w.self_test_passes ≡ true)
    × (w.has_funding ≡ true)

must_return :
    (st : Stage) (policy : Policy) (i : Init)
    → is_fatal true policy ≡ true
    → GoesOn true (st, policy, i)
    → i ≡ returns
must_return st policy returns fatal h = refl
must_return st policy throws fatal h = absurd (cc)
must_return st policy exits fatal h = absurd h

module _ (w : World) (live : w.node_env ≡ production) where
  has_all-All : (ns : List SecretName) → has_all w ns ≡ true → All (λ n. has_secret w n ≡ true) ns
  has_all-All [] h = tt
  has_all-All (n ∷ ns) h = (ground arith, has_all-All ns (ground arith))

  secrets_loaded :
      validate_required_secrets w ≡ returns → All (λ n. has_secret w n ≡ true) required_secrets
  unfolding validate_required_secrets
  secrets_loaded h = has_all-All required_secrets (all_found (has_all w required_secrets) h)
    where
      all_found :
          (b : Bool)
          → (if b then returns else if is_production w.node_env then exits else returns) ≡ returns
          → b ≡ true
      all_found true h = refl
      all_found false h = absurd (ground arith)

  uri_has_auth :
      init_db w ≡ returns
      → (uri : List ℕ) × (w.mongodb_uri ≡ some uri) × (has_auth_in_mongo_uri uri ≡ true)
  unfolding init_db
  uri_has_auth h = at w.mongodb_uri refl h
    where
      at :
          (o : Option (List ℕ))
          → w.mongodb_uri ≡ o
          → connect_to w o ≡ returns
          → (uri : List ℕ) × (w.mongodb_uri ≡ some uri) × (has_auth_in_mongo_uri uri ≡ true)
      at none e h = absurd (ground arith)
      at (some uri) e h = (uri, e, ground arith)

  url_has_password :
      init_cache w ≡ returns
      → (url : List ℕ) × (w.redis_url ≡ some url)
        × ((has_password_escaped url || w.has_redis_password) ≡ true)
  unfolding init_cache
  url_has_password h = at w.redis_url refl h
    where
      at :
          (o : Option (List ℕ))
          → w.redis_url ≡ o
          → init_cache_at w o ≡ returns
          → (url : List ℕ) × (w.redis_url ≡ some url)
            × ((has_password_escaped url || w.has_redis_password) ≡ true)
      at none e h = absurd (ground arith)
      at (some url) e h = (url, e, ground arith)

  svd_is_keyed : init_svd w ≡ returns → (w.has_jwt_secret ≡ true) × (use_kms w ≡ true)
  unfolding init_svd
  svd_is_keyed h = (ground arith, ground arith)

  is_funded : init_utxo w ≡ returns → w.has_funding ≡ true
  unfolding init_utxo
  is_funded h = ground arith

  steps-IsSafe : All (GoesOn true) (steps w) → IsSafe w
  unfolding steps
  steps-IsSafe h =
      let (jwt, kms) =
        svd_is_keyed (must_return svd hard_in_production (init_svd w) refl h.1.1.1.1.1.1.1.0) in
      (
        secrets_loaded (must_return secrets hard (validate_required_secrets w) refl h.0),
        uri_has_auth (must_return database hard (init_db w) refl h.1.0),
        url_has_password
            (must_return replay_cache hard_in_production (init_cache w) refl h.1.1.1.1.0),
        jwt,
        kms,
        passes (
            must_return self_test hard (if w.self_test_passes then returns else throws) refl
              h.1.1.1.1.1.1.1.1.1.0),
        is_funded
            (must_return utxo hard_in_production (init_utxo w) refl h.1.1.1.1.1.1.1.1.1.1.1.1.0),
      )
    where
      passes :
          (if w.self_test_passes then returns else throws) ≡ returns → w.self_test_passes ≡ true
      passes e = ground arith

  -- A server that starts in production has every secret that `SECRET_MAP` requires, those for the
  -- database, Redis, the JWT and the KMS among them; its database URI satisfies the test for
  -- credentials, and its Redis URL satisfies the test for a password of the SVD caches or
  -- REDIS_PASSWORD is set; the KMS is to be used, because SVD_USE_KMS says so or KMS_SIGN_URL is
  -- not `mock`; the self-test passed, and there is a funding address.
  pub production_start-IsSafe : (flags : List Stage) → start_server w ≡ started flags → IsSafe w
  production_start-IsSafe flags e = steps-IsSafe (
      subst (λ b. All (GoesOn b) (steps w)) (ap is_production live)
        ((start_server_iff w flags).0 e).0)

  -- In production the server does not start with a password that stands in the URL of Redis alone,
  -- where nothing in the URL is a backslash.
  pub start_refused :
      (flags : List Stage) (url : List ℕ)
      → w.redis_url ≡ some url
      → w.has_redis_password ≡ false
      → elem 92 url ≡ false
      → start_server w ≢ started flags
  unfolding has_password_escaped
  start_refused flags url u no_password plain e =
      let (url', u', ok) = (production_start-IsSafe flags e).2 in
      absurd (cc (sym (refused url' (same url' (sym u' ∙ u))) ∙ ok))
    where
      same : (x : List ℕ) → some x ≡ some url → x ≡ url
      same x q = cc

      refused : (x : List ℕ) → x ≡ url → (has_password_escaped x || w.has_redis_password) ≡ false
      refused x q = rw (q, no_password, no_backslash url plain) (ground arith)
