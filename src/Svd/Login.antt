-- ===== src/Svd/Login.antt =====
-- clients/svdSdk.js against routes/svdAuth.js and services/svdService.js: a whole login. Requests
-- are taken to pass the rate limits and the validation of their bodies.
use patch_proof_api.Base.{
  ℕ, suc, ◌≡◌, refl, ap, Bool, false, not, List, Option, none, some, ltb, if◌then◌else◌,
}
use patch_proof_api.Mongo.{Collection}
use patch_proof_api.Redis.{Redis}
use patch_proof_api.Svd.{
  Registration, SvdError, not_ready, server_key_missing, no_pmc, replayed, expired, bad_challenge,
  malformed_signature, non_canonical, invalid_signature, derivation_failed, cache_not_ready,
  invalid_pmc, Token, Crypto, Service, begin, complete, jti_key,
}
use patch_proof_api.Svd.Sdk.{
  Code, svd_expired, svd_replayed, other, ErrorBody, Answer, answered, refused, unreachable,
  SdkError, svd_error, Result, ok, err, Server, Client, login_from-answered, login, login_from,
  try_login, is_retried, caught, fetch_json, signed, begun, completed,
}

-- The bodies of routes/svdAuth.js and of the error handler: an SVD error is named in the field
-- `error`, and no body has a field `code`.
abbrev pub body_of : SvdError → ErrorBody
body_of replayed = record { error = some svd_replayed; code = none }
body_of expired = record { error = some svd_expired; code = none }
body_of bad_challenge = record { error = some (other 400); code = none }
body_of no_pmc = record { error = some (other 400); code = none }
body_of non_canonical = record { error = some (other 401); code = none }
body_of invalid_signature = record { error = some (other 401); code = none }
body_of not_ready = record { error = some (other 500); code = none }
body_of server_key_missing = record { error = some (other 500); code = none }
body_of malformed_signature = record { error = some (other 500); code = none }
body_of derivation_failed = record { error = some (other 500); code = none }
body_of cache_not_ready = record { error = some (other 500); code = none }
body_of invalid_pmc = record { error = some (other 500); code = none }

abbrev pub answer : {A B : Type 0} → (A → B) → patch_proof_api.Svd.Result A → Answer B
answer f (patch_proof_api.Svd.ok a) = answered (f a)
answer f (patch_proof_api.Svd.err e) = refused (body_of e)

-- When an attempt's two requests are served, and which challenge the first one makes.
pub record Schedule : Type 0 where
  pub begins_at : ℕ → ℕ
  pub completes_at : ℕ → ℕ
  pub challenge : ℕ → ℕ

module _ (redis : Redis) (crypto : Crypto) (db : Collection Registration) (v : Service) (user : ℕ)
    (rs : List Registration) (at : Schedule) where
  open redis use {State}

  -- The service as one user's client sees it.
  abbrev pub service_server : Server State Token
  service_server = record {
    begin = λ i s.
        let (r, s') = begin redis crypto db v (at.begins_at i) user (at.challenge i) rs s in
        (answer (λ a. a.0) r, s');
    complete = λ i m sig s.
        let (r, s') = complete redis crypto db v (at.completes_at i) user m sig rs s in
        (answer (λ t. t) r, s');
    kid = λ i s. s;
  }

  -- An outcome after which the loop does not go on.
  abbrev IsFinal : {A : Type 0} → Result A → Type 0
  IsFinal (ok a) = Unit
  IsFinal (err e) = is_retried e ≡ false

  refused-IsFinal :
      {A B : Type 0} (f : A → B) (r : patch_proof_api.Svd.Result A)
      → IsFinal (fetch_json (answer f r))
  unfolding fetch_json
  refused-IsFinal f (patch_proof_api.Svd.ok a) = tt
  refused-IsFinal f (patch_proof_api.Svd.err e) = body e
    where
      body : (e : SvdError) → is_retried (svd_error (body_of e).code) ≡ false
      body replayed = refl
      body expired = refl
      body bad_challenge = refl
      body no_pmc = refl
      body non_canonical = refl
      body invalid_signature = refl
      body not_ready = refl
      body server_key_missing = refl
      body malformed_signature = refl
      body derivation_failed = refl
      body cache_not_ready = refl
      body invalid_pmc = refl

  module _ (client : Client) where
    signed-IsFinal :
        (attempt m : ℕ) (o : Option ℕ) (s : State)
        → IsFinal (signed service_server client attempt m o s).0
    signed-IsFinal attempt m none s = refl
    signed-IsFinal attempt m (some sig) s = refused-IsFinal (λ t. t) _

    begun-IsFinal :
        (attempt : ℕ) (r : Result ℕ) (s : State)
        → IsFinal r
        → IsFinal (begun service_server client attempt (r, s)).0
    begun-IsFinal attempt (ok m) s h = signed-IsFinal attempt m (client.sign m) s
    begun-IsFinal attempt (err e) s h = h

    try_login-IsFinal :
        (attempt : ℕ) (s : State) → IsFinal (try_login service_server client attempt s).0
    unfolding try_login
    try_login-IsFinal attempt s = begun-IsFinal attempt _ _ (refused-IsFinal (λ a. a.0) _)

    caught_final :
        (b b' : Bool) (attempt : ℕ) (again again' : State → Result Token × State)
        (r : Result Token × State)
        → IsFinal r.0
        → caught service_server client b attempt again r
          ≡ caught service_server client b' attempt again' r
    caught_final b b' attempt again again' (ok t, s) h = refl
    caught_final b b' attempt again again' (err e, s) h = rw h refl

    -- The client never tries again. Its loop goes on where an error has the code of an expired or
    -- a replayed challenge, but the routes name these errors in another field of the body: with
    -- every number of attempts, a login is its first attempt.
    pub login_never_retries :
        (left attempt : ℕ) (s : State)
        → login_from service_server client (suc left) attempt s
          ≡ login_from service_server client 1 attempt s
    unfolding login_from
    login_never_retries left attempt s =
        ap
          (λ rest.
            if client.is_aborted attempt then (err patch_proof_api.Svd.Sdk.cancelled, s) else rest)
          (caught_final (not (ltb 0 left)) (not (ltb 0 0)) attempt
            (login_from service_server client left (suc attempt))
            (login_from service_server client 0 (suc attempt))
            (try_login service_server client attempt s) (try_login-IsFinal attempt s))
