-- ===== src/Middleware.antt =====
-- middleware/jwtAuthSvd.js, apiKeyMiddleware.js, services/configService.js and secrets.js: who is
-- let through, and what the settings and secrets that are read are.
pub mod Access
pub mod Tests
use patch_proof_api.Base.{
  ℕ, Bool, true, false, ◌&&◌, not, List, [], ◌∷◌, Option, none, some, ◌==◌, ltb, length,
  if◌then◌else◌,
}

-- The claims of a token that the middleware reads: `cnf.msha256` and `jti`.
pub record Payload : Type 0 where
  pub sub : ℕ
  pub jti : Option ℕ
  pub msha : Option ℕ
  pub kid : Option ℕ

-- The outcome of `jwt.verify`.
pub data Verified : Type 0 where
  valid : Payload → Verified
  expired invalid unexpected : Verified

-- `req.auth`
pub record Auth : Type 0 where
  pub user_id : ℕ
  pub svd : Bool
  pub svd_kid : Option ℕ
  pub svd_jti : Option ℕ

pub data Decision : Type 0 where
  missing_token invalid_svd_binding token_expired token_invalid next_error : Decision
  next : Auth → Decision

-- The library's `verify` with the secret, the test for 64 hexadecimal digits, and `toLowerCase`.
pub record Jwt : Type 0 where
  pub verify : ℕ → Verified
  pub is_hex64 : ℕ → Bool
  pub to_lower : ℕ → ℕ

module _ (jwt : Jwt) where
  abbrev pub is_bound : ℕ → Option ℕ → Bool
  is_bound msha none = false
  is_bound msha (some jti) =
      jwt.is_hex64 msha && (jwt.is_hex64 jti && jwt.to_lower msha == jwt.to_lower jti)

  abbrev pub bind_auth : Payload → Option ℕ → Decision
  bind_auth p none = next (record { user_id = p.sub; svd = false; svd_kid = none; svd_jti = none })
  bind_auth p (some msha) =
      if not (is_bound msha p.jti)
      then invalid_svd_binding
      else next (record { user_id = p.sub; svd = true; svd_kid = p.kid; svd_jti = p.jti })

  abbrev pub decide : Verified → Decision
  decide (valid p) = bind_auth p p.msha
  decide expired = token_expired
  decide invalid = token_invalid
  decide unexpected = next_error

  -- The token is what follows `Bearer ` in the header, `none` where it does not begin so.
  unfoldable pub jwt_auth_svd : Option ℕ → Decision
  jwt_auth_svd none = missing_token
  jwt_auth_svd (some token) = decide (jwt.verify token)

-- `crypto.timingSafeEqual` of two buffers of one length.
abbrev pub same_bytes : List ℕ → List ℕ → Bool
same_bytes [] [] = true
same_bytes [] (b ∷ bs) = false
same_bytes (a ∷ xs) [] = false
same_bytes (a ∷ xs) (b ∷ bs) = a == b && same_bytes xs bs

-- Whether the key of the client, empty where the header is missing, is let through.
unfoldable pub api_key_middleware : List ℕ → List ℕ → Bool
api_key_middleware server client =
    if length client == length server && ltb 0 (length server)
    then same_bytes client server
    else false

-- A value of the settings: a number, or a string with what `parseInt` makes of it.
pub data Value : Type 0 where
  number : ℕ → Value
  string : Option ℕ → Value
  other : Value

unfoldable pub get_number : Option Value → ℕ → ℕ
get_number none fallback = fallback
get_number (some (number n)) fallback = n
get_number (some (string (some n))) fallback = n
get_number (some (string none)) fallback = fallback
get_number (some other) fallback = fallback

-- The cache of secrets by name; a name that was read has an entry, also when nothing was found.
abbrev pub Cache : Type 0
Cache = ℕ → Option (Option ℕ)

abbrev pub put : ℕ → Option ℕ → Cache → Cache
put name v c k = if k == name then some v else c k

abbrev read_through : ℕ → Option ℕ → Option (Option ℕ) → Cache → Option ℕ × Cache
read_through name env (some v) c = (v, c)
read_through name env none c = (env, put name env c)

-- `getSecret`: the external manager is a stub that gives null.
unfoldable pub get_secret : ℕ → (ℕ → Option ℕ) → Cache → Option ℕ × Cache
get_secret name env c = read_through name (env name) (c name) c
