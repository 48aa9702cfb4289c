-- ===== src/Startup/Urls.antt =====
-- The tests for credentials in a connection string: hasAuthInMongoUri of config/db.js, that of
-- services/lockManager.js, and the one that services/jobService.js, both SVD caches and the e-mail
-- worker have.
use patch_proof_api.Base.{
  ℕ, ◌≡◌, refl, Bool, true, false, ◌&&◌, ◌||◌, List, [], ◌∷◌, ◌++◌, arith, All, elem, codes,
  is_space, starts_with_i, nonspace_to_at, colon_to_at, colon_backslash_to_at,
}

-- `/^mongodb(\+srv)?:\/\//i.test(uri) && /:\S+@/.test(uri)`
unfoldable pub has_auth_in_mongo_uri : List ℕ → Bool
has_auth_in_mongo_uri uri =
    (starts_with_i (codes "mongodb://") uri || starts_with_i (codes "mongodb+srv://") uri)
    && colon_to_at uri

-- `/^redis(s)?:\/\//i.test(url)`
abbrev pub is_redis_url : List ℕ → Bool
is_redis_url url = starts_with_i (codes "redis://") url || starts_with_i (codes "rediss://") url

-- `hasPasswordInUrl` of the lock manager, and that of the others.
unfoldable pub has_password : List ℕ → Bool
has_password url = is_redis_url url && colon_to_at url

unfoldable pub has_password_escaped : List ℕ → Bool
has_password_escaped url = is_redis_url url && colon_backslash_to_at url

pub no_backslash : (url : List ℕ) → elem 92 url ≡ false → colon_backslash_to_at url ≡ false
no_backslash [] h = refl
no_backslash (c ∷ []) h = ground arith
no_backslash (c ∷ d ∷ s) h = ground (arith, no_backslash (d ∷ s))

nonspace_to_at-append :
    (c : ℕ) (user host : List ℕ)
    → All (λ c. is_space c ≡ false) (c ∷ user)
    → nonspace_to_at ((c ∷ user) ++ b'@' ∷ host) ≡ true
nonspace_to_at-append c [] host h = rw h.0 refl
nonspace_to_at-append c (d ∷ user) host h =
    rw h.0 (rw (nonspace_to_at-append d user host h.1) (ground arith))

-- The same test at two services tells differently of a URL with a password: where nothing in it is
-- a backslash, the lock manager finds the password, and the queue, both SVD caches and the e-mail
-- worker find none.
password_not_found :
    (c : ℕ) (password host : List ℕ)
    → All (λ c. is_space c ≡ false) (c ∷ password)
    → elem 92 (codes "redis://:" ++ (c ∷ password) ++ b'@' ∷ host) ≡ false
    → (has_password (codes "redis://:" ++ (c ∷ password) ++ b'@' ∷ host) ≡ true)
      × (has_password_escaped (codes "redis://:" ++ (c ∷ password) ++ b'@' ∷ host) ≡ false)
unfolding has_password has_password_escaped
password_not_found c password host h plain = (
  ground (arith, nonspace_to_at-append c password host h),
  no_backslash (codes "redis://:" ++ (c ∷ password) ++ b'@' ∷ host) plain,
)

-- No password is needed: `hasAuthInMongoUri`, which the code asks for credentials, is satisfied by
-- a user name alone, since the colon that it looks for is that of the scheme.
user_name_suffices :
    (c : ℕ) (user host : List ℕ)
    → All (λ c. is_space c ≡ false) (c ∷ user)
    → has_auth_in_mongo_uri (codes "mongodb://" ++ (c ∷ user) ++ b'@' ∷ host) ≡ true
unfolding has_auth_in_mongo_uri
user_name_suffices c user host h = ground (arith, nonspace_to_at-append c user host h)
