-- ===== src/Middleware/Access.antt =====
-- middleware/jwtAuthSvd.js, apiKeyMiddleware.js and secrets.js: who gets through.
use patch_proof_api.Base.{
  ℕ, ◌≡◌, ◌≢◌, ◌↔◌, ◌⊎◌, refl, sym, subst, true, false, ◌&&◌, List, [], ◌∷◌, Option, none, some,
  arith, ◌==◌, ==_self, ltb, length, Bool-cases, inl, inr, if◌then◌else◌,
}
use patch_proof_api.Middleware.{
  Payload, Verified, valid, expired, invalid, unexpected, Auth, next, Jwt, bind_auth, decide,
  jwt_auth_svd, same_bytes, api_key_middleware,
}

same_bytes-eq : (xs bs : List ℕ) → same_bytes xs bs ≡ true → xs ≡ bs
same_bytes-eq [] [] h = refl
same_bytes-eq [] (b ∷ bs) h = absurd (cc)
same_bytes-eq (a ∷ xs) [] h = absurd (cc)
same_bytes-eq (a ∷ xs) (b ∷ bs) h = ground (arith, same_bytes-eq xs bs)

same_bytes_self : (xs : List ℕ) → same_bytes xs xs ≡ true
same_bytes_self [] = refl
same_bytes_self (a ∷ xs) = rw (==_self a) (same_bytes_self xs)

-- A request passes exactly if its key is that of the server, and the server has one: with no key
-- configured nobody passes.
api_key_iff :
    (server client : List ℕ)
    → (api_key_middleware server client ≡ true) ↔ ((client ≡ server) × (server ≢ []))
unfolding api_key_middleware
api_key_iff server client = (to client server, from client server)
  where
    to :
        (client server : List ℕ)
        → (if length client == length server && ltb 0 (length server)
            then same_bytes client server
            else false)
          ≡ true
        → (client ≡ server) × (server ≢ [])
    to client [] h = absurd (ground arith)
    to client (b ∷ bs) h = elim (Bool-cases (length client == length (b ∷ bs))) [
      | inr other ↦ absurd (ground arith)
      | inl same ↦
          let eq : same_bytes client (b ∷ bs) ≡ true = ground arith in
          (same_bytes-eq client (b ∷ bs) eq, λ e. absurd (cc))
    ]

    from :
        (client server : List ℕ)
        → (client ≡ server) × (server ≢ [])
        → (if length client == length server && ltb 0 (length server)
            then same_bytes client server
            else false)
          ≡ true
    from client [] (same, ne) = absurd (ne refl)
    from client (b ∷ bs) (same, ne) =
        subst
          (λ l.
            (if length l == length (b ∷ bs) && ltb 0 (length (b ∷ bs))
              then same_bytes l (b ∷ bs)
              else false)
            ≡ true)
          (sym same) (rw (==_self (length (b ∷ bs))) (ground (arith, same_bytes_self (b ∷ bs))))

module _ (jwt : Jwt) where
  -- What a request that passes carries.
  abbrev pub Authenticated : Option ℕ → Auth → Type 0
  Authenticated header a =
      (token : ℕ) × (p : Payload) × (header ≡ some token)
      × (jwt.verify token ≡ valid p)
      × (a.user_id ≡ p.sub)
      × (((p.msha ≡ none) × (a.svd ≡ false))
          ⊎ ((m : ℕ) × (j : ℕ) × (p.msha ≡ some m)
              × (p.jti ≡ some j)
              × (jwt.is_hex64 m ≡ true)
              × (jwt.is_hex64 j ≡ true)
              × (jwt.to_lower m ≡ jwt.to_lower j)
              × (a.svd ≡ true)
              × (a.svd_jti ≡ some j)))

  -- A request passes only with a token that verified, as the token's subject; and as one of an SVD
  -- session only if the token is bound to its challenge by two equal digests.
  jwt_auth-Authenticated :
      (header : Option ℕ) (a : Auth) → jwt_auth_svd jwt header ≡ next a → Authenticated header a
  unfolding jwt_auth_svd
  jwt_auth-Authenticated none a h = absurd (cc)
  jwt_auth-Authenticated (some token) a h = verified (jwt.verify token) refl h
    where
      bound :
          (p : Payload) (m : ℕ) (o : Option ℕ)
          → p.jti ≡ o
          → p.msha ≡ some m
          → jwt.verify token ≡ valid p
          → bind_auth jwt p (some m) ≡ next a
          → Authenticated (some token) a
      bound p m none j e v h = absurd (ground arith)
      bound p m (some j) ej e v h = (
        token,
        p,
        refl,
        v,
        ground arith,
        inr (m, j, e, ej, ground arith, ground arith, ground arith, ground arith, ground arith),
      )

      claims :
          (p : Payload) (o : Option ℕ)
          → p.msha ≡ o
          → jwt.verify token ≡ valid p
          → bind_auth jwt p o ≡ next a
          → Authenticated (some token) a
      claims p none e v h = (token, p, refl, v, ground arith, inl (e, ground arith))
      claims p (some m) e v h = bound p m p.jti refl e v h

      verified :
          (v : Verified)
          → jwt.verify token ≡ v
          → decide jwt v ≡ next a
          → Authenticated (some token) a
      verified (valid p) e h = claims p p.msha refl e h
      verified expired e h = absurd (cc)
      verified invalid e h = absurd (cc)
      verified unexpected e h = absurd (cc)
