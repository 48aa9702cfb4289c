-- ===== src/Middleware/Tests.antt =====
-- Runs of the middleware, and the theorems at these.
use patch_proof_api.Base.{ℕ, ◌≡◌, refl, true, List, [], ◌∷◌, some, leb}
use patch_proof_api.Middleware.{Payload, valid, Auth, next, Jwt, jwt_auth_svd}

abbrev payload : Payload
payload = record { sub = 4; jti = some 60; msha = some 60; kid = some 2 }

abbrev jwt : Jwt
jwt = record { verify = λ t. valid payload; is_hex64 = λ n. leb 50 n; to_lower = λ n. n }

abbrev auth : Auth
auth = record { user_id = 4; svd = true; svd_kid = some 2; svd_jti = some 60 }

passes : jwt_auth_svd jwt (some 1) ≡ next auth
unfolding jwt_auth_svd
passes = refl

abbrev server_key : List ℕ
server_key = 5 ∷ 6 ∷ []

abbrev client_key : List ℕ
client_key = 5 ∷ 7 ∷ []
