-- ===== src/Http/Limits.antt =====
-- middleware/authRateLimiter.js: under which key a request is counted. The store of the limiters is
-- a parameter, of which the documentation says that it admits a key that it has not counted yet.
use patch_proof_api.Base.{
  ℕ, ◌≡◌, Bool, true, false, ◌&&◌, ◌||◌, List, [], ◌∷◌, map, if◌then◌else◌, lower, is_space, All,
}
use patch_proof_api.Http.Express.{same_text}

-- A property of the body: not there, a string, or something else.
pub data Field : Type 0 where
  absent other : Field
  text : List ℕ → Field

pub record LimitBody : Type 0 where
  pub user_id : Field
  pub identifier : Field

abbrev is_empty : List ℕ → Bool
is_empty [] = true
is_empty (c ∷ s) = false

abbrev trim_left : List ℕ → List ℕ
trim_left [] = []
trim_left (c ∷ s) = let rest = trim_left s in if is_space c then rest else c ∷ s

abbrev trim_right : List ℕ → List ℕ
trim_right [] = []
trim_right (c ∷ s) = let rest = trim_right s in if is_space c && is_empty rest then [] else c ∷ rest

-- `trim().toLowerCase()`; identifiers are ASCII.
abbrev pub normalize : List ℕ → List ℕ
normalize s = map lower (trim_right (trim_left s))

-- The field if it is a string that is not empty, else what is tried next.
abbrev field_or : Field → List ℕ → List ℕ
field_or absent next = next
field_or other next = next
field_or (text []) next = next
field_or (text (c ∷ s)) next = normalize (c ∷ s)

unfoldable pub get_normalized_key : LimitBody → List ℕ → List ℕ
get_normalized_key b ip = field_or b.user_id (field_or b.identifier ip)

abbrev pub is_counted : List ℕ → List (List ℕ) → Bool
is_counted k [] = false
is_counted k (l ∷ ls) = same_text k l || is_counted k ls

-- The store, by the keys that it has counted in the present window.
pub record LimitStore : Type 0 where
  pub admits : List (List ℕ) → List ℕ → Bool
  pub new_law :
      (counted : List (List ℕ)) (k : List ℕ)
      → is_counted k counted ≡ false
      → admits counted k ≡ true

-- Whether each of the requests is let through, in their order.
unfoldable pub admitted : LimitStore → List ℕ → List (List ℕ) → List LimitBody → List Bool
unfolding get_normalized_key
admitted st ip counted [] = []
admitted st ip counted (b ∷ bs) =
    st.admits counted (get_normalized_key b ip)
    ∷ admitted st ip (get_normalized_key b ip ∷ counted) bs

-- User ids that are not empty and that, normalized, are neither counted nor repeated.
abbrev pub AreNew : List (List ℕ) → List (List ℕ) → Type 0
AreNew counted [] = Unit
AreNew counted (u ∷ us) =
    (is_empty u ≡ false)
    × (is_counted (normalize u) counted ≡ false)
    × AreNew (normalize u ∷ counted) us

-- The limit on codes for an identifier does not hold: any number of requests with the same
-- identifier is let through in one window if each brings another `userId`, a field that the
-- limiter prefers and that the schema of the route, which strips it, only sees later.
pub user_ids_escape_limit :
    (st : LimitStore) (ip : List ℕ) (identifier : Field) (counted us : List (List ℕ))
    → AreNew counted us
    → All
        (λ b. b ≡ true)
        (admitted st ip counted
          (map (λ u. record { user_id = text u; identifier = identifier }) us))
unfolding admitted get_normalized_key
user_ids_escape_limit st ip identifier counted [] new = tt
user_ids_escape_limit st ip identifier counted ([] ∷ us) new = absurd (cc (new.0))
user_ids_escape_limit st ip identifier counted ((c ∷ u) ∷ us) new = (
  st.new_law counted (normalize (c ∷ u)) new.1,
  user_ids_escape_limit st ip identifier (normalize (c ∷ u) ∷ counted) us new.2,
)
