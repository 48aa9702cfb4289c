-- ===== src/Http/Express.antt =====
-- What app.js relies on when it mounts routes: how Express compares the path of a request with that
-- of a route. The library is a parameter; the laws are what its documentation says.
use patch_proof_api.Base.{
  ℕ, ◌≡◌, Bool, true, false, ◌&&◌, ◌||◌, List, [], ◌∷◌, ◌++◌, ◌==◌, leb, lower, map,
}

abbrev pub same_text : List ℕ → List ℕ → Bool
same_text [] [] = true
same_text [] (d ∷ t) = false
same_text (c ∷ s) [] = false
same_text (c ∷ s) (d ∷ t) = c == d && same_text s t

-- `startsWith`
abbrev pub starts_with : List ℕ → List ℕ → Bool
starts_with [] s = true
starts_with (p ∷ ps) [] = false
starts_with (p ∷ ps) (c ∷ s) = p == c && starts_with ps s

abbrev is_word : ℕ → Bool
is_word c =
    (leb b'a' (lower c) && leb (lower c) b'z')
    || ((leb b'0' c && leb c b'9') || (c == b'_' || c == b'-'))

-- Words with a slash before each: no parameter, and no slash at the end.
abbrev pub is_plain : List ℕ → Bool
is_plain [] = true
is_plain (c ∷ []) = is_word c
is_plain (c ∷ d ∷ s) = (is_word c || c == b'/') && is_plain (d ∷ s)

-- `fits`: the path of a route, `app.get(path, …)`, matches the path of a request; `fits_under`: the
-- path of `app.use(path, …)` does. A path under another matches where that one does, and paths
-- without parameters match without regard to case, as is the default.
pub record Express : Type 0 where
  pub fits : List ℕ → List ℕ → Bool
  pub fits_under : List ℕ → List ℕ → Bool
  pub under_law :
      (prefix rest path : List ℕ)
      → fits (prefix ++ b'/' ∷ rest) path ≡ true
      → fits_under prefix path ≡ true
  pub plain_law :
      (pattern path : List ℕ)
      → is_plain pattern ≡ true
      → is_plain path ≡ true
      → fits pattern path ≡ same_text (map lower pattern) (map lower path)
