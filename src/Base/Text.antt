-- ===== src/Base/Text.antt =====
-- Text as its code points, and the searches that the program's regular expressions make.
use Prim.Native.Nat.{ℕ, ◌+◌}
use Prim.Native.Char.{code}
use Prim.Native.String.{String}
use mathlib.Core.Bool.{Bool, true, false, ◌&&◌, ◌||◌, not}
use mathlib.Core.List.{List, [], ◌∷◌}
use patch_proof_api.Base.Tests.{leb, ◌==◌, if◌then◌else◌}

abbrev pub codes : String → List ℕ
codes String.[] = []
codes (String.◌∷◌ c s) = code c ∷ codes s

-- `toLowerCase` of one code point, and the flag `i`; letters outside of ASCII do not occur in the
-- patterns.
abbrev pub lower : ℕ → ℕ
lower c = if leb b'A' c && leb c b'Z' then c + 32 else c

-- `\s`
abbrev pub is_space : ℕ → Bool
is_space c =
    (leb 9 c && leb c 13)
    || (c == 32
        || (c == 160
            || (c == 5760
                || ((leb 8192 c && leb c 8202)
                    || (c == 8232
                        || (c == 8233
                            || (c == 8239 || (c == 8287 || (c == 12288 || c == 65279)))))))))

-- Does the text begin with the pattern, whose letters are lower case, in any case?
abbrev pub starts_with_i : List ℕ → List ℕ → Bool
starts_with_i [] s = true
starts_with_i (p ∷ ps) [] = false
starts_with_i (p ∷ ps) (c ∷ s) = lower c == p && starts_with_i ps s

-- Does it occur anywhere?
abbrev pub contains_i : List ℕ → List ℕ → Bool
contains_i p [] = starts_with_i p []
contains_i p (c ∷ s) = starts_with_i p (c ∷ s) || contains_i p s

-- `\S+@` from here on.
abbrev pub nonspace_to_at : List ℕ → Bool
nonspace_to_at [] = false
nonspace_to_at (c ∷ []) = false
nonspace_to_at (c ∷ d ∷ s) = not (is_space c) && (d == b'@' || nonspace_to_at (d ∷ s))

-- `/:\S+@/`
abbrev pub colon_to_at : List ℕ → Bool
colon_to_at [] = false
colon_to_at (c ∷ s) = (c == b':' && nonspace_to_at s) || colon_to_at s

-- `S+@` from here on, with the letter S.
abbrev pub letters_to_at : List ℕ → Bool
letters_to_at [] = false
letters_to_at (c ∷ []) = false
letters_to_at (c ∷ d ∷ s) = c == b'S' && (d == b'@' || letters_to_at (d ∷ s))

-- `\\S+@` from here on: a backslash first.
abbrev pub backslash_to_at : List ℕ → Bool
backslash_to_at [] = false
backslash_to_at (c ∷ s) = c == 92 && letters_to_at s

-- `/:\\S+@/`
abbrev pub colon_backslash_to_at : List ℕ → Bool
colon_backslash_to_at [] = false
colon_backslash_to_at (c ∷ s) = (c == b':' && backslash_to_at s) || colon_backslash_to_at s
