-- ===== src/Network/Http/Lexing.antt =====
-- framework/network/src/http/http1_lexing.hpp: characters and texts of HTTP/1, and the searches of
-- std::string_view. A character is a code below 256.
use realm_mesh.Prelude.{
  ℕ, zero, suc, ◌+◌, ◌≡◌, refl, ap, ◌∙◌, arith, [], ◌∷◌, Bool, true, false, ◌&&◌, ◌||◌, leb, ◌==◌,
  if◌then◌else◌, Option, none, some, Text, text_eq, in_range, map, drop,
}

pub to_lower : ℕ → ℕ
to_lower value = if in_range 65 90 value then value + 32 else value

unfoldable pub is_tchar : ℕ → Bool
is_tchar value =
    in_range 48 57 value
    || in_range 97 122 value
    || in_range 65 90 value
    || value == 33
    || in_range 35 39 value
    || value == 42
    || value == 43
    || value == 45
    || value == 46
    || in_range 94 96 value
    || value == 124
    || value == 126

unfoldable pub is_valid_value_char : ℕ → Bool
is_valid_value_char value = value == 9 || in_range 32 126 value || leb 128 value

unfoldable pub lowercase : Text → Text
unfolding to_lower
lowercase text = map to_lower text

to_lower_again : (value : ℕ) → to_lower (to_lower value) ≡ to_lower value
unfolding to_lower
to_lower_again value = ground arith

-- A text in lower case is kept.
pub lowercase_again : (text : Text) → lowercase (lowercase text) ≡ lowercase text
unfolding lowercase
lowercase_again [] = refl
lowercase_again (c ∷ text) =
    ap (λ x. x ∷ lowercase (lowercase text)) (to_lower_again c)
    ∙ ap (λ xs. to_lower c ∷ xs) (lowercase_again text)

unfoldable pub equals_ignore_case : Text → Text → Bool
unfolding lowercase text_eq
equals_ignore_case left right = text_eq (lowercase left) (lowercase right)

abbrev pub is_blank : ℕ → Bool
is_blank c = c == 32 || c == 9

-- The two loops of `trim_sp_htab`.
unfoldable pub trim_front : Text → Text
trim_front [] = []
trim_front (c ∷ text) = if is_blank c then trim_front text else c ∷ text

abbrev pub keep_back : ℕ → Text → Text
keep_back c [] = if is_blank c then [] else c ∷ []
keep_back c (d ∷ text) = c ∷ d ∷ text

unfoldable pub trim_back : Text → Text
trim_back [] = []
trim_back (c ∷ text) = keep_back c (trim_back text)

unfoldable pub trim_sp_htab : Text → Text
unfolding trim_front trim_back
trim_sp_htab text = trim_back (trim_front text)

unfoldable pub starts_with : Text → Text → Bool
starts_with [] text = true
starts_with (p ∷ wanted) [] = false
starts_with (p ∷ wanted) (c ∷ text) = p == c && starts_with wanted text

abbrev pub next_place : Option ℕ → Option ℕ
next_place none = none
next_place (some i) = some (suc i)

-- `find`: where a text that is not empty stands first.
unfoldable pub find_text : Text → Text → Option ℕ
unfolding starts_with
find_text wanted [] = none
find_text wanted (c ∷ text) =
    let later = find_text wanted text in
    if starts_with wanted (c ∷ text) then some zero else next_place later

abbrev pub shifted : ℕ → Option ℕ → Option ℕ
shifted n none = none
shifted n (some i) = some (n + i)

-- `find` from a place on.
abbrev pub find_from : Text → Text → ℕ → Option ℕ
find_from wanted text place = shifted place (find_text wanted (drop place text))
