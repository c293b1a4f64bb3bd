-- ===== src/Realm/CharacterName.antt =====
-- game/realm/src/character_name.cpp: the check of a name in UTF-8. A text is the list of the bytes from the
-- position on; a byte is below 256, so that a mask of its leading bits is a quotient and one of the
-- others a remainder. The loop over the name has as fuel the length of the name.
pub mod Utf8
pub mod Names
mod Tests
use realm_mesh.Prelude.{
  ℕ, zero, suc, ◌+◌, ◌*◌, ◌/◌, ◌%◌, List, [], ◌∷◌, Bool, true, false, not, ◌&&◌, ◌||◌, leb, ltb,
  ◌==◌, if◌then◌else◌, Option, none, some, length, in_range,
}

-- The bytes behind the first one of a code point.
unfoldable pub continuation : ℕ → ℕ → List ℕ → Option (ℕ × List ℕ)
continuation zero value text = some (value, text)
continuation (suc n) value [] = none
continuation (suc n) value (byte ∷ text) =
    let rest = continuation n (value * 64 + byte % 64) text in
    if not (byte / 64 == 2) then none else rest

-- The checks of a value.
abbrev pub checked : ℕ → Option (ℕ × List ℕ) → Option (ℕ × List ℕ)
checked minimum none = none
checked minimum (some (value, rest)) =
    if ltb value minimum || ltb 1_114_111 value || in_range 55_296 57_343 value
    then none
    else some (value, rest)

abbrev pub continued : ℕ → ℕ → ℕ → List ℕ → Option (ℕ × List ℕ)
continued n value minimum text =
    if ltb (length text) n then none else checked minimum (continuation n value text)

unfoldable pub next_code_point : List ℕ → Option (ℕ × List ℕ)
unfolding continuation
next_code_point [] = none
next_code_point (lead ∷ text) =
    if ltb lead 128
    then some (lead, text)
    else if lead / 32 == 6
    then continued 1 (lead % 32) 128 text
    else if lead / 16 == 14
    then continued 2 (lead % 16) 2_048 text
    else if lead / 8 == 30
    then continued 3 (lead % 8) 65_536 text
    else none

pub is_control : ℕ → Bool
is_control value = ltb value 32 || in_range 127 159 value

pub is_white_space : ℕ → Bool
is_white_space value =
    in_range 9 13 value
    || value == 32
    || value == 133
    || value == 160
    || value == 5_760
    || in_range 8_192 8_202 value
    || value == 8_232
    || value == 8_233
    || value == 8_239
    || value == 8_287
    || value == 12_288

abbrev pub max_character_name_code_points : ℕ
max_character_name_code_points = 16

-- What the loop does with a code point.
abbrev pub scan_next : (ℕ → ℕ → ℕ → List ℕ → Bool) → ℕ → ℕ → Option (ℕ × List ℕ) → Bool
scan_next continue count first none = false
scan_next continue count first (some (value, rest)) =
    if is_control value
    then false
    else if ltb max_character_name_code_points (count + 1)
    then false
    else continue (count + 1) (if count + 1 == 1 then value else first) value rest

-- The loop over the name: the count, the first and the last code point so far.
unfoldable pub scan : ℕ → ℕ → ℕ → ℕ → List ℕ → Bool
unfolding next_code_point is_control is_white_space
scan fuel count first last [] =
    ltb 0 count && not (is_white_space first) && not (is_white_space last)
scan zero count first last (byte ∷ text) = false
scan (suc fuel) count first last (byte ∷ text) =
    scan_next (scan fuel) count first (next_code_point (byte ∷ text))

unfoldable pub is_valid_character_name : List ℕ → Bool
unfolding scan
is_valid_character_name name = scan (length name) 0 0 0 name
