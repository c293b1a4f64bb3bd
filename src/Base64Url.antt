-- ===== src/Base64Url.antt =====
-- game/common/src/base64url.cpp: the encoding of the segments of a token, without padding.
pub mod RoundTrip
mod Tests
pub mod Canonical
use realm_mesh.Prelude.{
  ℕ, ◌+◌, ◌-◌, ◌*◌, ◌/◌, ◌%◌, ◌^◌, List, [], ◌∷◌, ◌++◌, Bool, ◌&&◌, not, ltb, leb, ◌==◌,
  if◌then◌else◌, Option, none, some, Text, length, in_range,
}

-- The character of `alphabet` at an index below 64.
pub alphabet : ℕ → ℕ
alphabet i =
    if ltb i 26
    then 65 + i
    else if ltb i 52
    then 97 + (i - 26)
    else if ltb i 62
    then 48 + (i - 52)
    else if i == 62
    then 45
    else 95

-- `none` is the index -1 of a character outside the alphabet.
pub alphabet_index : ℕ → Option ℕ
alphabet_index c =
    if in_range 65 90 c
    then some (c - 65)
    else if in_range 97 122 c
    then some (c - 97 + 26)
    else if in_range 48 57 c
    then some (c - 48 + 52)
    else if c == 45
    then some 62
    else if c == 95
    then some 63
    else none

-- The six bits of a group from bit `shift` on.
abbrev pub sextet : ℕ → ℕ → ℕ
sextet group shift = group / 2 ^ shift % 64

-- A group of three bytes; then the remainder of one byte or two, padded by zero bits.
unfoldable pub base64url_encode : List ℕ → Text
unfolding alphabet
base64url_encode (a ∷ b ∷ c ∷ rest) =
    let group = a * 65536 + b * 256 + c in
    alphabet (sextet group 18)
    ∷ alphabet (sextet group 12)
    ∷ alphabet (sextet group 6)
    ∷ alphabet (sextet group 0)
    ∷ base64url_encode rest
base64url_encode (a ∷ b ∷ []) =
    let value = a * 256 + b in
    alphabet (sextet value 10) ∷ alphabet (sextet value 4) ∷ alphabet (value * 4 % 64) ∷ []
base64url_encode (a ∷ []) = alphabet (sextet a 2) ∷ alphabet (a * 16 % 64) ∷ []
base64url_encode [] = []

-- The loop of the decoder, over `buffer`, a `uint32_t`, and `pending_bits`. At the end the bits that
-- are left have to be zero.
pub decode_loop : ℕ → ℕ → List ℕ → Text → Option (List ℕ)
unfolding alphabet_index
decode_loop buffer pending_bits decoded [] =
    if ltb 0 pending_bits && not (buffer % 2 ^ pending_bits == 0) then none else some decoded
decode_loop buffer pending_bits decoded (value ∷ text) = elim (alphabet_index value) [
  | none ↦ none
  | some digit ↦
      let buffer' = (buffer * 64 + digit) % 2 ^ 32 in
      if leb 8 (pending_bits + 6)
      then decode_loop buffer' (pending_bits + 6 - 8)
          (decoded ++ buffer' / 2 ^ (pending_bits + 6 - 8) % 256 ∷ []) text
      else decode_loop buffer' (pending_bits + 6) decoded text
]

unfoldable pub base64url_decode : Text → Option (List ℕ)
unfolding decode_loop
base64url_decode text = if length text % 4 == 1 then none else decode_loop 0 0 [] text
