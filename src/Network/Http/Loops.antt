-- ===== src/Network/Http/Loops.antt =====
-- The loops over the header lines and over the digits of a length.
use realm_mesh.Prelude.{
  ℕ, zero, suc, ◌+◌, ◌-◌, ◌*◌, ◌/◌, ◌%◌, ◌^◌, ◌≤◌, ◌<◌, ◌≡◌, refl, sym, ◌∙◌, ap, [], ◌∷◌, not, ◌||◌,
  ltb, ◌==◌, ◌&&◌, true, if◌then◌else◌, in_range, all_of, Option, none, some, Text, length, take,
  drop, length-drop, arith, either,
}
use realm_mesh.Network.Http.{
  HeadFields, crlf, parse_digits, parse_length, parse_line, go_on, parse_next, parse_fields,
}
use realm_mesh.Network.Http.Lexing.{find_text}

go_on_eq :
    (f g : HeadFields → Text → Option HeadFields) (rest : Text) (found : Option HeadFields)
    → ((fields : HeadFields) → f fields rest ≡ g fields rest)
    → go_on f rest found ≡ go_on g rest found
go_on_eq f g rest none e = refl
go_on_eq f g rest (some fields) e = e fields

parse_next_eq :
    (f g : HeadFields → Text → Option HeadFields) (fields : HeadFields) (rest : Text)
    (found : Option ℕ)
    → ((i : ℕ) (h : HeadFields)
        → found ≡ some i
        → f h (drop (i + 2) rest) ≡ g h (drop (i + 2) rest))
    → parse_next f fields rest found ≡ parse_next g fields rest found
parse_next_eq f g fields rest none e = refl
parse_next_eq f g fields rest (some i) e =
    ap (λ x. if length (take i rest) == 0 then some fields else x)
      (go_on_eq f g (drop (i + 2) rest) (parse_line fields (take i rest)) (λ h. e i h refl))

-- The loop over the header lines ends by itself: any two amounts of fuel that are at least the length of
-- the bytes give the same fields or the same refusal.
pub parse_fields_fuel :
    (m n : ℕ) (fields : HeadFields) (rest : Text)
    → length rest ≤ m
    → length rest ≤ n
    → parse_fields m fields rest ≡ parse_fields n fields rest
unfolding parse_fields
parse_fields_fuel zero zero fields [] h k = refl
parse_fields_fuel zero (suc n) fields [] h k = refl
parse_fields_fuel (suc m) zero fields [] h k = refl
parse_fields_fuel (suc m) (suc n) fields [] h k = refl
parse_fields_fuel zero n fields (c ∷ rest) h k = elim h [ ]
parse_fields_fuel (suc m) zero fields (c ∷ rest) h k = elim k [ ]
parse_fields_fuel (suc m) (suc n) fields (c ∷ rest) h k =
    parse_next_eq (parse_fields m) (parse_fields n) fields (c ∷ rest) (find_text crlf (c ∷ rest))
      (λ i f e.
        let shorter = length-drop (i + 2) (c ∷ rest) in
        parse_fields_fuel m n f (drop (i + 2) (c ∷ rest)) (omega (arith, shorter))
          (omega (arith, shorter)))

-- The number that digits stand for, behind those read so far.
pub decimal_value : ℕ → Text → ℕ
decimal_value n [] = n
decimal_value n (digit ∷ digits) = decimal_value (n * 10 + (digit - 48)) digits

parse_digits_value :
    (parsed n : ℕ) (digits : Text)
    → parsed < 2 ^ 64
    → parse_digits parsed digits ≡ some n
    → (n ≡ decimal_value parsed digits) × (n < 2 ^ 64) × (all_of (in_range 48 57) digits ≡ true)
unfolding parse_digits decimal_value all_of
parse_digits_value parsed n [] h =
    λ e. let is_it : parsed ≡ n = cc e in (sym is_it, omega (arith, is_it), refl)
parse_digits_value parsed n (digit ∷ digits) h =
    let next = (parsed * 10 + (digit - 48)) % 2 ^ 64 in
    either
      (λ (x : Option ℕ).
        x ≡ some n
        → (n ≡ decimal_value (parsed * 10 + (digit - 48)) digits)
          × (n < 2 ^ 64)
          × ((in_range 48 57 digit && all_of (in_range 48 57) digits) ≡ true))
      (not (in_range 48 57 digit) || ltb ((18_446_744_073_709_551_615 - (digit - 48)) / 10) parsed)
      none (parse_digits next digits) (λ bad e. cc)
      (λ good e.
        let exact : next ≡ parsed * 10 + (digit - 48) = ground arith in
        let rest = parse_digits_value next n digits (ground arith) e in
        (rest.0 ∙ ap (λ k. decimal_value k digits) exact, rest.1, ground (arith, good, rest.2)))

-- A length that is accepted consists of one to twenty decimal digits, and is the number that they stand for,
-- without a wrap around on 64 bits.
pub parse_length_value :
    (value : Text) (n : ℕ)
    → parse_length value ≡ some n
    → (n ≡ decimal_value 0 value)
      × (n < 2 ^ 64)
      × (all_of (in_range 48 57) value ≡ true)
      × (1 ≤ length value)
      × (length value ≤ 20)
unfolding parse_length
parse_length_value value n =
    either
      (λ (x : Option ℕ).
        x ≡ some n
        → (n ≡ decimal_value 0 value)
          × (n < 2 ^ 64)
          × (all_of (in_range 48 57) value ≡ true)
          × (1 ≤ length value)
          × (length value ≤ 20))
      (length value == 0 || ltb 20 (length value)) none (parse_digits 0 value) (λ bad e. cc)
      (λ good e.
        let (same, small, digits) = parse_digits_value 0 n value (omega arith) e in
        (same, small, digits, ground (arith, good), ground (arith, good)))
