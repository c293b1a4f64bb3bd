-- ===== src/Realm/CharacterName/Names.antt =====
-- The check of a name against the code points that it is the encoding of.
use realm_mesh.Prelude.{
  ℕ, zero, suc, ◌+◌, ◌≤◌, ◌<◌, ◌≡◌, ◌↔◌, refl, sym, ◌∙◌, ap, List, [], ◌∷◌, ◌++◌, Bool, true, false,
  not, ◌&&◌, ltb, ◌==◌, if◌then◌else◌, Option, none, some, length, length-append, All, arith,
  either, subst,
}
use realm_mesh.Realm.CharacterName.{
  next_code_point, is_control, is_white_space, max_character_name_code_points, scan_next, scan,
  is_valid_character_name,
}
use realm_mesh.Realm.CharacterName.Utf8.{
  encode, IsScalar, next_code_point-encode, next_code_point_shortest,
}

pub encode_all : List ℕ → List ℕ
encode_all [] = []
encode_all (v ∷ values) = encode v ++ encode_all values

-- The first of `count` code points before and those here, and the last.
abbrev pub first_of : ℕ → ℕ → List ℕ → ℕ
first_of count first [] = first
first_of count first (v ∷ values) = if count + 1 == 1 then v else first

abbrev pub last_of : ℕ → List ℕ → ℕ
last_of last [] = last
last_of last (v ∷ values) = last_of v values

abbrev pub IsPlain : ℕ → Type 0
IsPlain v = IsScalar v × (is_control v ≡ false)

-- Between one and sixteen code points in all, none a control, the ends no white space.
abbrev pub IsNameFrom : ℕ → ℕ → ℕ → List ℕ → Type 0
IsNameFrom count first last values =
    All IsPlain values
    × (count + length values ≤ max_character_name_code_points)
    × (0 < count + length values)
    × (is_white_space (first_of count first values) ≡ false)
    × (is_white_space (last_of last values) ≡ false)

abbrev pub IsName : List ℕ → Type 0
IsName values = IsNameFrom 0 0 0 values

-- The text is the encoding of code points that go on a name.
abbrev Encodes : ℕ → ℕ → ℕ → List ℕ → Type 0
Encodes count first last text =
    (values : List ℕ) × (text ≡ encode_all values) × IsNameFrom count first last values

first_of_next : (count first : ℕ) (values : List ℕ) → first_of (count + 1) first values ≡ first
first_of_next count first [] = refl
first_of_next count first (v ∷ values) =
    let no : (count + 1 + 1 == 1) ≡ false = ground arith in ap (λ t. if t then v else first) no

scan_next-Encodes :
    (continue : ℕ → ℕ → ℕ → List ℕ → Bool) (count first last : ℕ) (text : List ℕ)
    (found : Option (ℕ × List ℕ))
    → ((c f l : ℕ) (t : List ℕ)
        → c ≤ max_character_name_code_points
        → continue c f l t ≡ true
        → Encodes c f l t)
    → next_code_point text ≡ found
    → scan_next continue count first found ≡ true
    → Encodes count first last text
unfolding encode_all
scan_next-Encodes continue count first last text none keeps e = λ h. cc
scan_next-Encodes continue count first last text (some (v, rest)) keeps e =
    let begin = if count + 1 == 1 then v else first in
    let goal : Bool → Type 0 = λ x. x ≡ true → Encodes count first last text in
    either goal (is_control v) false _ (λ bad h. cc)
      (λ plain.
        either goal (ltb max_character_name_code_points (count + 1)) false
          (continue (count + 1) begin v rest) (λ many h. cc)
          (λ few h.
            let (values, same, (all, most, least, front, back)) =
              keeps (count + 1) begin v rest (ground arith) h in
            let (shortest, scalar) = next_code_point_shortest text v rest e in
            (
              v ∷ values,
              shortest ∙ ap (λ l. encode v ++ l) same,
              (
                ((scalar, plain), all),
                omega (arith, most),
                omega arith,
                ap is_white_space (sym (first_of_next count begin values)) ∙ front,
                back,
              ),
            )))

ends_split :
    (n : ℕ) (a b : Bool) → (ltb 0 n && not a && not b) ≡ true → (0 < n) × (a ≡ false) × (b ≡ false)
ends_split n a b h = (ground arith, ground arith, ground arith)

ends_join :
    (n : ℕ) (a b : Bool) → 0 < n → a ≡ false → b ≡ false → (ltb 0 n && not a && not b) ≡ true
ends_join n a b h e f = ground arith

scan-Encodes :
    (fuel count first last : ℕ) (text : List ℕ)
    → count ≤ max_character_name_code_points
    → scan fuel count first last text ≡ true
    → Encodes count first last text
unfolding scan encode_all
scan-Encodes zero count first last [] fits h =
    let (some_values, front, back) =
      ends_split count (is_white_space first) (is_white_space last) h in
    ([], refl, (tt, omega arith, omega arith, front, back))
scan-Encodes (suc fuel) count first last [] fits h =
    let (some_values, front, back) =
      ends_split count (is_white_space first) (is_white_space last) h in
    ([], refl, (tt, omega arith, omega arith, front, back))
scan-Encodes zero count first last (byte ∷ text) fits h = cc
scan-Encodes (suc fuel) count first last (byte ∷ text) fits h =
    scan_next-Encodes (scan fuel) count first last (byte ∷ text) (next_code_point (byte ∷ text))
      (λ c f l t. scan-Encodes fuel c f l t) refl h

some_bytes : (v : ℕ) → 1 ≤ length (encode v)
unfolding encode
some_bytes v = ground arith

-- One turn of the loop, on bytes that are not empty.
scan_turn :
    (fuel count first last : ℕ) (text : List ℕ)
    → 1 ≤ length text
    → scan (suc fuel) count first last text
      ≡ scan_next (scan fuel) count first (next_code_point text)
unfolding scan
scan_turn fuel count first last [] h = elim h [ ]
scan_turn fuel count first last (byte ∷ text) h = refl

scan-encode_all :
    (fuel count first last : ℕ) (values : List ℕ)
    → length (encode_all values) ≤ fuel
    → IsNameFrom count first last values
    → scan fuel count first last (encode_all values) ≡ true
unfolding encode_all scan
scan-encode_all zero count first last [] h (all, most, least, front, back) =
    ends_join count (is_white_space first) (is_white_space last) (omega arith) front back
scan-encode_all (suc fuel) count first last [] h (all, most, least, front, back) =
    ends_join count (is_white_space first) (is_white_space last) (omega arith) front back
scan-encode_all zero count first last (v ∷ values) h name =
    let wrong : 1 ≤ 0 =
      omega (arith, length-append (encode v) (encode_all values), some_bytes v, h) in
    elim wrong [ ]
scan-encode_all (suc fuel) count first last (v ∷ values) h
      ((plain, all), most, least, front, back) =
    let text = encode v ++ encode_all values in
    let sizes = length-append (encode v) (encode_all values) in
    let bytes = some_bytes v in
    let begin = if count + 1 == 1 then v else first in
    let few : ltb max_character_name_code_points (count + 1) ≡ false = ground arith in
    let rest = scan-encode_all fuel (count + 1) begin v values (omega (arith, sizes, bytes)) (
      all,
      omega arith,
      omega arith,
      ap is_white_space (first_of_next count begin values) ∙ front,
      back,
    ) in
    scan_turn fuel count first last text (omega (arith, sizes, bytes))
    ∙ ap (scan_next (scan fuel) count first) (next_code_point-encode v (encode_all values) plain.0)
    ∙ ap
        (λ t.
          if t
          then false
          else if ltb max_character_name_code_points (count + 1)
          then false
          else scan fuel (count + 1) begin v (encode_all values))
        plain.1
    ∙ ap (λ t. if t then false else scan fuel (count + 1) begin v (encode_all values)) few
    ∙ rest

-- The accepted names are exactly the shortest encodings of one to sixteen code points without
-- surrogates and controls, of which neither the first nor the last is white space.
pub is_valid_character_name_iff :
    (name : List ℕ)
    → (is_valid_character_name name ≡ true)
      ↔ ((values : List ℕ) × (name ≡ encode_all values) × IsName values)
unfolding is_valid_character_name
is_valid_character_name_iff name = (
  λ h. scan-Encodes (length name) 0 0 0 name (omega arith) h,
  λ w.
      subst (λ n. scan (length n) 0 0 0 n ≡ true) (sym w.1)
        (scan-encode_all (length (encode_all w.0)) 0 0 0 w.0 (omega arith) w.2),
)
