-- ===== src/Realm/CharacterName/Utf8.antt =====
-- The code points of UTF-8 against their encodings.
use realm_mesh.Prelude.{
  ℕ, ◌+◌, ◌*◌, ◌/◌, ◌%◌, ◌≤◌, ◌<◌, ◌≡◌, refl, sym, List, [], ◌∷◌, ◌++◌, true, false, not, ◌||◌, ltb,
  ◌==◌, if◌then◌else◌, Option, none, some, length, in_range, arith, Bool-cases, either, subst, inl,
  inr,
}
use realm_mesh.Realm.CharacterName.{continuation, checked, continued, next_code_point}

-- The shortest encoding of a code point.
unfoldable pub encode : ℕ → List ℕ
encode v =
    if ltb v 128
    then v ∷ []
    else if ltb v 2_048
    then (192 + v / 64) ∷ (128 + v % 64) ∷ []
    else if ltb v 65_536
    then (224 + v / 4_096) ∷ (128 + v / 64 % 64) ∷ (128 + v % 64) ∷ []
    else (240 + v / 262_144) ∷ (128 + v / 4_096 % 64) ∷ (128 + v / 64 % 64) ∷ (128 + v % 64) ∷ []

-- A code point that is no surrogate.
abbrev pub IsScalar : ℕ → Type 0
IsScalar v = (v ≤ 1_114_111) × (in_range 55_296 57_343 v ≡ false)

-- A code point is decoded from its shortest encoding, whatever bytes follow.
pub next_code_point-encode :
    (v : ℕ) (rest : List ℕ) → IsScalar v → next_code_point (encode v ++ rest) ≡ some (v, rest)
unfolding next_code_point continuation encode
next_code_point-encode v rest (small, scalar) = elim (Bool-cases (ltb v 128)) [
  | inl one ↦ rw (one, one) refl
  | inr more ↦ elim (Bool-cases (ltb v 2_048)) [
    | inl two ↦ rw (more, two) (ground (arith))
    | inr still ↦ elim (Bool-cases (ltb v 65_536)) [
      | inl three ↦ rw (more, still, three) (ground arith)
      | inr four ↦ rw (more, still, four) (ground arith)
    ]
  ]
]

-- What a decoder returns is the shortest encoding of a code point and the bytes behind it.
abbrev Decodes : List ℕ → Option (ℕ × List ℕ) → Type 0
Decodes text none = Unit {0}
Decodes text (some (v, rest)) = (text ≡ encode v ++ rest) × IsScalar v

checked-Decodes :
    (text : List ℕ) (minimum v : ℕ) (rest : List ℕ)
    → (minimum ≤ v → v ≤ 1_114_111 → text ≡ encode v ++ rest)
    → Decodes text (checked minimum (some (v, rest)))
checked-Decodes text minimum v rest h =
    either (Decodes text) (ltb v minimum || ltb 1_114_111 v || in_range 55_296 57_343 v) none
      (some (v, rest)) (λ bad. tt)
      (λ good. (h (ground arith) (ground arith), (ground arith, ground arith)))

two_bytes :
    (lead a v : ℕ) (rest : List ℕ)
    → lead / 32 ≡ 6
    → a / 64 ≡ 2
    → v ≡ lead % 32 * 64 + a % 64
    → 128 ≤ v
    → lead ∷ a ∷ rest ≡ encode v ++ rest
unfolding encode
two_bytes lead a v rest l m e h =
    let one : ltb v 128 ≡ false = ground arith in
    let two : ltb v 2_048 ≡ true = ground arith in
    let p : lead ≡ 192 + v / 64 = omega arith in
    let q : a ≡ 128 + v % 64 = omega arith in rw (one, two) (rw (sym p, sym q) refl)

three_bytes :
    (lead a b v : ℕ) (rest : List ℕ)
    → lead / 16 ≡ 14
    → a / 64 ≡ 2
    → b / 64 ≡ 2
    → v ≡ (lead % 16 * 64 + a % 64) * 64 + b % 64
    → 2_048 ≤ v
    → lead ∷ a ∷ b ∷ rest ≡ encode v ++ rest
unfolding encode
three_bytes lead a b v rest l m n e h =
    let one : ltb v 128 ≡ false = ground arith in
    let two : ltb v 2_048 ≡ false = ground arith in
    let three : ltb v 65_536 ≡ true = ground arith in
    let p : lead ≡ 224 + v / 4_096 = omega arith in
    let q : a ≡ 128 + v / 64 % 64 = omega arith in
    let r : b ≡ 128 + v % 64 = omega arith in rw (one, two, three) (rw (sym p, sym q, sym r) refl)

four_bytes :
    (lead a b c v : ℕ) (rest : List ℕ)
    → lead / 8 ≡ 30
    → a / 64 ≡ 2
    → b / 64 ≡ 2
    → c / 64 ≡ 2
    → v ≡ ((lead % 8 * 64 + a % 64) * 64 + b % 64) * 64 + c % 64
    → 65_536 ≤ v
    → lead ∷ a ∷ b ∷ c ∷ rest ≡ encode v ++ rest
unfolding encode
four_bytes lead a b c v rest l m n o e h =
    let one : ltb v 128 ≡ false = ground arith in
    let two : ltb v 2_048 ≡ false = ground arith in
    let three : ltb v 65_536 ≡ false = ground arith in
    let p : lead ≡ 240 + v / 262_144 = omega arith in
    let q : a ≡ 128 + v / 4_096 % 64 = omega arith in
    let r : b ≡ 128 + v / 64 % 64 = omega arith in
    let s : c ≡ 128 + v % 64 = omega arith in
    rw (one, two, three) (rw (sym p, sym q, sym r, sym s) refl)

continued_one :
    (lead : ℕ) (text : List ℕ)
    → lead / 32 ≡ 6
    → Decodes (lead ∷ text) (continued 1 (lead % 32) 128 text)
unfolding continuation
continued_one lead [] l = tt
continued_one lead (a ∷ rest) l =
    let all = lead ∷ a ∷ rest in
    let v = lead % 32 * 64 + a % 64 in
    either (Decodes all) (ltb (length (a ∷ rest)) 1) none _ (λ short. tt)
      (λ enough.
        either (λ (x : Option (ℕ × List ℕ)). Decodes all (checked 128 x)) (not (a / 64 == 2)) none
          (some (v, rest)) (λ bad. tt)
          (λ good.
            checked-Decodes all 128 v rest
              (λ low high. two_bytes lead a v rest l (ground arith) refl low)))

continued_two :
    (lead : ℕ) (text : List ℕ)
    → lead / 16 ≡ 14
    → Decodes (lead ∷ text) (continued 2 (lead % 16) 2_048 text)
unfolding continuation
continued_two lead [] l = tt
continued_two lead (a ∷ []) l = tt
continued_two lead (a ∷ b ∷ rest) l =
    let all = lead ∷ a ∷ b ∷ rest in
    let v = (lead % 16 * 64 + a % 64) * 64 + b % 64 in
    let goal : Option (ℕ × List ℕ) → Type 0 = λ x. Decodes all (checked 2_048 x) in
    either (Decodes all) (ltb (length (a ∷ b ∷ rest)) 2) none _ (λ short. tt)
      (λ enough.
        either goal (not (a / 64 == 2)) none _ (λ bad. tt)
          (λ first.
            either goal (not (b / 64 == 2)) none (some (v, rest)) (λ bad. tt)
              (λ second. checked-Decodes all 2_048 v rest (λ low high.
                three_bytes lead a b v rest l (ground arith) (ground arith) refl low))))

continued_three :
    (lead : ℕ) (text : List ℕ)
    → lead / 8 ≡ 30
    → Decodes (lead ∷ text) (continued 3 (lead % 8) 65_536 text)
unfolding continuation
continued_three lead [] l = tt
continued_three lead (a ∷ []) l = tt
continued_three lead (a ∷ b ∷ []) l = tt
continued_three lead (a ∷ b ∷ c ∷ rest) l =
    let all = lead ∷ a ∷ b ∷ c ∷ rest in
    let v = ((lead % 8 * 64 + a % 64) * 64 + b % 64) * 64 + c % 64 in
    let goal : Option (ℕ × List ℕ) → Type 0 = λ x. Decodes all (checked 65_536 x) in
    either (Decodes all) (ltb (length (a ∷ b ∷ c ∷ rest)) 3) none _ (λ short. tt)
      (λ enough.
        either goal (not (a / 64 == 2)) none _ (λ bad. tt)
          (λ first.
            either goal (not (b / 64 == 2)) none _ (λ bad. tt)
              (λ second.
                either goal (not (c / 64 == 2)) none (some (v, rest)) (λ bad. tt)
                  (λ third. checked-Decodes all 65_536 v rest (λ low high.
                    four_bytes lead a b c v rest l (ground arith) (ground arith) (ground arith) refl
                      low)))))

one_byte : (v : ℕ) (rest : List ℕ) → v < 128 → v ∷ rest ≡ encode v ++ rest
unfolding encode
one_byte v rest h = let one : ltb v 128 ≡ true = ground arith in rw one refl

next_code_point-Decodes : (text : List ℕ) → Decodes text (next_code_point text)
unfolding next_code_point
next_code_point-Decodes [] = tt
next_code_point-Decodes (lead ∷ text) =
    let goal = Decodes (lead ∷ text) in
    either goal (ltb lead 128) (some (lead, text)) _
      (λ one. (one_byte lead text (ground arith), (ground arith, ground arith)))
      (λ more.
        either goal (lead / 32 == 6) (continued 1 (lead % 32) 128 text) _
          (λ two. continued_one lead text (ground arith))
          (λ not_two.
            either goal (lead / 16 == 14) (continued 2 (lead % 16) 2_048 text) _
              (λ three. continued_two lead text (ground arith))
              (λ not_three.
                either goal (lead / 8 == 30) (continued 3 (lead % 8) 65_536 text) none
                  (λ four. continued_three lead text (ground arith)) (λ bad. tt))))

-- A code point is decoded only from its shortest encoding, and it is never a surrogate nor above the
-- last code point.
pub next_code_point_shortest :
    (text : List ℕ) (v : ℕ) (rest : List ℕ)
    → next_code_point text ≡ some (v, rest)
    → (text ≡ encode v ++ rest) × IsScalar v
next_code_point_shortest text v rest e = subst (Decodes text) e (next_code_point-Decodes text)
