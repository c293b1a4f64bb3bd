-- ===== src/Network/Http/Search.antt =====
-- The search for a text in bytes that come in pieces.
use realm_mesh.Prelude.{
  ℕ, zero, suc, ◌+◌, ◌≤◌, ◌<◌, ◌≡◌, refl, sym, ◌∙◌, ap, [], ◌∷◌, ◌++◌, true, ◌&&◌, ◌==◌,
  if◌then◌else◌, some, Text, length, arith, Bool-cases, Option-cases, inl, inr,
}
use realm_mesh.Network.Http.Lexing.{starts_with, find_text, next_place}

starts_with-append :
    (wanted xs ys : Text)
    → length wanted ≤ length xs
    → starts_with wanted (xs ++ ys) ≡ starts_with wanted xs
unfolding starts_with
starts_with-append [] xs ys h = refl
starts_with-append (w ∷ wanted) [] ys h = elim h [ ]
starts_with-append (w ∷ wanted) (x ∷ xs) ys h =
    ap (λ b. w == x && b) (starts_with-append wanted xs ys (omega arith))

starts_with-length : (wanted xs : Text) → starts_with wanted xs ≡ true → length wanted ≤ length xs
unfolding starts_with
starts_with-length [] xs e = omega arith
starts_with-length (w ∷ wanted) [] e = cc
starts_with-length (w ∷ wanted) (x ∷ xs) e = ground (arith, starts_with-length wanted xs)

pub find_text_bound :
    (wanted xs : Text) (i : ℕ) → find_text wanted xs ≡ some i → i + length wanted ≤ length xs
unfolding find_text
find_text_bound wanted [] i e = cc
find_text_bound wanted (x ∷ xs) i e = elim (Bool-cases (starts_with wanted (x ∷ xs))) [
  | inl here ↦
      let same =
        sym (ap (λ b. if b then some zero else next_place (find_text wanted xs)) here) ∙ e in
      let first : zero ≡ i = cc in omega (arith, starts_with-length wanted (x ∷ xs) here, first)
  | inr there ↦
      let same =
        sym (ap (λ b. if b then some zero else next_place (find_text wanted xs)) there) ∙ e in
      elim (Option-cases (find_text wanted xs)) [
        | inl missing ↦ let wrong = sym (ap next_place missing) ∙ same in cc
        | inr (j, found) ↦
            let later = sym (ap next_place found) ∙ same in
            let place : suc j ≡ i = cc in omega (arith, find_text_bound wanted xs j found, place)
      ]
]

-- A text that was found is found at the same place when bytes follow.
pub find_text-append :
    (wanted xs ys : Text) (i : ℕ)
    → find_text wanted xs ≡ some i
    → find_text wanted (xs ++ ys) ≡ some i
unfolding find_text
find_text-append wanted [] ys i e = cc
find_text-append wanted (x ∷ xs) ys i e =
    let fits = find_text_bound wanted (x ∷ xs) i e in
    let kept = starts_with-append wanted (x ∷ xs) ys (omega arith) in
    elim (Bool-cases (starts_with wanted (x ∷ xs))) [
      | inl here ↦
          let same =
            sym (ap (λ b. if b then some zero else next_place (find_text wanted xs)) here) ∙ e in
          ap (λ b. if b then some zero else next_place (find_text wanted (xs ++ ys))) (kept ∙ here)
          ∙ same
      | inr there ↦
          let same =
            sym (ap (λ b. if b then some zero else next_place (find_text wanted xs)) there) ∙ e in
          ap (λ b. if b then some zero else next_place (find_text wanted (xs ++ ys))) (kept ∙ there)
          ∙ (elim (Option-cases (find_text wanted xs)) [
            | inl missing ↦ let wrong = sym (ap next_place missing) ∙ same in cc
            | inr (j, found) ↦
                ap next_place (find_text-append wanted xs ys j found)
                ∙ sym (ap next_place found)
                ∙ same
          ])
    ]

-- A text that ends within the first bytes is found without the bytes that follow.
pub find_text_prefix :
    (wanted xs ys : Text) (i : ℕ)
    → find_text wanted (xs ++ ys) ≡ some i
    → i + length wanted ≤ length xs
    → 0 < length wanted
    → find_text wanted xs ≡ some i
unfolding find_text
find_text_prefix wanted [] ys i e fits some_wanted = ground (arith, fits, some_wanted)
find_text_prefix wanted (x ∷ xs) ys i e fits some_wanted =
    let kept = starts_with-append wanted (x ∷ xs) ys (omega arith) in
    let later = find_text wanted (xs ++ ys) in
    elim (Bool-cases (starts_with wanted (x ∷ xs))) [
      | inl here ↦
          let same = sym (ap (λ b. if b then some zero else next_place later) (kept ∙ here)) ∙ e in
          ap (λ b. if b then some zero else next_place (find_text wanted xs)) here ∙ same
      | inr there ↦
          let same = sym (ap (λ b. if b then some zero else next_place later) (kept ∙ there)) ∙ e in
          ap (λ b. if b then some zero else next_place (find_text wanted xs)) there
          ∙ (elim (Option-cases later) [
            | inl missing ↦ let wrong = sym (ap next_place missing) ∙ same in cc
            | inr (j, found) ↦
                let place_of = sym (ap next_place found) ∙ same in
                let place : suc j ≡ i = cc in
                ap next_place
                  (find_text_prefix wanted xs ys j found (omega (arith, fits, place)) some_wanted)
                ∙ sym (ap next_place found)
                ∙ same
          ])
    ]
