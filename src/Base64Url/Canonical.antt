-- ===== src/Base64Url/Canonical.antt =====
-- The encoder of base64url.cpp on what the decoder accepts.
use realm_mesh.Prelude.{
  ℕ, ◌+◌, ◌*◌, ◌/◌, ◌%◌, ◌^◌, ◌<◌, ◌≡◌, ◌≢◌, refl, sym, ap, ◌∙◌, List, [], ◌∷◌, ◌++◌, arith, none,
  some, Text, length, All, Option-cases, inl, inr,
}
use mathlib.Core.List.{append_assoc, append-nil}
use realm_mesh.Base64Url.{
  alphabet, alphabet_index, sextet, base64url_encode, decode_loop, base64url_decode,
}
use realm_mesh.Base64Url.RoundTrip.{next, decode_wait, decode_emit, append_three}

alphabet_index_sound : (c d : ℕ) → alphabet_index c ≡ some d → (d < 64) × (c ≡ alphabet d)
unfolding alphabet alphabet_index
alphabet_index_sound c d e = ground arith

decode_bad :
    (buffer p : ℕ) (out : List ℕ) (c : ℕ) (t : Text)
    → alphabet_index c ≡ none
    → decode_loop buffer p out (c ∷ t) ≡ none
unfolding decode_loop
decode_bad buffer p out c t e = ground arith

-- A text that goes through starts with a character of the alphabet.
first_digit :
    (buffer p : ℕ) (out : List ℕ) (c : ℕ) (t : Text) (r : List ℕ)
    → decode_loop buffer p out (c ∷ t) ≡ some r
    → (d : ℕ) × (d < 64) × (c ≡ alphabet d)
first_digit buffer p out c t r e = elim (Option-cases (alphabet_index c)) [
  | inl bad ↦ absurd (cc (decode_bad buffer p out c t bad))
  | inr (d, f) ↦ let (lt, same) = alphabet_index_sound c d f in (d, lt, same)
]

end_zero :
    (buffer p : ℕ) (out r : List ℕ)
    → decode_loop buffer p out [] ≡ some r
    → 0 < p
    → (buffer % 2 ^ p ≡ 0) × (r ≡ out)
unfolding decode_loop
end_zero buffer p out r e h = ground arith

-- What is decoded from here on: bytes whose encoding is the text.
abbrev pub Decodes : List ℕ → Text → List ℕ → Type 0
Decodes out text r =
    (bytes : List ℕ) × (r ≡ out ++ bytes)
    × (base64url_encode bytes ≡ text)
    × All (λ b. b < 256) bytes

module _ (buffer d1 d2 : ℕ) (h1 : d1 < 64) (h2 : d2 < 64) (out : List ℕ) where
  abbrev first_byte : ℕ
  first_byte = d1 * 4 + d2 / 16

  after_two :
      (t : Text)
      → decode_loop buffer 0 out (alphabet d1 ∷ alphabet d2 ∷ t)
        ≡ decode_loop (next (next buffer d1) d2) 4 (out ++ first_byte ∷ []) t
  after_two t =
      let x : next (next buffer d1) d2 / 2 ^ 4 % 256 ≡ first_byte = omega arith in
      decode_wait buffer 0 out d1 _ h1 (omega arith)
      ∙ decode_emit (next buffer d1) 6 out d2 t h2 (omega arith)
      ∙ ap (λ (b : ℕ). decode_loop (next (next buffer d1) d2) 4 (out ++ b ∷ []) t) x

  two_Decodes :
      (r : List ℕ)
      → decode_loop buffer 0 out (alphabet d1 ∷ alphabet d2 ∷ []) ≡ some r
      → Decodes out (alphabet d1 ∷ alphabet d2 ∷ []) r
  unfolding base64url_encode
  two_Decodes r e =
      let (z, q) = end_zero _ 4 _ r (sym (after_two []) ∙ e) (omega arith) in
      let s1 : sextet first_byte 2 ≡ d1 = omega arith in
      let s2 : first_byte * 16 % 64 ≡ d2 = omega (arith, z) in
      (first_byte ∷ [], q, rw (s1, s2) refl, (omega arith, tt))

  module _ (d3 : ℕ) (h3 : d3 < 64) where
    abbrev second_byte : ℕ
    second_byte = d2 % 16 * 16 + d3 / 4

    abbrev third_buffer : ℕ
    third_buffer = next (next (next buffer d1) d2) d3

    after_three :
        (t : Text)
        → decode_loop buffer 0 out (alphabet d1 ∷ alphabet d2 ∷ alphabet d3 ∷ t)
          ≡ decode_loop third_buffer 2 ((out ++ first_byte ∷ []) ++ second_byte ∷ []) t
    after_three t =
        let y : third_buffer / 2 ^ 2 % 256 ≡ second_byte = omega arith in
        after_two (alphabet d3 ∷ t)
        ∙ decode_emit (next (next buffer d1) d2) 4 _ d3 t h3 (omega arith)
        ∙ ap (λ (b : ℕ). decode_loop third_buffer 2 ((out ++ first_byte ∷ []) ++ b ∷ []) t) y

    three_Decodes :
        (r : List ℕ)
        → decode_loop buffer 0 out (alphabet d1 ∷ alphabet d2 ∷ alphabet d3 ∷ []) ≡ some r
        → Decodes out (alphabet d1 ∷ alphabet d2 ∷ alphabet d3 ∷ []) r
    unfolding base64url_encode
    three_Decodes r e =
        let (z, q) = end_zero _ 2 _ r (sym (after_three []) ∙ e) (omega arith) in
        let v = first_byte * 256 + second_byte in
        let s1 : sextet v 10 ≡ d1 = omega arith in
        let s2 : sextet v 4 ≡ d2 = omega arith in
        let s3 : v * 4 % 64 ≡ d3 = omega (arith, z) in
        (
          first_byte ∷ second_byte ∷ [],
          q ∙ append_assoc out (first_byte ∷ []) (second_byte ∷ []),
          rw (s1, s2, s3) refl,
          (omega arith, (omega arith, tt)),
        )

    module _ (d4 : ℕ) (h4 : d4 < 64) where
      abbrev third_byte : ℕ
      third_byte = d3 % 4 * 64 + d4

      after_four :
          (t : Text)
          → decode_loop buffer 0 out (alphabet d1 ∷ alphabet d2 ∷ alphabet d3 ∷ alphabet d4 ∷ t)
            ≡ decode_loop
                (next third_buffer d4)
                0
                (out ++ first_byte ∷ second_byte ∷ third_byte ∷ [])
                t
      after_four t =
          let z : next third_buffer d4 / 2 ^ 0 % 256 ≡ third_byte = omega arith in
          after_three (alphabet d4 ∷ t)
          ∙ decode_emit third_buffer 2 _ d4 t h4 (omega arith)
          ∙ ap (λ o. decode_loop (next third_buffer d4) 0 o t) (append_three out refl refl z)

      four_Decodes :
          (t : Text) (r : List ℕ)
          → Decodes (out ++ first_byte ∷ second_byte ∷ third_byte ∷ []) t r
          → Decodes out (alphabet d1 ∷ alphabet d2 ∷ alphabet d3 ∷ alphabet d4 ∷ t) r
      unfolding base64url_encode
      four_Decodes t r (bytes, e, f, g) =
          let v = first_byte * 65536 + second_byte * 256 + third_byte in
          let s1 : sextet v 18 ≡ d1 = omega arith in
          let s2 : sextet v 12 ≡ d2 = omega arith in
          let s3 : sextet v 6 ≡ d3 = omega arith in
          let s4 : sextet v 0 ≡ d4 = omega arith in
          (
            first_byte ∷ second_byte ∷ third_byte ∷ bytes,
            e ∙ append_assoc out (first_byte ∷ second_byte ∷ third_byte ∷ []) bytes,
            rw (s1, s2, s3, s4, f) refl,
            (omega arith, (omega arith, (omega arith, g))),
          )

end_same : (buffer : ℕ) (out r : List ℕ) → decode_loop buffer 0 out [] ≡ some r → r ≡ out
unfolding decode_loop
end_same buffer out r e = ground arith

-- A text whose characters so far are those of the digits `d1`, `d2`, `d3`.
module _ (buffer : ℕ) (out r : List ℕ) {c1 d1 : ℕ} (h1 : d1 < 64) (s1 : c1 ≡ alphabet d1) where
  second_digit :
      (c : ℕ) (t : Text)
      → decode_loop buffer 0 out (c1 ∷ c ∷ t) ≡ some r
      → (d : ℕ) × (d < 64) × (c ≡ alphabet d)
  second_digit c t e =
      first_digit (next buffer d1) 6 out c t r
        (sym (decode_wait buffer 0 out d1 (c ∷ t) h1 (omega arith)) ∙ rw s1 at e)

  module _ {c2 d2 : ℕ} (h2 : d2 < 64) (s2 : c2 ≡ alphabet d2) where
    two_end : decode_loop buffer 0 out (c1 ∷ c2 ∷ []) ≡ some r → Decodes out (c1 ∷ c2 ∷ []) r
    two_end e = rw (s1, s2) (two_Decodes buffer d1 d2 h1 h2 out r (rw s2 at (rw s1 at e)))

    third_digit :
        (c : ℕ) (t : Text)
        → decode_loop buffer 0 out (c1 ∷ c2 ∷ c ∷ t) ≡ some r
        → (d : ℕ) × (d < 64) × (c ≡ alphabet d)
    third_digit c t e =
        first_digit _ 4 _ c t r
          (sym (after_two buffer d1 d2 h1 h2 out (c ∷ t)) ∙ rw s2 at (rw s1 at e))

    module _ {c3 d3 : ℕ} (h3 : d3 < 64) (s3 : c3 ≡ alphabet d3) where
      three_end :
          decode_loop buffer 0 out (c1 ∷ c2 ∷ c3 ∷ []) ≡ some r → Decodes out (c1 ∷ c2 ∷ c3 ∷ []) r
      three_end e =
          rw (s1, s2, s3)
            (three_Decodes buffer d1 d2 h1 h2 out d3 h3 r (rw s3 at (rw s2 at (rw s1 at e))))

      fourth_digit :
          (c : ℕ) (t : Text)
          → decode_loop buffer 0 out (c1 ∷ c2 ∷ c3 ∷ c ∷ t) ≡ some r
          → (d : ℕ) × (d < 64) × (c ≡ alphabet d)
      fourth_digit c t e = first_digit _ 2 _ c t r (
          sym (after_three buffer d1 d2 h1 h2 out d3 h3 (c ∷ t)) ∙ rw s3 at (rw s2 at (rw s1 at e)))

      module _ {c4 d4 : ℕ} (h4 : d4 < 64) (s4 : c4 ≡ alphabet d4) (t : Text) where
        abbrev four_bytes : List ℕ
        four_bytes = out ++ (d1 * 4 + d2 / 16) ∷ (d2 % 16 * 16 + d3 / 4) ∷ (d3 % 4 * 64 + d4) ∷ []

        four_rest :
            decode_loop buffer 0 out (c1 ∷ c2 ∷ c3 ∷ c4 ∷ t) ≡ some r
            → decode_loop (next (third_buffer buffer d1 d2 h1 h2 out d3 h3) d4) 0 four_bytes t
              ≡ some r
        four_rest e =
            sym (after_four buffer d1 d2 h1 h2 out d3 h3 d4 h4 t)
            ∙ rw s4 at (rw s3 at (rw s2 at (rw s1 at e)))

        four_end : Decodes four_bytes t r → Decodes out (c1 ∷ c2 ∷ c3 ∷ c4 ∷ t) r
        four_end x = rw (s1, s2, s3, s4) (four_Decodes buffer d1 d2 h1 h2 out d3 h3 d4 h4 t r x)

decode_loop-Decodes :
    (text : Text) (buffer : ℕ) (out r : List ℕ)
    → length text % 4 ≢ 1
    → decode_loop buffer 0 out text ≡ some r
    → Decodes out text r
decode_loop-Decodes [] buffer out r n e =
    ([], end_same buffer out r e ∙ sym (append-nil out), unfold base64url_encode in refl, tt)
decode_loop-Decodes (c1 ∷ []) buffer out r n e = absurd (n refl)
decode_loop-Decodes (c1 ∷ c2 ∷ []) buffer out r n e =
    let (d1, h1, s1) = first_digit buffer 0 out c1 (c2 ∷ []) r e in
    let (d2, h2, s2) = second_digit buffer out r h1 s1 c2 [] e in two_end buffer out r h1 s1 h2 s2 e
decode_loop-Decodes (c1 ∷ c2 ∷ c3 ∷ []) buffer out r n e =
    let (d1, h1, s1) = first_digit buffer 0 out c1 (c2 ∷ c3 ∷ []) r e in
    let (d2, h2, s2) = second_digit buffer out r h1 s1 c2 (c3 ∷ []) e in
    let (d3, h3, s3) = third_digit buffer out r h1 s1 h2 s2 c3 [] e in
    three_end buffer out r h1 s1 h2 s2 h3 s3 e
decode_loop-Decodes (c1 ∷ c2 ∷ c3 ∷ c4 ∷ t) buffer out r n e =
    let (d1, h1, s1) = first_digit buffer 0 out c1 (c2 ∷ c3 ∷ c4 ∷ t) r e in
    let (d2, h2, s2) = second_digit buffer out r h1 s1 c2 (c3 ∷ c4 ∷ t) e in
    let (d3, h3, s3) = third_digit buffer out r h1 s1 h2 s2 c3 (c4 ∷ t) e in
    let (d4, h4, s4) = fourth_digit buffer out r h1 s1 h2 s2 h3 s3 c4 t e in
    four_end buffer out r h1 s1 h2 s2 h3 s3 h4 s4 t (
      decode_loop-Decodes t _ _ r (λ m. n (omega (arith, m)))
        (four_rest buffer out r h1 s1 h2 s2 h3 s3 h4 s4 t e))

-- If a text is decoded, the result is a list of bytes and the text is its encoding: so two texts
-- with one result are the same text.
pub encode-decode :
    (text : Text) (bytes : List ℕ)
    → base64url_decode text ≡ some bytes
    → (base64url_encode bytes ≡ text) × All (λ b. b < 256) bytes
unfolding base64url_decode
encode-decode text bytes e =
    let fits : length text % 4 ≢ 1 = λ n. ground arith in
    let whole : decode_loop 0 0 [] text ≡ some bytes = ground arith in
    let (out, same, f, g) = decode_loop-Decodes text 0 [] bytes fits whole in rw same (f, g)
