-- ===== src/Base64Url/RoundTrip.antt =====
-- The decoder of base64url.cpp on what the encoder writes.
use realm_mesh.Prelude.{
  ℕ, ◌+◌, ◌-◌, ◌*◌, ◌/◌, ◌%◌, ◌^◌, ◌≤◌, ◌<◌, ◌≡◌, ◌≢◌, refl, ap, ◌∙◌, List, [], ◌∷◌, ◌++◌, arith,
  some, Text, length, All,
}
use mathlib.Core.List.{append_assoc, append-nil}
use realm_mesh.Base64Url.{
  alphabet, alphabet_index, sextet, base64url_encode, decode_loop, base64url_decode,
}

-- The index of each character of the alphabet.
pub alphabet_index-alphabet : (i : ℕ) → i < 64 → alphabet_index (alphabet i) ≡ some i
unfolding alphabet alphabet_index
alphabet_index-alphabet i h = ground arith

abbrev pub next : ℕ → ℕ → ℕ
next buffer digit = (buffer * 64 + digit) % 2 ^ 32

module _ (buffer p : ℕ) (out : List ℕ) (d : ℕ) (t : Text) (h : d < 64) where
  pub decode_wait :
      p + 6 < 8
      → decode_loop buffer p out (alphabet d ∷ t) ≡ decode_loop (next buffer d) (p + 6) out t
  unfolding decode_loop
  decode_wait k = ground (arith, alphabet_index-alphabet d h)

  pub decode_emit :
      8 ≤ p + 6
      → decode_loop buffer p out (alphabet d ∷ t)
        ≡ decode_loop
            (next buffer d)
            (p + 6 - 8)
            (out ++ next buffer d / 2 ^ (p + 6 - 8) % 256 ∷ [])
            t
  unfolding decode_loop
  decode_emit k = ground (arith, alphabet_index-alphabet d h)

-- The end of the text, with no bit left over.
pub decode_end :
    (buffer p : ℕ) (out : List ℕ) → buffer % 2 ^ p ≡ 0 → decode_loop buffer p out [] ≡ some out
unfolding decode_loop
decode_end buffer p out h = ground arith

pub append_three :
    (out : List ℕ) {x y z a b c : ℕ}
    → x ≡ a
    → y ≡ b
    → z ≡ c
    → ((out ++ x ∷ []) ++ y ∷ []) ++ z ∷ [] ≡ out ++ a ∷ b ∷ c ∷ []
append_three out e f g = rw (e, f, g) (simp append_assoc)

-- Four characters for three bytes.
decode_group :
    (buffer a b c : ℕ) (out : List ℕ) (t : Text)
    → a < 256
    → b < 256
    → c < 256
    → let group = a * 65536 + b * 256 + c in
      (buffer' : ℕ) × (decode_loop buffer 0 out (
          alphabet (sextet group 18)
          ∷ alphabet (sextet group 12)
          ∷ alphabet (sextet group 6)
          ∷ alphabet (sextet group 0)
          ∷ t)
        ≡ decode_loop buffer' 0 (out ++ a ∷ b ∷ c ∷ []) t)
decode_group buffer a b c out t ha hb hc =
    let g = a * 65536 + b * 256 + c in
    let b1 = next buffer (sextet g 18) in
    let b2 = next b1 (sextet g 12) in
    let b3 = next b2 (sextet g 6) in
    let b4 = next b3 (sextet g 0) in
    let e2 : b2 / 2 ^ 4 % 256 ≡ a = omega arith in
    let e3 : b3 / 2 ^ 2 % 256 ≡ b = omega arith in
    let e4 : b4 / 2 ^ 0 % 256 ≡ c = omega arith in
    (
      b4,
      decode_wait buffer 0 out (sextet g 18) _ (omega arith) (omega arith)
          ∙ decode_emit b1 6 out (sextet g 12) _ (omega arith) (omega arith)
          ∙ decode_emit b2 4 _ (sextet g 6) _ (omega arith) (omega arith)
          ∙ decode_emit b3 2 _ (sextet g 0) _ (omega arith) (omega arith)
          ∙ ap (λ o. decode_loop b4 0 o t) (append_three out e2 e3 e4),
    )

decode_two :
    (buffer a b : ℕ) (out : List ℕ)
    → a < 256
    → b < 256
    → let value = a * 256 + b in
      decode_loop buffer 0 out
        (alphabet (sextet value 10) ∷ alphabet (sextet value 4) ∷ alphabet (value * 4 % 64) ∷ [])
      ≡ some (out ++ a ∷ b ∷ [])
decode_two buffer a b out ha hb =
    let v = a * 256 + b in
    let b1 = next buffer (sextet v 10) in
    let b2 = next b1 (sextet v 4) in
    let b3 = next b2 (v * 4 % 64) in
    let e2 : b2 / 2 ^ 4 % 256 ≡ a = omega arith in
    let e3 : b3 / 2 ^ 2 % 256 ≡ b = omega arith in
    let rest : b3 % 2 ^ 2 ≡ 0 = omega arith in
    decode_wait buffer 0 out (sextet v 10) _ (omega arith) (omega arith)
    ∙ decode_emit b1 6 out (sextet v 4) _ (omega arith) (omega arith)
    ∙ decode_emit b2 4 _ (v * 4 % 64) [] (omega arith) (omega arith)
    ∙ decode_end b3 2 _ rest
    ∙ ap some (rw (e2, e3) (simp append_assoc))

decode_one :
    (buffer a : ℕ) (out : List ℕ)
    → a < 256
    → decode_loop buffer 0 out (alphabet (sextet a 2) ∷ alphabet (a * 16 % 64) ∷ [])
      ≡ some (out ++ a ∷ [])
decode_one buffer a out ha =
    let b1 = next buffer (sextet a 2) in
    let b2 = next b1 (a * 16 % 64) in
    let e2 : b2 / 2 ^ 4 % 256 ≡ a = omega arith in
    let rest : b2 % 2 ^ 4 ≡ 0 = omega arith in
    decode_wait buffer 0 out (sextet a 2) _ (omega arith) (omega arith)
    ∙ decode_emit b1 6 out (a * 16 % 64) [] (omega arith) (omega arith)
    ∙ decode_end b2 4 _ rest
    ∙ ap some (rw e2 refl)

decode_loop-encode :
    (bytes : List ℕ) (buffer : ℕ) (out : List ℕ)
    → All (λ b. b < 256) bytes
    → decode_loop buffer 0 out (base64url_encode bytes) ≡ some (out ++ bytes)
unfolding base64url_encode
decode_loop-encode [] buffer out h = unfold decode_loop in rw append-nil
decode_loop-encode (a ∷ []) buffer out (ha, _) = decode_one buffer a out ha
decode_loop-encode (a ∷ b ∷ []) buffer out (ha, (hb, _)) = decode_two buffer a b out ha hb
decode_loop-encode (a ∷ b ∷ c ∷ bytes) buffer out (ha, (hb, (hc, h))) =
    let (next', e) = decode_group buffer a b c out (base64url_encode bytes) ha hb hc in
    e
    ∙ decode_loop-encode bytes next' (out ++ a ∷ b ∷ c ∷ []) h
    ∙ ap some (append_assoc out (a ∷ b ∷ c ∷ []) bytes)

-- The length of an encoding: four characters for three bytes, and one more than the bytes of the
-- remainder. So no encoding has a length that leaves one character over.
pub length-encode : (bytes : List ℕ) → length (base64url_encode bytes) ≡ (length bytes * 4 + 2) / 3
unfolding base64url_encode
length-encode [] = refl
length-encode (a ∷ []) = refl
length-encode (a ∷ b ∷ []) = refl
length-encode (a ∷ b ∷ c ∷ bytes) = omega (arith, length-encode bytes)

-- Every list of bytes is decoded from its encoding.
pub decode-encode :
    (bytes : List ℕ)
    → All (λ b. b < 256) bytes
    → base64url_decode (base64url_encode bytes) ≡ some bytes
unfolding base64url_decode
decode-encode bytes h =
    let fits : length (base64url_encode bytes) % 4 ≢ 1 = omega (arith, length-encode bytes) in
    ground (arith, fits, decode_loop-encode bytes 0 [] h)
