-- ===== src/Network/Framing/Frames.antt =====
-- The frames of length_field_codec.cpp through a buffer.
use realm_mesh.Prelude.{
  ℕ, zero, suc, ◌+◌, ◌*◌, ◌/◌, ◌%◌, ◌^◌, ◌≤◌, ◌<◌, ◌≡◌, refl, sym, ◌∙◌, ap, inl, inr, List, [], ◌∷◌,
  ◌++◌, ltb, ◌||◌, length, drop, take, length-append, ok, Bool-cases, arith,
}
use realm_mesh.Network.Framing.{
  ByteBuffer, readable_data, consume, frame_ready, need_more_data, header_size, decode_length,
  encode, no_payload, try_decode,
}
use realm_mesh.Network.Framing.Buffer.{IsBuffer, consume_lem, drop-drop}

abbrev header_of : ℕ → List ℕ
header_of n = n / 2 ^ 24 % 256 ∷ n / 2 ^ 16 % 256 ∷ n / 2 ^ 8 % 256 ∷ n % 256 ∷ []

decode_length-header : (n : ℕ) → n < 2 ^ 32 → decode_length 0 (header_of n) ≡ n
unfolding decode_length
decode_length-header n h = omega arith

take-length : (xs ys : List ℕ) → take (length xs) (xs ++ ys) ≡ xs
take-length [] ys = refl
take-length (x ∷ xs) ys = ap (λ l. x ∷ l) (take-length xs ys)

drop-length : (xs ys : List ℕ) → drop (length xs) (xs ++ ys) ≡ ys
drop-length [] ys = refl
drop-length (x ∷ xs) ys = drop-length xs ys

-- A frame is accepted exactly if it is the header and the payload, within the limit.
encode_inv :
    (limit : ℕ) (payload frame : List ℕ)
    → encode limit payload ≡ ok frame
    → (length payload ≤ limit)
      × (length payload < 2 ^ 32)
      × (frame ≡ header_of (length payload) ++ payload)
unfolding encode
encode_inv limit payload frame e =
    elim (Bool-cases (ltb limit (length payload) || ltb 4_294_967_295 (length payload))) [
      | inl long ↦ ground arith
      | inr fits ↦ (ground arith, ground arith, ground arith)
    ]

encode_run :
    (limit : ℕ) (payload : List ℕ)
    → length payload ≤ limit
    → length payload < 2 ^ 32
    → encode limit payload ≡ ok (header_of (length payload) ++ payload)
unfolding encode
encode_run limit payload h k = ground arith

-- A run of the decoder that finds a whole frame.
decode_run :
    (limit n : ℕ) (b c : ByteBuffer) (bytes : List ℕ)
    → readable_data b ≡ bytes
    → header_size ≤ length bytes
    → decode_length 0 (take header_size bytes) ≡ n
    → n ≤ limit
    → header_size + n ≤ length bytes
    → consume b (header_size + n) ≡ ok c
    → try_decode limit b
      ≡ ok (c, record { status = frame_ready; payload = take n (drop header_size bytes) })
unfolding try_decode
decode_run limit n b c bytes e h0 l h1 h2 f = rw (e, l) (ground (arith, f))

-- If `encode` accepts a payload and a buffer starts with the frame, `try_decode`, under the same limit, does
-- not throw and gives the payload, and the buffer keeps what stands behind the frame.
pub try_decode-encode :
    (limit : ℕ) (payload frame rest : List ℕ) (b : ByteBuffer)
    → IsBuffer b
    → encode limit payload ≡ ok frame
    → readable_data b ≡ frame ++ rest
    → (c : ByteBuffer) × (try_decode limit b
        ≡ ok (c, record { status = frame_ready; payload = payload }))
      × IsBuffer c
      × (readable_data c ≡ rest)
try_decode-encode limit payload frame rest b h e r =
    let (short, small, shape) = encode_inv limit payload frame e in
    let n = length payload in
    let all = r ∙ ap (λ l. l ++ rest) shape in
    let size = ap length all ∙ length-append (header_of n ++ payload) rest in
    let (c, run, valid, left) = consume_lem b (header_size + n) h (omega (arith, size)) in
    (
      c,
      decode_run limit n b c (header_of n ++ payload ++ rest) all (omega arith)
            (decode_length-header n small) short (omega (arith, length-append payload rest)) run
          ∙ ap (λ l. ok (c, record { status = frame_ready; payload = l }))
              (take-length payload rest),
      valid,
      left
          ∙ ap (drop (header_size + n)) all
          ∙ drop-drop header_size n (header_of n ++ payload ++ rest)
          ∙ drop-length payload rest,
    )

take-append : (n : ℕ) (xs ys : List ℕ) → n ≤ length xs → take n (xs ++ ys) ≡ take n xs
take-append zero xs ys h = refl
take-append (suc n) [] ys h = elim h [ ]
take-append (suc n) (x ∷ xs) ys h = ap (λ l. x ∷ l) (take-append n xs ys (omega arith))

-- As long as the buffer holds a part of a frame that `encode` wrote, and not all of it, `try_decode`,
-- under the same limit, asks for more and changes nothing.
pub try_decode_part :
    (limit byte : ℕ) (payload part more : List ℕ) (b : ByteBuffer)
    → encode limit payload ≡ ok (part ++ byte ∷ more)
    → readable_data b ≡ part
    → try_decode limit b ≡ ok (b, no_payload need_more_data)
unfolding try_decode
try_decode_part limit byte payload part more b e r =
    let (short, small, shape) = encode_inv limit payload (part ++ byte ∷ more) e in
    let n = length payload in
    let size = length-append part (byte ∷ more) in
    let whole = ap length shape in
    elim (Bool-cases (ltb (length part) header_size)) [
      | inl none_yet ↦ rw (r, none_yet) refl
      | inr header ↦
          let read : decode_length 0 (take header_size part) ≡ n =
            ap (decode_length 0) (
              sym (take-append header_size part (byte ∷ more) (ground arith))
              ∙ ap (take header_size) shape)
            ∙ decode_length-header n small in
          rw (r, read) (ground (arith, size, whole))
    ]

decode_length_eq :
    (a b c d : ℕ)
    → a < 256
    → b < 256
    → c < 256
    → d < 256
    → decode_length 0 (a ∷ b ∷ c ∷ d ∷ []) ≡ a * 16777216 + b * 65536 + c * 256 + d
unfolding decode_length
decode_length_eq a b c d ha hb hc hd = omega arith

header_of_eq :
    (a b c d n : ℕ)
    → a < 256
    → b < 256
    → c < 256
    → d < 256
    → n ≡ a * 16777216 + b * 65536 + c * 256 + d
    → header_of n ≡ a ∷ b ∷ c ∷ d ∷ []
header_of_eq a b c d n ha hb hc hd e =
    let e0 : n / 2 ^ 24 % 256 ≡ a = omega arith in
    let e1 : n / 2 ^ 16 % 256 ≡ b = omega arith in
    let e2 : n / 2 ^ 8 % 256 ≡ c = omega arith in let e3 : n % 256 ≡ d = omega arith in cc
