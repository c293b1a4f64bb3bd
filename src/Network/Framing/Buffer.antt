-- ===== src/Network/Framing/Buffer.antt =====
-- A buffer against the list of the bytes that are not consumed.
use realm_mesh.Prelude.{
  ℕ, zero, suc, ◌+◌, ◌-◌, ◌≤◌, ◌||◌, ◌/◌, ◌≡◌, refl, sym, ◌∙◌, ap, inl, inr, List, [], ◌∷◌, ◌++◌,
  false, ltb, ◌==◌, length, drop, length-append, length-drop, ok, Bool-cases, arith,
}
use realm_mesh.Network.Framing.{
  ByteBuffer, append, readable_bytes, empty, readable_data, consume, clear, compact_if_needed,
}

pub drop_all : (n : ℕ) (xs : List ℕ) → length xs ≤ n → drop n xs ≡ []
drop_all zero [] h = refl
drop_all zero (x ∷ xs) h = elim h [ ]
drop_all (suc n) [] h = refl
drop_all (suc n) (x ∷ xs) h = drop_all n xs (omega arith)

pub drop-append : (n : ℕ) (xs ys : List ℕ) → n ≤ length xs → drop n (xs ++ ys) ≡ drop n xs ++ ys
drop-append zero xs ys h = refl
drop-append (suc n) [] ys h = elim h [ ]
drop-append (suc n) (x ∷ xs) ys h = drop-append n xs ys (omega arith)

drop_nil : (n : ℕ) → drop {A = ℕ} n [] ≡ []
drop_nil zero = refl
drop_nil (suc n) = refl

pub suc_add : (m n : ℕ) → suc m + n ≡ suc (m + n)
suc_add m n = omega arith

pub drop-drop : (m n : ℕ) (xs : List ℕ) → drop (m + n) xs ≡ drop n (drop m xs)
drop-drop zero n xs = ap (λ k. drop k xs) (omega arith)
drop-drop (suc m) n [] = drop_nil (suc m + n) ∙ sym (drop_nil n)
drop-drop (suc m) n (x ∷ xs) = ap (λ k. drop k (x ∷ xs)) (suc_add m n) ∙ drop-drop m n xs

abbrev pub IsBuffer : ByteBuffer → Type 0
IsBuffer b = b.read_offset ≤ length b.storage

pub readable_eq : (b : ByteBuffer) → readable_data b ≡ drop b.read_offset b.storage
unfolding readable_data empty readable_bytes
readable_eq b = elim (Bool-cases (length b.storage - b.read_offset == 0)) [
  | inl none_left ↦ rw none_left (sym (drop_all b.read_offset b.storage (ground arith)))
  | inr some_left ↦ rw some_left refl
]

pub length-readable : (b : ByteBuffer) → length (readable_data b) ≡ length b.storage - b.read_offset
length-readable b = ap length (readable_eq b) ∙ length-drop b.read_offset b.storage

-- What is appended is read behind what the buffer had.
pub append-readable :
    (b : ByteBuffer) (bytes : List ℕ)
    → IsBuffer b
    → readable_data (append b bytes) ≡ readable_data b ++ bytes
unfolding append
append-readable b bytes h =
    readable_eq (append b bytes)
    ∙ drop-append b.read_offset b.storage bytes h
    ∙ ap (λ l. l ++ bytes) (sym (readable_eq b))

compact-readable :
    (b : ByteBuffer)
    → IsBuffer b
    → IsBuffer (compact_if_needed b)
      × (readable_data (compact_if_needed b) ≡ drop b.read_offset b.storage)
unfolding compact_if_needed
compact-readable b h =
    elim (Bool-cases (ltb b.read_offset 4096 || ltb b.read_offset (length b.storage / 2))) [
      | inl keep ↦ rw keep (h, readable_eq b)
      | inr move ↦ rw move (
        omega arith,
        readable_eq (record { storage = drop b.read_offset b.storage; read_offset = 0 }),
      )
    ]

-- A buffer gives its bytes from the front and keeps the others, whether it moves them or not.
pub consume_lem :
    (b : ByteBuffer) (n : ℕ)
    → IsBuffer b
    → n ≤ length (readable_data b)
    → (c : ByteBuffer) × (consume b n ≡ ok c)
      × IsBuffer c
      × (readable_data c ≡ drop n (readable_data b))
unfolding consume clear readable_bytes
consume_lem b n h fits =
    let room = length-readable b in
    let rest = ap (drop n) (readable_eq b) ∙ sym (drop-drop b.read_offset n b.storage) in
    let enough : ltb (length b.storage - b.read_offset) n ≡ false = ground (arith, room) in
    elim (Bool-cases (b.read_offset + n == length b.storage)) [
      | inl last ↦ (
        clear b,
        rw (enough, last) refl,
        omega arith,
        readable_eq (clear b) ∙ sym (rest ∙ drop_all (b.read_offset + n) b.storage (ground arith)),
      )
      | inr more ↦
          let moved = record b { read_offset = b.read_offset + n } in
          let kept = compact-readable moved (omega (arith, room)) in
          (compact_if_needed moved, rw (enough, more) refl, kept.0, kept.1 ∙ sym rest)
    ]

pub append-IsBuffer : (b : ByteBuffer) (bytes : List ℕ) → IsBuffer b → IsBuffer (append b bytes)
unfolding append
append-IsBuffer b bytes h = omega (arith, length-append b.storage bytes, h)
