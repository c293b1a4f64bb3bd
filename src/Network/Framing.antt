-- ===== src/Network/Framing.antt =====
-- framework/network/src/core/byte_buffer.cpp and framework/network/src/codec/length_field_codec.cpp: the
-- frames of a byte stream. A byte is a number below 256; in a buffer whose
-- offset is within its storage (`IsBuffer`) the difference of the two does not wrap around.
pub mod Buffer
pub mod Frames
mod Tests
use realm_mesh.Prelude.{
  ℕ, ◌+◌, ◌-◌, ◌*◌, ◌/◌, ◌%◌, ◌^◌, List, [], ◌∷◌, ◌++◌, Bool, ◌||◌, ltb, ◌==◌, if◌then◌else◌,
  length, take, drop, Result, ok, err, out_of_range, length_error, ◌>>=◌,
}

pub record ByteBuffer : Type 0 where
  pub storage : List ℕ
  pub read_offset : ℕ

unfoldable pub append : ByteBuffer → List ℕ → ByteBuffer
append b bytes = record b { storage = b.storage ++ bytes }

unfoldable pub readable_bytes : ByteBuffer → ℕ
readable_bytes b = length b.storage - b.read_offset

unfoldable pub empty : ByteBuffer → Bool
unfolding readable_bytes
empty b = readable_bytes b == 0

unfoldable pub readable_data : ByteBuffer → List ℕ
unfolding empty
readable_data b = if empty b then [] else drop b.read_offset b.storage

unfoldable pub clear : ByteBuffer → ByteBuffer
clear b = record { storage = []; read_offset = 0 }

unfoldable pub compact_if_needed : ByteBuffer → ByteBuffer
compact_if_needed b =
    if ltb b.read_offset 4096 || ltb b.read_offset (length b.storage / 2)
    then b
    else record { storage = drop b.read_offset b.storage; read_offset = 0 }

unfoldable pub consume : ByteBuffer → ℕ → Result ByteBuffer
unfolding readable_bytes clear compact_if_needed
consume b byte_count =
    if ltb (readable_bytes b) byte_count
    then err out_of_range
    else if b.read_offset + byte_count == length b.storage
    then ok (clear b)
    else ok (compact_if_needed (record b { read_offset = b.read_offset + byte_count }))

pub data DecodeStatus : Type 0 where
  frame_ready need_more_data frame_too_large : DecodeStatus

pub record DecodeResult : Type 0 where
  pub status : DecodeStatus
  pub payload : List ℕ

abbrev pub header_size : ℕ
header_size = 4

-- The loop over the bytes of the header, from the length read so far. The shift leaves the low byte
-- free, so that the disjunction is a sum.
pub decode_length : ℕ → List ℕ → ℕ
decode_length length [] = length
decode_length length (value ∷ header) = decode_length ((length * 256 + value) % 2 ^ 32) header

pub encode : ℕ → List ℕ → Result (List ℕ)
encode max_payload_size payload =
    let n = length payload in
    if ltb max_payload_size n || ltb 4_294_967_295 n
    then err length_error
    else ok (n / 2 ^ 24 % 256 ∷ n / 2 ^ 16 % 256 ∷ n / 2 ^ 8 % 256 ∷ n % 256 ∷ payload)

abbrev pub no_payload : DecodeStatus → DecodeResult
no_payload status = record { status = status; payload = [] }

pub try_decode : ℕ → ByteBuffer → Result (ByteBuffer × DecodeResult)
unfolding readable_data decode_length consume
try_decode max_payload_size b =
    let bytes = readable_data b in
    let payload_size = decode_length 0 (take header_size bytes) in
    if ltb (length bytes) header_size
    then ok (b, no_payload need_more_data)
    else if ltb max_payload_size payload_size
    then ok (b, no_payload frame_too_large)
    else if ltb (length bytes) (header_size + payload_size)
    then ok (b, no_payload need_more_data)
    else consume b (header_size + payload_size) >>= λ rest. ok (
      rest,
      record { status = frame_ready; payload = take payload_size (drop header_size bytes) },
    )
