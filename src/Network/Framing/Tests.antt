-- ===== src/Network/Framing/Tests.antt =====
-- Frames through a buffer, and the theorems at concrete inputs.
use realm_mesh.Prelude.{◌≡◌, refl, [], ◌∷◌, ◌++◌, ok, err, length_error, arith}
use realm_mesh.Network.Framing.{
  ByteBuffer, readable_data, encode, try_decode, frame_ready, need_more_data, no_payload,
}
use realm_mesh.Network.Framing.Buffer.{IsBuffer}
use realm_mesh.Network.Framing.Frames.{try_decode-encode, try_decode_part}

-- One byte is consumed; a frame of two bytes and the first byte of another are not.
abbrev buffer : ByteBuffer
buffer = record { storage = 9 ∷ 0 ∷ 0 ∷ 0 ∷ 2 ∷ 104 ∷ 105 ∷ 0 ∷ []; read_offset = 1 }

too_long : encode 1 (104 ∷ 105 ∷ []) ≡ err length_error
unfolding encode
too_long = refl

framed : encode 2 (104 ∷ 105 ∷ []) ≡ ok (0 ∷ 0 ∷ 0 ∷ 2 ∷ 104 ∷ 105 ∷ [])
unfolding encode
framed = refl

readable : readable_data buffer ≡ (0 ∷ 0 ∷ 0 ∷ 2 ∷ 104 ∷ 105 ∷ []) ++ 0 ∷ []
unfolding readable_data
readable = refl

try_decode-encode_example :
    (c : ByteBuffer) × (try_decode 2 buffer
      ≡ ok (c, record { status = frame_ready; payload = 104 ∷ 105 ∷ [] }))
    × IsBuffer c
    × (readable_data c ≡ 0 ∷ [])
try_decode-encode_example =
    try_decode-encode 2 (104 ∷ 105 ∷ []) (0 ∷ 0 ∷ 0 ∷ 2 ∷ 104 ∷ 105 ∷ []) (0 ∷ []) buffer
      (omega arith) framed readable

abbrev short : ByteBuffer
short = record { storage = 0 ∷ 0 ∷ 0 ∷ 2 ∷ 104 ∷ []; read_offset = 0 }

short_data : readable_data short ≡ 0 ∷ 0 ∷ 0 ∷ 2 ∷ 104 ∷ []
unfolding readable_data
short_data = refl

try_decode_part_example : try_decode 2 short ≡ ok (short, no_payload need_more_data)
try_decode_part_example =
    try_decode_part 2 105 (104 ∷ 105 ∷ []) (0 ∷ 0 ∷ 0 ∷ 2 ∷ 104 ∷ []) [] short framed short_data
