-- ===== src/Base64Url/Tests.antt =====
-- Runs of the codec, and its theorems at concrete inputs.
use realm_mesh.Prelude.{ℕ, ◌<◌, ◌≡◌, refl, List, [], ◌∷◌, arith, some, none, All, codes}
use realm_mesh.Base64Url.{base64url_encode, base64url_decode}
use realm_mesh.Base64Url.RoundTrip.{decode-encode}
use realm_mesh.Base64Url.Canonical.{encode-decode}

abbrev bytes : List ℕ
bytes = 0 ∷ 255 ∷ 16 ∷ 131 ∷ []

encoded : base64url_encode bytes ≡ codes "AP8Qgw"
unfolding base64url_encode
encoded = refl

decoded : base64url_decode (codes "AP8Qgw") ≡ some bytes
unfolding base64url_decode
decoded = refl

-- Left-over bits that are not zero, a length that fits no bytes, and a character outside the alphabet.
not_canonical : base64url_decode (codes "AP8Qgx") ≡ none
unfolding base64url_decode
not_canonical = refl

bad_length : base64url_decode (codes "AP8Qg") ≡ none
unfolding base64url_decode
bad_length = refl

padded : base64url_decode (codes "AP8Qgw==") ≡ none
unfolding base64url_decode
padded = refl

decode-encode_example : base64url_decode (base64url_encode bytes) ≡ some bytes
decode-encode_example = decode-encode bytes (omega arith)

encode-decode_example : (base64url_encode bytes ≡ codes "AP8Qgw") × All (λ b. b < 256) bytes
encode-decode_example = encode-decode (codes "AP8Qgw") bytes decoded
