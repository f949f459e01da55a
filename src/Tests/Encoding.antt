-- ===== src/Tests/Encoding.antt =====
-- Runs of the base64 encoder and decoder.
use e2f77dee9c9d8e2bfbcafc.Base.{
  ℕ, suc, ◌+◌, ◌<◌, ◌≡◌, refl, arith, List, [], ◌∷◌, none, some, length, ok, Returns, ◌>>=◌,
}
use e2f77dee9c9d8e2bfbcafc.Memory.{Buf, read}
use e2f77dee9c9d8e2bfbcafc.Base64.{encode_base64}
use e2f77dee9c9d8e2bfbcafc.Base64.Decode.{value, decode_base64}
use e2f77dee9c9d8e2bfbcafc.Base64.Symbols.{left_out}
use e2f77dee9c9d8e2bfbcafc.Base64.RoundTrip.{decode_base64-encode_base64}
use e2f77dee9c9d8e2bfbcafc.Base64.Reference.{rfc, encode_base64-rfc}
use e2f77dee9c9d8e2bfbcafc.Tests.{zeros}

-- "Mo@": the last six bits are zero.
abbrev bytes : List ℕ
bytes = 0x6f ∷ 0x40 ∷ []

decode_base64-encode_base64_example :
    Returns (encode_base64 (0x4d ∷ bytes) 4 >>= λ chars. decode_base64 chars zeros 8 16) λ r.
      (b' : Buf) × (n : ℕ) × (r ≡ some (b', n))
      × (n + left_out 1 0x4d bytes ≡ suc (length bytes))
      × (read b' 8 (suc (length bytes)) ≡ 0x4d ∷ bytes)
      × ((j : ℕ) → j < 8 → b' j ≡ 0)
decode_base64-encode_base64_example =
    decode_base64-encode_base64 0x4d bytes zeros 8 4 16 (omega arith) (omega arith) (omega arith)
      (omega arith)

encode_base64-rfc_example : encode_base64 (0x4d ∷ 0x61 ∷ []) 4 ≡ ok (rfc (0x4d ∷ 0x61 ∷ []))
encode_base64-rfc_example =
    encode_base64-rfc 0x4d (0x61 ∷ []) 4 (omega arith) (omega arith) refl (omega arith)

rfc_two : rfc (0x4d ∷ 0x61 ∷ []) ≡ 0x54 ∷ 0x57 ∷ 0x45 ∷ 0x3d ∷ []
unfolding rfc
rfc_two = refl

-- Input that is not base64.
decode_other : decode_base64 (0x54 ∷ 0x2a ∷ []) zeros 0 16 ≡ ok none
unfolding decode_base64 value
decode_other = refl
