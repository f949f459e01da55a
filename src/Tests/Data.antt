-- ===== src/Tests/Data.antt =====
-- Runs of the NDEF, the PDU and the base64 functions.
use e2f77dee9c9d8e2bfbcafc.Base.{
  ℕ, List, length, ◌/◌, ◌^◌, ◌*◌, ◌+◌, ◌≡◌, inr, refl, arith, [], ◌∷◌, true, Returns,
}
use e2f77dee9c9d8e2bfbcafc.Memory.{Buf}
use e2f77dee9c9d8e2bfbcafc.Ndef.{
  has_sr, has_il, hdr_len, create_rec, rec_type, type_len, set_type_len, payload, payload_len,
  set_payload_len, rec_id, id_len, set_id_len, rec_len,
}
use e2f77dee9c9d8e2bfbcafc.Ndef.Layout.{rec_contiguous}
use e2f77dee9c9d8e2bfbcafc.Ndef.Fields.{lengths-set, create_rec_short}
use e2f77dee9c9d8e2bfbcafc.Llcp.{create_pdu, pdu_dsap, pdu_ssap, pdu_ptype, ptype_i}
use e2f77dee9c9d8e2bfbcafc.Llcp.Header.{create_pdu_fields}
use e2f77dee9c9d8e2bfbcafc.Base64.{encode_base64}
use e2f77dee9c9d8e2bfbcafc.Base64.Length.{length-encode_base64}
use e2f77dee9c9d8e2bfbcafc.Tests.{zeros, packet}

-- A short record of type "T" with a payload of three bytes and an id of two.
abbrev short : Buf
short = packet (0x19 ∷ 1 ∷ 3 ∷ 2 ∷ 0x54 ∷ 2 ∷ 0x65 ∷ 0x6e ∷ 0x61 ∷ 0x62 ∷ [])

rec_contiguous_example :
    (rec_type short 0 ≡ 0 + hdr_len short 0)
    × (payload short 0 ≡ rec_type short 0 + type_len short 0)
    × (rec_id short 0 ≡ payload short 0 + payload_len short 0)
    × (0 + rec_len short 0 ≡ rec_id short 0 + id_len short 0)
rec_contiguous_example = rec_contiguous short 0

lengths-set_example :
    Returns
      (set_id_len (set_payload_len (set_type_len short 0 7) 0 200) 0 9)
      λ b'. (b' 0 ≡ short 0) × (type_len b' 0 ≡ 7) × (payload_len b' 0 ≡ 200) × (id_len b' 0 ≡ 9)
unfolding has_il
lengths-set_example = lengths-set short 0 7 200 9 refl (omega arith) (omega arith) (omega arith)

create_rec_short_example : Returns (create_rec zeros 4 0xd8 1 5 3 2) λ r.
    (has_sr (r.0 4) ≡ true)
    × (has_il (r.0 4) ≡ has_il 0xd8)
    × (type_len r.0 4 ≡ 5)
    × (payload_len r.0 4 ≡ 3 / 2 ^ 24)
unfolding has_sr
create_rec_short_example =
    create_rec_short zeros 4 0xd8 1 5 3 2 (omega arith) refl (omega arith) refl (omega arith)
      (omega arith)

create_pdu_fields_example :
    let (b', len) = create_pdu zeros 3 4 ptype_i 32 in
    (pdu_dsap b' 3 ≡ 4)
    × (pdu_ptype b' 3 ≡ ptype_i)
    × (pdu_ssap b' 3 ≡ 32)
    × (len ≡ 2)
    × (b' 5 ≡ zeros 5)
create_pdu_fields_example =
    create_pdu_fields zeros 3 4 ptype_i 32 5 (omega arith) (omega arith) (omega arith)
      (inr (omega arith))

abbrev man : List ℕ
man = 0x4d ∷ 0x61 ∷ 0x6e ∷ 0x21 ∷ []

length-encode_base64_example :
    Returns (encode_base64 man 8) (λ out. length out ≡ (length man + 2) / 3 * 4)
length-encode_base64_example = length-encode_base64 man 8 (omega arith)
