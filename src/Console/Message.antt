-- ===== src/Console/Message.antt =====
-- NDEF messages built from the arguments of a command, and printed: `build_ndef_msg`,
-- `create_snep_cp` and `nfc_recv_process_ndef_cb` of src/cmdline.c.
use e2f77dee9c9d8e2bfbcafc.Base.{
  ℕ, zero, suc, ◌+◌, ◌-◌, ◌%◌, Bool, true, false, ◌&&◌, Option, none, some, List, [], ◌∷◌, ltb,
  if◌then◌else◌, bit_and, bit_or, Result, ok, ◌>>=◌,
}
use e2f77dee9c9d8e2bfbcafc.Memory.{Buf, read}
use e2f77dee9c9d8e2bfbcafc.Base64.{encode_base64}
use e2f77dee9c9d8e2bfbcafc.Base64.Decode.{decode_base64}
use e2f77dee9c9d8e2bfbcafc.Ndef
use e2f77dee9c9d8e2bfbcafc.Snep.{create_req_put}
use e2f77dee9c9d8e2bfbcafc.Re.Link.{size_sub}
use e2f77dee9c9d8e2bfbcafc.Re.Send.{CreateSnep}
use e2f77dee9c9d8e2bfbcafc.Console.{is_empty}
use e2f77dee9c9d8e2bfbcafc.Console.Parse.{NdefParam}

-- The flags of a record; MB and ME mark the first and the last one.
unfoldable pub record_flags : NdefParam → Bool → Bool → ℕ
unfolding is_empty
record_flags param first last =
    bit_or (bit_or (bit_or (param.flags) (if first then 0x80 else 0)) (if last then 0x40 else 0))
      (if is_empty param.id then 0 else 0x08)
    % 256

-- A field of a record at `p + off`: the memory, and the number of its bytes.
unfoldable pub decode_field : List ℕ → Buf → ℕ → ℕ → ℕ → Result (Option (Buf × ℕ))
unfolding decode_base64
decode_field chars b p off len = decode_base64 chars b (p + off) (size_sub len off)

-- The payload, and the length that is set; a long one in a short record is refused.
unfoldable pub build_payload : NdefParam → ℕ → Buf → ℕ → ℕ → ℕ → ℕ → Result (Option (Buf × ℕ))
unfolding decode_field
build_payload param flags b p at off len = do
  r ← decode_field param.payload b p off len
  ok (elim r [
    | none ↦ none
    | some (b₁, n) ↦
        if ltb 255 n && Ndef.has_sr flags
        then none
        else some (Ndef.set_payload_len b₁ (p + at) n, off + n)
  ])

-- The id, if the flags announce one, and the payload behind it.
unfoldable pub build_id : NdefParam → ℕ → Buf → ℕ → ℕ → ℕ → ℕ → Result (Option (Buf × ℕ))
unfolding build_payload decode_field
build_id param flags b p at off len =
    if Ndef.has_il flags
    then (do
      r ← decode_field param.id b p off len
      elim r [
        | none ↦ ok none
        | some (b₁, n) ↦ do
          b₂ ← Ndef.set_id_len b₁ (p + at) n
          build_payload param flags b₂ p at (off + n) len
      ])
    else build_payload param flags b p at off len

-- One round of the loop: a record at `p + at`, and the offset behind it. `none` is the result -1.
unfoldable pub build_record : NdefParam → Bool → Bool → Buf → ℕ → ℕ → ℕ → Result (Option (Buf × ℕ))
unfolding record_flags decode_field build_id
build_record param first last b p at len = do
  let flags = record_flags param first last
  (b₁, n) ← Ndef.create_rec b (p + at) flags param.tnf 0 0 0
  let off = at + n
  r ← decode_field param.type b₁ p off len
  elim r [
    | none ↦ ok none
    | some (b₂, m) ↦ build_id param flags (Ndef.set_type_len b₂ (p + at) m) p at (off + m) len
  ]

unfoldable pub is_last : List NdefParam → Bool
is_last [] = true
is_last (x ∷ xs) = false

unfoldable pub build_from : List NdefParam → Bool → Buf → ℕ → ℕ → ℕ → Result (Option (Buf × ℕ))
unfolding build_record is_last
build_from [] first b p off len = ok (some (b, off))
build_from (param ∷ params) first b p off len = do
  r ← build_record param first (is_last params) b p off len
  elim r [ none ↦ ok none | some (b', off') ↦ build_from params false b' p off' len ]

-- The message at offset `p` of `b`, in a room of `len` bytes: the memory and the length.
unfoldable pub build_ndef_msg : List NdefParam → Buf → ℕ → ℕ → Result (Option (Buf × ℕ))
unfolding build_from
build_ndef_msg params b p len = build_from params true b p 0 len

-- The callback that puts the message into a SNEP request; `sizeof(struct snep)` is 6. What a failed
-- build leaves in the buffer is `left`.
unfoldable pub create_snep_cp : List NdefParam → Buf → CreateSnep
unfolding build_ndef_msg create_req_put
create_snep_cp params left room b p = do
  r ← build_ndef_msg params b (p + 6) (size_sub room 6)
  ok (elim r [
    | none ↦ (left, none)
    | some (b₁, n) ↦ let (b₂, size) = create_req_put b₁ p n in (b₂, some size)
  ])

-- What is printed of a record.
pub record Printed : Type 0 where
  pub tnf : ℕ
  pub type : List ℕ
  pub id : List ℕ
  pub payload : List ℕ

unfoldable pub print_record : Buf → ℕ → Result Printed
unfolding encode_base64
print_record b p = do
  type ← encode_base64 (read b (Ndef.rec_type b p) (Ndef.type_len b p)) 512
  id ← encode_base64 (read b (Ndef.rec_id b p) (Ndef.id_len b p)) 512
  payload ← encode_base64 (read b (Ndef.payload b p) (Ndef.payload_len b p)) 512
  ok (record { tnf = bit_and (b p) 0x07; type = type; id = id; payload = payload })

-- The loop over the `remain` bytes from `p` on: what is printed, and false for the result -1. Each
-- round takes at least three bytes, so fuel of `remain` is enough.
unfoldable pub process_ndef : ℕ → ℕ → Buf → ℕ → Result (List Printed × Bool)
unfolding print_record
process_ndef fuel zero b p = ok ([], true)
process_ndef zero (suc remain) b p = ok ([], false)
process_ndef (suc fuel) (suc remain) b p = do
  printed ← print_record b p
  let n = Ndef.rec_len b p
  (rest, done) ← (elim (ltb (suc remain) n) [
    | true ↦ ok ([], false)
    | false ↦ process_ndef fuel (suc remain - n) b (p + n)
  ])
  ok (printed ∷ rest, done)

unfoldable pub recv_process_ndef : ℕ → Buf → Result (List Printed × Bool)
unfolding process_ndef
recv_process_ndef len b = process_ndef len len b 0
