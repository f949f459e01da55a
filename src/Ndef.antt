-- ===== src/Ndef.antt =====
-- NDEF records: src/ndef.c, src/ndef.h. A record lies in memory at an offset `p`: `flags` there and
-- `data` behind it. A pointer that the code returns is an offset too.
pub mod Layout
pub mod Fields
use e2f77dee9c9d8e2bfbcafc.Base.{
  ℕ, ◌+◌, ◌-◌, ◌%◌, Bool, not, bit_and, bit_or, ◌==◌, if◌then◌else◌, Result, ok, ◌>>=◌, ◌>>◌,
  assert,
}
use e2f77dee9c9d8e2bfbcafc.Memory.{Buf, poke, write}
use e2f77dee9c9d8e2bfbcafc.Bswap.{cpu_to_be32, be32_to_cpu}

-- `flags & NDEF_FLAG_SR` and `flags & NDEF_FLAG_IL` as truth values.
unfoldable pub has_sr : ℕ → Bool
has_sr flags = not (bit_and flags 0x10 == 0)

unfoldable pub has_il : ℕ → Bool
has_il flags = not (bit_and flags 0x08 == 0)

unfoldable pub hdr_len : Buf → ℕ → ℕ
hdr_len b p = 1 + 2 + (if has_sr (b p) then 0 else 3) + (if has_il (b p) then 1 else 0)

-- The memory after the call, and the result. `plen` is a `uint32_t`, `tlen` and `ilen` are bytes.
unfoldable pub create_rec : Buf → ℕ → ℕ → ℕ → ℕ → ℕ → ℕ → Result (Buf × ℕ)
unfolding hdr_len
create_rec b p flags tnf tlen plen ilen = do
  assert (bit_and flags 0x07 == 0)
  assert (bit_and tnf 0xf8 == 0)
  let b₁ = poke b p (bit_or flags tnf)
  let long = write (poke b₁ (p + 1) tlen) (p + 2) (cpu_to_be32 plen)
  let short = poke (poke b₁ (p + 1) tlen) (p + 2) plen
  let b₂ =
      if has_sr flags
      then (if has_il flags then poke long (p + 6) ilen else long)
      else (if has_il flags then poke short (p + 3) ilen else short)
  ok (b₂, hdr_len b₂ p)

unfoldable pub type_len : Buf → ℕ → ℕ
type_len b p = b (p + 1)

unfoldable pub set_type_len : Buf → ℕ → ℕ → Buf
set_type_len b p tlen = poke b (p + 1) tlen

-- 6 is `sizeof(struct ndef_rec_fields)`.
unfoldable pub type_off : Buf → ℕ → ℕ
type_off b p = 6 - (if has_sr (b p) then 3 else 0) - (if has_il (b p) then 0 else 1)

-- `ndef_rec_type` and `ndef_rec_const_type`
unfoldable pub rec_type : Buf → ℕ → ℕ
unfolding type_off
rec_type b p = p + 1 + type_off b p

unfoldable pub payload_len : Buf → ℕ → ℕ
payload_len b p = if has_sr (b p) then b (p + 2) else be32_to_cpu b (p + 2)

-- `plen` is a `uint8_t` here.
unfoldable pub set_payload_len : Buf → ℕ → ℕ → Buf
set_payload_len b p plen =
    if has_sr (b p) then poke b (p + 2) plen else write b (p + 2) (cpu_to_be32 (plen % 256))

unfoldable pub payload_off : Buf → ℕ → ℕ
unfolding type_off type_len
payload_off b p = type_off b p + type_len b p

unfoldable pub payload : Buf → ℕ → ℕ
unfolding payload_off
payload b p = p + 1 + payload_off b p

unfoldable pub id_len : Buf → ℕ → ℕ
id_len b p = if not (has_il (b p)) then 0 else (if has_sr (b p) then b (p + 3) else b (p + 6))

unfoldable pub set_id_len : Buf → ℕ → ℕ → Result Buf
set_id_len b p ilen = do
  assert (has_il (b p))
  ok (if has_sr (b p) then poke b (p + 3) ilen else poke b (p + 6) ilen)

unfoldable pub id_off : Buf → ℕ → ℕ
unfolding payload_off payload_len
id_off b p = payload_off b p + payload_len b p

-- `ndef_rec_id` and `ndef_rec_const_id`
unfoldable pub rec_id : Buf → ℕ → ℕ
unfolding id_off
rec_id b p = p + 1 + id_off b p

unfoldable pub rec_len : Buf → ℕ → ℕ
unfolding hdr_len type_len payload_len id_len
rec_len b p = hdr_len b p + type_len b p + payload_len b p + id_len b p
