-- ===== src/Ndef/Fields.antt =====
-- The length fields of a record: setting them, and what `ndef_create_rec` stores.
use e2f77dee9c9d8e2bfbcafc.Base.{ℕ, ◌/◌, ◌^◌, ◌<◌, ◌≡◌, true, arith, Returns}
use Prim.Native.Nat.{bit_and}
use e2f77dee9c9d8e2bfbcafc.Base.Bits.{bit_and-bit_or_flag, bit_and_tnf}
use e2f77dee9c9d8e2bfbcafc.Memory.{Buf, IsByte}
use e2f77dee9c9d8e2bfbcafc.Ndef.{
  has_sr, has_il, create_rec, type_len, set_type_len, payload_len, set_payload_len, id_len,
  set_id_len,
}

-- In a record with an id field, of either form, the three setters in the order in which a record
-- is filled leave the flags alone, and every length reads back as it was set.
pub lengths-set :
    (b : Buf) (p tlen plen ilen : ℕ)
    → has_il (b p) ≡ true
    → IsByte tlen
    → IsByte plen
    → IsByte ilen
    → Returns (set_id_len (set_payload_len (set_type_len b p tlen) p plen) p ilen) λ b'.
      (b' p ≡ b p) × (type_len b' p ≡ tlen) × (payload_len b' p ≡ plen) × (id_len b' p ≡ ilen)
unfolding type_len set_type_len payload_len set_payload_len id_len set_id_len
lengths-set b p tlen plen ilen il ht hp hi = ground arith

-- A short record, as `ndef_create_rec` leaves it, has the type length and the flags that were
-- given, and its payload length reads back as the top byte of the one that was given: the code
-- fills in the long header for a short record.
pub create_rec_short :
    (b : Buf) (p flags tnf tlen plen ilen : ℕ)
    → IsByte flags
    → bit_and flags 0x07 ≡ 0
    → tnf < 8
    → has_sr flags ≡ true
    → IsByte tlen
    → plen < 2 ^ 32
    → Returns (create_rec b p flags tnf tlen plen ilen) λ r.
      (has_sr (r.0 p) ≡ true)
      × (has_il (r.0 p) ≡ has_il flags)
      × (type_len r.0 p ≡ tlen)
      × (payload_len r.0 p ≡ plen / 2 ^ 24)
unfolding create_rec type_len payload_len has_sr has_il
create_rec_short b p flags tnf tlen plen ilen hf hm hn sr ht hp =
    rw (hm, bit_and_tnf tnf hn) (ground (arith, bit_and-bit_or_flag flags tnf))
