-- ===== src/Ndef/Layout.antt =====
-- Where the parts of a record lie.
use e2f77dee9c9d8e2bfbcafc.Base.{ℕ, ◌+◌, ◌≡◌, arith}
use e2f77dee9c9d8e2bfbcafc.Memory.{Buf}
use e2f77dee9c9d8e2bfbcafc.Ndef.{
  hdr_len, rec_type, type_len, payload, payload_len, rec_id, id_len, rec_len,
}

-- Whatever its flags and length fields are, a record is made of header, type, payload and id, in
-- this order and with no gap, and `ndef_rec_len` is where the id ends.
pub rec_contiguous :
    (b : Buf) (p : ℕ)
    → (rec_type b p ≡ p + hdr_len b p)
      × (payload b p ≡ rec_type b p + type_len b p)
      × (rec_id b p ≡ payload b p + payload_len b p)
      × (p + rec_len b p ≡ rec_id b p + id_len b p)
unfolding rec_type payload rec_id rec_len
rec_contiguous b p = ground arith
