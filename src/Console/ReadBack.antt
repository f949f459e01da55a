-- ===== src/Console/ReadBack.antt =====
-- The accessors on a record that was filled in step by step.
use e2f77dee9c9d8e2bfbcafc.Base.{
  ℕ, zero, suc, ◌+◌, ◌%◌, ◌<◌, ◌≤◌, ◌≡◌, ◌⊎◌, inl, inr, refl, sym, ap, ◌∙◌, arith, Bool, true,
  false, ◌∷◌, if◌then◌else◌, bit_or, Returns,
}
use e2f77dee9c9d8e2bfbcafc.Base.Bits.{bit_and-bit_or_flag, bit_and_tnf}
use e2f77dee9c9d8e2bfbcafc.Memory.{Buf, IsByte, read}
use e2f77dee9c9d8e2bfbcafc.Ndef
use e2f77dee9c9d8e2bfbcafc.Ndef.Layout.{rec_contiguous}

read_same :
    (b b' : Buf) (p n : ℕ) → ((j : ℕ) → p ≤ j → j < p + n → b j ≡ b' j) → read b p n ≡ read b' p n
read_same b b' p zero h = refl
read_same b b' p (suc n) h =
    ap (λ x. x ∷ read b (p + 1) n) (h p (omega arith) (omega arith))
    ∙ ap (λ l. b' p ∷ l) (read_same b b' (p + 1) n (λ j k m. h j (omega arith) (omega arith)))

-- The flags of the only record of a message, short or not, and the length of its header.
abbrev pub flags_of : Bool → ℕ
flags_of short = if short then 0xd0 else 0xc0

abbrev pub header_of : Bool → ℕ
header_of short = if short then 3 else 6

pub create_rec_plain :
    (short : Bool) (b : Buf) (p tnf : ℕ)
    → tnf < 8
    → Returns (Ndef.create_rec b p (flags_of short) tnf 0 0 0) λ r.
      (r.1 ≡ header_of short)
      × (Ndef.has_sr (r.0 p) ≡ short)
      × (Ndef.has_il (r.0 p) ≡ false)
      × (r.0 p ≡ bit_or (flags_of short) tnf % 256)
unfolding Ndef.create_rec Ndef.has_sr Ndef.has_il
create_rec_plain true b p tnf h =
    rw (bit_and_tnf tnf h) (ground (arith, bit_and-bit_or_flag 0xd0 tnf))
create_rec_plain false b p tnf h =
    rw (bit_and_tnf tnf h) (ground (arith, bit_and-bit_or_flag 0xc0 tnf))

-- Setting the payload's length changes the header behind its second byte only.
set_payload_len_frame :
    (b : Buf) (p n j : ℕ)
    → (j < p + 2) ⊎ (p + (if Ndef.has_sr (b p) then 3 else 6) ≤ j)
    → Ndef.set_payload_len b p n j ≡ b j
unfolding Ndef.set_payload_len
set_payload_len_frame b p n j h = ground arith

set_payload_len_lem :
    (b : Buf) (p n : ℕ) → IsByte n → Ndef.payload_len (Ndef.set_payload_len b p n) p ≡ n
unfolding Ndef.set_payload_len Ndef.payload_len
set_payload_len_lem b p n h = ground arith

pub header_bounds : (short : Bool) → (3 ≤ header_of short) × (header_of short ≤ 6)
header_bounds true = omega arith
header_bounds false = omega arith

header_sum : (short : Bool) → 1 + 2 + (if short then 0 else 3) + 0 ≡ header_of short
header_sum true = refl
header_sum false = refl

-- What is read back of the last memory, by the facts about each step.
module _ (b₁ b₂ b₄ : Buf) (p off tl ql : ℕ) (short : Bool) (small : tl < 256) (small' : ql < 256)
    (h : off ≡ header_of short) (sr : Ndef.has_sr (b₁ p) ≡ short) (il : Ndef.has_il (b₁ p) ≡ false)
    (f₂ : (j : ℕ) → j < p + off → b₂ j ≡ b₁ j)
    (f₄ : (j : ℕ) → j < p + (off + tl) → b₄ j ≡ Ndef.set_type_len b₂ p tl j) where
  abbrev pub last : Buf
  last = Ndef.set_payload_len b₄ p ql

  type_step : (j : ℕ) → (j < p + 1) ⊎ (p + 2 ≤ j) → Ndef.set_type_len b₂ p tl j ≡ b₂ j
  unfolding Ndef.set_type_len
  type_step j k = ground arith

  before_payload : b₄ p ≡ b₁ p
  before_payload =
      let bounds = header_bounds short in
      f₄ p (omega (arith, bounds, h))
      ∙ type_step p (inl (omega arith))
      ∙ f₂ p (omega (arith, bounds, h))

  room_of : (if Ndef.has_sr (b₄ p) then 3 else 6) ≡ off
  room_of = rw (before_payload, sr) (sym h)

  outside : (j : ℕ) → (j < p + 2) ⊎ (p + off ≤ j) → last j ≡ b₄ j
  outside j k = set_payload_len_frame b₄ p ql j (rw room_of k)

  last_flags : last p ≡ b₁ p
  last_flags = outside p (inl (omega arith)) ∙ before_payload

  last-hdr_len : Ndef.hdr_len last p ≡ off
  unfolding Ndef.hdr_len
  last-hdr_len = rw (last_flags, sr, il) (header_sum short ∙ sym h)

  last-type_len : Ndef.type_len last p ≡ tl
  unfolding Ndef.type_len Ndef.set_type_len
  last-type_len =
      let bounds = header_bounds short in
      outside (p + 1) (inl (omega arith)) ∙ f₄ (p + 1) (omega (arith, bounds, h)) ∙ ground arith

  last-payload_len : Ndef.payload_len last p ≡ ql
  last-payload_len = set_payload_len_lem b₄ p ql small'

  last-id_len : Ndef.id_len last p ≡ 0
  unfolding Ndef.id_len
  last-id_len = rw (last_flags, il) refl

  last-rec_len : Ndef.rec_len last p ≡ off + tl + ql
  unfolding Ndef.rec_len
  last-rec_len = omega (arith, last-hdr_len, last-type_len, last-payload_len, last-id_len)

  last-rec_type : Ndef.rec_type last p ≡ p + off
  last-rec_type = (rec_contiguous last p).0 ∙ ap (λ n. p + n) last-hdr_len

  last-payload : Ndef.payload last p ≡ p + (off + tl)
  last-payload = omega (arith, (rec_contiguous last p).1, last-rec_type, last-type_len)

  last_type : read last (p + off) tl ≡ read b₂ (p + off) tl
  last_type =
      let bounds = header_bounds short in
      read_same last b₂ (p + off) tl λ j k m.
        outside j (inr k)
        ∙ f₄ j (omega (arith, m))
        ∙ type_step j (inr (omega (arith, bounds, h, k)))

  last_bytes : read last (p + (off + tl)) ql ≡ read b₄ (p + (off + tl)) ql
  last_bytes = read_same last b₄ (p + (off + tl)) ql λ j k m. outside j (inr (omega (arith, k)))

  pub read_back :
      (last p ≡ b₁ p)
      × (Ndef.rec_len last p ≡ off + tl + ql)
      × (Ndef.type_len last p ≡ tl)
      × (read last (Ndef.rec_type last p) (Ndef.type_len last p) ≡ read b₂ (p + off) tl)
      × (Ndef.payload_len last p ≡ ql)
      × (read last (Ndef.payload last p) (Ndef.payload_len last p) ≡ read b₄ (p + (off + tl)) ql)
      × (Ndef.id_len last p ≡ 0)
  read_back = (
    last_flags,
    last-rec_len,
    last-type_len,
    ap (λ n. read last (Ndef.rec_type last p) n) last-type_len
        ∙ ap (λ n. read last n tl) last-rec_type
        ∙ last_type,
    last-payload_len,
    ap (λ n. read last (Ndef.payload last p) n) last-payload_len
        ∙ ap (λ n. read last n ql) last-payload
        ∙ last_bytes,
    last-id_len,
  )
