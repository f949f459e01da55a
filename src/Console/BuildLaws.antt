-- ===== src/Console/BuildLaws.antt =====
-- What is read back of a record that the console has built.
use e2f77dee9c9d8e2bfbcafc.Base.{
  ℕ, suc, ◌+◌, ◌*◌, ◌/◌, ◌%◌, ◌^◌, ◌<◌, ◌≤◌, ◌≡◌, refl, sym, ap, ◌∙◌, arith, Bool, true, false,
  some, List, [], ◌∷◌, length, ltb, if◌then◌else◌, bit_or, Result, ok, fault, ◌>>=◌, Returns, All,
}
use e2f77dee9c9d8e2bfbcafc.Memory.{Buf, IsByte, read}
use e2f77dee9c9d8e2bfbcafc.Base64.{encode_base64}
use e2f77dee9c9d8e2bfbcafc.Base64.Decode.{decode_base64}
use e2f77dee9c9d8e2bfbcafc.Base64.Symbols.{left_out}
use e2f77dee9c9d8e2bfbcafc.Base64.RoundTrip.{decode_base64-encode_base64}
use e2f77dee9c9d8e2bfbcafc.Ndef
use e2f77dee9c9d8e2bfbcafc.Re.Link.{size_sub}
use e2f77dee9c9d8e2bfbcafc.Console.Parse.{NdefParam}
use e2f77dee9c9d8e2bfbcafc.Console.Message.{build_id, build_ndef_msg, record_flags}
use e2f77dee9c9d8e2bfbcafc.Console.ReadBack.{
  flags_of, header_of, create_rec_plain, header_bounds, read_back,
}

-- The characters of the console for bytes, none of which the encoder leaves out.
pub record IsEncoded (chars : List ℕ) (x : ℕ) (xs : List ℕ) : Type 0 where
  pub room : ℕ
  pub enough : (length xs + 3) / 3 * 4 ≤ room
  pub encoded : encode_base64 (x ∷ xs) room ≡ ok chars
  pub whole : left_out 1 x xs ≡ 0
  pub byte : IsByte x
  pub bytes : All IsByte xs

Returns_result :
    {A : Type 0} (m : Result A) (P : A → Type 0) → Returns m P → (a : A) × (m ≡ ok a) × P a
Returns_result (ok a) P h = (a, refl, h)
Returns_result (fault e) P h = absurd h

decoded :
    (chars : List ℕ) (x : ℕ) (xs : List ℕ) (b : Buf) (p olen : ℕ)
    → IsEncoded chars x xs
    → length xs + 1 < olen
    → (b' : Buf) × (decode_base64 chars b p olen ≡ ok (some (b', suc (length xs))))
      × (read b' p (suc (length xs)) ≡ x ∷ xs)
      × ((j : ℕ) → j < p → b' j ≡ b j)
decoded chars x xs b p olen e h =
    let (r, run, found) =
      Returns_result (encode_base64 (x ∷ xs) e.room >>= λ cs. decode_base64 cs b p olen) _
        (decode_base64-encode_base64 x xs b p e.room olen e.byte e.bytes e.enough h) in
    let (b', n, same, count, bytes, frame) = found in
    let n_lem : n ≡ suc (length xs) = omega (arith, count, e.whole) in
    (
      b',
      ap (λ m. m >>= λ cs. decode_base64 cs b p olen) (sym e.encoded)
          ∙ run
          ∙ ap ok same
          ∙ ap (λ k. ok (some (b', k))) n_lem,
      bytes,
      frame,
    )

-- The arguments of a record without an id.
abbrev pub plain_record : Bool → ℕ → List ℕ → List ℕ → NdefParam
plain_record short tnf type payload = record {
  flags = if short then 0x10 else 0;
  tnf = tnf;
  type = type;
  id = [];
  payload = payload;
}

record_flags_plain :
    (short : Bool) (tnf : ℕ) (type payload : List ℕ)
    → record_flags (plain_record short tnf type payload) true true ≡ flags_of short
unfolding record_flags
record_flags_plain true tnf type payload = refl
record_flags_plain false tnf type payload = refl

flags_plain : (short : Bool) → Ndef.has_il (flags_of short) ≡ false
unfolding Ndef.has_il
flags_plain true = refl
flags_plain false = refl

-- The steps of the only round.
build_steps :
    (short : Bool) (tnf : ℕ) (type payload : List ℕ) (b b₁ b₂ b₄ : Buf) (p len h m n : ℕ)
    → Ndef.create_rec b p (flags_of short) tnf 0 0 0 ≡ ok (b₁, h)
    → decode_base64 type b₁ (p + (0 + h)) (size_sub len (0 + h)) ≡ ok (some (b₂, m))
    → decode_base64 payload (Ndef.set_type_len b₂ p m) (p + (0 + h + m)) (size_sub len (0 + h + m))
      ≡ ok (some (b₄, n))
    → ltb 255 n ≡ false
    → build_ndef_msg (plain_record short tnf type payload ∷ []) b p len
      ≡ ok (some (Ndef.set_payload_len b₄ p n, 0 + h + m + n))
unfolding build_ndef_msg
build_steps short tnf type payload b b₁ b₂ b₄ p len h m n e₁ e₂ e₄ long =
    let here : p + 0 ≡ p = omega arith in
    let flags = record_flags_plain short tnf type payload in
    rw (here, flags, e₁)
      (rw e₂ (rw (here, flags, build_id) (rw (flags_plain short) (rw e₄ (rw (long, here) refl)))))

module _ (short : Bool) (tnf : ℕ) (type : List ℕ) (t : ℕ) (ts : List ℕ) (payload : List ℕ) (q : ℕ)
    (qs : List ℕ) (b : Buf) (p len : ℕ) (named : tnf < 8) (type_encoded : IsEncoded type t ts)
    (payload_encoded : IsEncoded payload q qs) (type_small : length ts < 255)
    (payload_small : length qs < 255) (room : length ts + length qs + 9 < len)
    (len_small : len < 2 ^ 64) where
  -- The memory after each step, and the offset of the type.
  Built : Type 0
  Built =
      (b₁ b₂ b₄ : Buf) × (off : ℕ) × (off ≡ header_of short)
      × (build_ndef_msg (plain_record short tnf type payload ∷ []) b p len
          ≡ ok (
              some (
                Ndef.set_payload_len b₄ p (suc (length qs)),
                off + suc (length ts) + suc (length qs),
              )))
      × (Ndef.has_sr (b₁ p) ≡ short)
      × (Ndef.has_il (b₁ p) ≡ false)
      × (b₁ p ≡ bit_or (flags_of short) tnf % 256)
      × (read b₂ (p + off) (suc (length ts)) ≡ t ∷ ts)
      × ((j : ℕ) → j < p + off → b₂ j ≡ b₁ j)
      × (read b₄ (p + (off + suc (length ts))) (suc (length qs)) ≡ q ∷ qs)
      × ((j : ℕ)
          → j < p + (off + suc (length ts))
          → b₄ j ≡ Ndef.set_type_len b₂ p (suc (length ts)) j)

  built : Built
  unfolding Built build_ndef_msg
  built =
      let (r, e₁, made) =
        Returns_result (Ndef.create_rec b p (flags_of short) tnf 0 0 0) _
          (create_rec_plain short b p tnf named) in
      let (h₁, sr, il, fl) = made in
      let bounds = header_bounds short in
      let off : ℕ = 0 + r.1 in
      let tl : ℕ = suc (length ts) in
      let ql : ℕ = suc (length qs) in
      let (b₂, e₂, t₂, f₂) =
        decoded type t ts r.0 (p + off) (size_sub len off) type_encoded
          (omega (arith, h₁, bounds)) in
      let b₃ : Buf = Ndef.set_type_len b₂ p tl in
      let (b₄, e₄, t₄, f₄) =
        decoded payload q qs b₃ (p + (off + tl)) (size_sub len (off + tl)) payload_encoded
          (omega (arith, h₁, bounds)) in
      let path =
        build_steps short tnf type payload b r.0 b₂ b₄ p len r.1 tl ql e₁ e₂ e₄ (ground arith) in
      (r.0, b₂, b₄, off, omega (arith, h₁), path, sr, il, fl, t₂, f₂, t₄, f₄)

  -- A record without an id, in its short or its long form, whose type and payload have at most 255
  -- bytes each and are given by characters of the encoder that leave none out, is built in a room of
  -- ten bytes more than the two have together. The message is as long as `ndef_rec_len` says, its
  -- flags are those of the only record with the TNF, and the accessors give back the type, the
  -- payload and no id.
  pub build_ndef_msg_plain :
      (b' : Buf) × (build_ndef_msg (plain_record short tnf type payload ∷ []) b p len
        ≡ ok (some (b', Ndef.rec_len b' p)))
      × (b' p ≡ bit_or (flags_of short) tnf % 256)
      × (Ndef.type_len b' p ≡ suc (length ts))
      × (read b' (Ndef.rec_type b' p) (Ndef.type_len b' p) ≡ t ∷ ts)
      × (Ndef.payload_len b' p ≡ suc (length qs))
      × (read b' (Ndef.payload b' p) (Ndef.payload_len b' p) ≡ q ∷ qs)
      × (Ndef.id_len b' p ≡ 0)
  unfolding Built
  build_ndef_msg_plain =
      let (b₁, b₂, b₄, off, h, path, sr, il, fl, t₂, f₂, t₄, f₄) = built in
      let b' : Buf = Ndef.set_payload_len b₄ p (suc (length qs)) in
      let (flags, size, len_t, bytes_t, len_p, bytes_p, len_i) =
        read_back b₁ b₂ b₄ p off (suc (length ts)) (suc (length qs)) short (omega arith)
          (omega arith) h sr il f₂ f₄ in
      (
        b',
        path ∙ ap (λ n. ok (some (b', n))) (sym size),
        flags ∙ fl,
        len_t,
        bytes_t ∙ t₂,
        len_p,
        bytes_p ∙ t₄,
        len_i,
      )
