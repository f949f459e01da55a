-- ===== src/Base64/Rounds.antt =====
-- The rounds of the decoder on the characters for six bits and on padding.
use e2f77dee9c9d8e2bfbcafc.Base.{
  ℕ, zero, suc, ◌+◌, ◌-◌, ◌*◌, ◌/◌, ◌%◌, ◌^◌, ◌<◌, ◌≡◌, refl, ap, ◌∙◌, arith, not, ◌&&◌, some,
  replicate, ◌==◌, true, false, bit_or, ok, ◌>>=◌,
}
use e2f77dee9c9d8e2bfbcafc.Base.Bits.{bit_or-add_4, bit_or-add_16, bit_or-add_64}
use e2f77dee9c9d8e2bfbcafc.Memory.{Buf, IsByte, poke}
use e2f77dee9c9d8e2bfbcafc.Base64.{symbol}
use e2f77dee9c9d8e2bfbcafc.Base64.Decode.{
  Decoder, next, value, take_value, decode_round, decode_loop,
}
use e2f77dee9c9d8e2bfbcafc.Base64.Symbols.{low}

value-symbol :
    (v : ℕ) → v < 64 → (value (symbol v) ≡ v) × ((v == 0 && not (symbol v == 0x41)) ≡ false)
unfolding value symbol
value-symbol v h = ground arith

-- A round on one of the 64 characters.
decode_round-symbol :
    (v : ℕ) (d : Decoder)
    → v < 64
    → d.shift % 2 ≡ 0
    → 0 < d.olen
    → decode_round (symbol v) d ≡ (take_value v d >>= λ d'. ok (next d'))
unfolding decode_round
decode_round-symbol v d h s o =
    let (e, f) = value-symbol v h in
    let g : (v == 0xff) ≡ false = ground arith in
    let s' : (d.shift % 2 == 0) ≡ true = ground arith in
    let o' : (d.olen == 0) ≡ false = ground arith in rw (e, g, f, s', o') refl

-- A round on the padding.
pub decode_loop-padding : (n : ℕ) (d : Decoder) → decode_loop (replicate n 0x3d) d ≡ ok (some d)
unfolding decode_loop decode_round value
decode_loop-padding zero d = refl
decode_loop-padding (suc n) d = refl

-- The bits of a byte that are stored while `k` pairs are pending, and the decoder there.
abbrev pub hi : ℕ → ℕ → ℕ
hi k c = c / 2 ^ (2 * k) * 2 ^ (2 * k)

abbrev pub at : ℕ → Buf → ℕ → ℕ → ℕ → Decoder
at k b p olen l = record { shift = 2 * k; buf = b; out = p; olen = olen; len = l }

pub start :
    (v : ℕ) (b : Buf) (p olen l : ℕ)
    → v < 64
    → 0 < olen
    → decode_round (symbol v) (at 0 b p olen l) ≡ ok (next (at 1 (poke b p (v * 4)) p olen l))
unfolding take_value
start v b p olen l h o = decode_round-symbol v (at 0 b p olen l) h refl o

pub finish :
    (c : ℕ) (b : Buf) (p olen l : ℕ)
    → IsByte c
    → b p ≡ hi 3 c
    → 0 < olen
    → decode_round (symbol (low 3 c)) (at 3 b p olen l)
      ≡ ok (next (at 0 (poke b p c) (p + 1) (olen - 1) (l + 1)))
unfolding take_value
finish c b p olen l h e o =
    let f : bit_or (b p) (low 3 c) ≡ c =
      ap (λ x. bit_or x (low 3 c)) e
      ∙ ap (λ y. bit_or (c / 64 * 64) y) (omega arith)
      ∙ bit_or-add_64 (c / 64) (c % 64) (omega arith) (omega arith)
      ∙ omega arith in
    decode_round-symbol (low 3 c) (at 3 b p olen l) (omega arith) refl o ∙ rw f refl

pub cross_1 :
    (c v : ℕ) (b : Buf) (p olen l : ℕ)
    → IsByte c
    → v < 64
    → v / 16 ≡ c % 4
    → b p ≡ hi 1 c
    → 1 < olen
    → decode_round (symbol v) (at 1 b p olen l)
      ≡ ok (next (at 2 (poke (poke b p c) (p + 1) (v * 16)) (p + 1) (olen - 1) (l + 1)))
unfolding take_value
cross_1 c v b p olen l h k q e o =
    let f : bit_or (b p) (v / 16) ≡ c =
      ap (λ x. bit_or x (v / 16)) e
      ∙ ap (λ z. bit_or (c / 4 * 4) z) q
      ∙ bit_or-add_4 (c / 4) (c % 4) (omega arith) (omega arith)
      ∙ omega arith in
    let room : (olen - 1 == 0) ≡ false = ground arith in
    decode_round-symbol v (at 1 b p olen l) k refl (omega arith) ∙ rw (f, room) refl

pub cross_2 :
    (c v : ℕ) (b : Buf) (p olen l : ℕ)
    → IsByte c
    → v < 64
    → v / 4 ≡ c % 16
    → b p ≡ hi 2 c
    → 1 < olen
    → decode_round (symbol v) (at 2 b p olen l)
      ≡ ok (next (at 3 (poke (poke b p c) (p + 1) (v * 64)) (p + 1) (olen - 1) (l + 1)))
unfolding take_value
cross_2 c v b p olen l h k q e o =
    let f : bit_or (b p) (v / 4) ≡ c =
      ap (λ x. bit_or x (v / 4)) e
      ∙ ap (λ z. bit_or (c / 16 * 16) z) q
      ∙ bit_or-add_16 (c / 16) (c % 16) (omega arith) (omega arith)
      ∙ omega arith in
    let room : (olen - 1 == 0) ≡ false = ground arith in
    decode_round-symbol v (at 2 b p olen l) k refl (omega arith) ∙ rw (f, room) refl
