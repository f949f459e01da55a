-- ===== src/Base64/RoundTrip.antt =====
-- The decoder on what the encoder stores.
use e2f77dee9c9d8e2bfbcafc.Base.{
  ℕ, zero, suc, not, false, ◌||◌, ◌+◌, ◌-◌, ◌*◌, ◌/◌, ◌≤◌, ◌<◌, ◌≡◌, ◌≢◌, refl, ap, ◌∙◌, arith,
  Option, some, List, [], ◌∷◌, ◌++◌, length, replicate, ◌==◌, if◌then◌else◌, Bool-cases, inl, inr,
  Result, ok, ◌>>=◌, Returns, assert-Returns, >>=-Returns, Returns_map, All,
}
use e2f77dee9c9d8e2bfbcafc.Memory.{Buf, IsByte, poke, read}
use e2f77dee9c9d8e2bfbcafc.Base64.{symbol, encode_base64}
use e2f77dee9c9d8e2bfbcafc.Base64.Decode.{Decoder, next, decode_round, decode_loop, decode_base64}
use e2f77dee9c9d8e2bfbcafc.Base64.Rounds.{
  decode_loop-padding, hi, at, start, finish, cross_1, cross_2,
}
use e2f77dee9c9d8e2bfbcafc.Base64.Symbols.{
  symbols, low, left_out, ending, tail, encode_base64-symbols,
}

-- The bytes stand in the memory from `p` on, and nothing before them has changed.
Decoded : Buf → ℕ → ℕ → ℕ → List ℕ → Option Decoder → Type 0
Decoded b p l short bytes r =
    (d : Decoder) × (r ≡ some d)
    × (d.len + short ≡ l + length bytes)
    × (read (d.buf) p (length bytes) ≡ bytes)
    × ((j : ℕ) → j < p → d.buf j ≡ b j)

-- The rounds from one that completes the byte `c` at `p` on.
Decoded-later :
    (b b' : Buf) (p l short c : ℕ) (bytes : List ℕ) (m : Result (Option Decoder))
    → IsByte c
    → b' p ≡ c
    → ((j : ℕ) → j < p → b' j ≡ b j)
    → Returns m (Decoded b' (p + 1) (l + 1) short bytes)
    → Returns m (Decoded b p l short (c ∷ bytes))
unfolding Decoded
Decoded-later b b' p l short c bytes m h e f r = Returns_map m _ _ r λ o (d, q, n, t, u).
    (d, q, omega arith, ground (arith, u p (omega arith)), λ j k. u j (omega arith) ∙ f j k)

-- The end, where only padding follows.
Decoded-end :
    (n : ℕ) (d : Decoder) (b : Buf) (p l short c : ℕ)
    → d.buf p ≡ c
    → ((j : ℕ) → j < p → d.buf j ≡ b j)
    → d.len + short ≡ l + 1
    → Returns (decode_loop (replicate n 0x3d) d) (Decoded b p l short (c ∷ []))
unfolding Decoded
Decoded-end n d b p l short c e f g =
    rw (decode_loop-padding n d) (d, refl, g, ap (λ x. x ∷ []) e, f)

-- The characters for the last bits, if there are any.
ending-Decoded :
    (k c n : ℕ) (b b' : Buf) (p olen l : ℕ) (s olen' p' : ℕ)
    → b p ≡ hi k c
    → (low k c ≡ 0 → hi k c ≡ c)
    → (low k c ≢ 0
        → decode_round (symbol (low k c)) (at k b p olen l)
          ≡ ok (next (record { shift = s; buf = b'; out = p'; olen = olen'; len = l + 1 })))
    → b' p ≡ c
    → ((j : ℕ) → j < p → b' j ≡ b j)
    → Returns
        (decode_loop (ending (low k c) ++ replicate n 0x3d) (at k b p olen l))
        (Decoded b p l (if low k c == 0 then 1 else 0) (c ∷ []))
unfolding decode_loop
ending-Decoded k c n b b' p olen l s olen' p' e z r g f = elim (Bool-cases (low k c == 0)) [
  | inl q ↦
      rw q (Decoded-end n (at k b p olen l) b p l 1 c (e ∙ z (ground arith)) (λ j h. refl) refl)
  | inr q ↦
      let d' : Decoder = record { shift = s; buf = b'; out = p'; olen = olen'; len = l + 1 } in
      rw (q, r (ground arith)) (Decoded-end n d' b p l 0 c g f (omega arith))
]

decode_loop-tail :
    (xs : List ℕ) (k c n : ℕ) (b : Buf) (p olen l : ℕ)
    → 1 ≤ k
    → k ≤ 3
    → IsByte c
    → All IsByte xs
    → b p ≡ hi k c
    → length xs + 1 < olen
    → Returns
        (decode_loop (tail k c xs ++ replicate n 0x3d) (at k b p olen l))
        (Decoded b p l (left_out k c xs) (c ∷ xs))
unfolding decode_loop
decode_loop-tail [] (suc zero) c n b p olen l h m i a e o =
    ending-Decoded 1 c n b (poke (poke b p c) (p + 1) (low 1 c * 16)) p olen l 4 (olen - 1) (p + 1)
      e (λ q. omega arith) (λ q. cross_1 c (low 1 c) b p olen l i (omega arith) (omega arith) e o)
      (ground arith) (λ j q. ground arith)
decode_loop-tail [] (suc (suc zero)) c n b p olen l h m i a e o =
    ending-Decoded 2 c n b (poke (poke b p c) (p + 1) (low 2 c * 64)) p olen l 6 (olen - 1) (p + 1)
      e (λ q. omega arith) (λ q. cross_2 c (low 2 c) b p olen l i (omega arith) (omega arith) e o)
      (ground arith) (λ j q. ground arith)
decode_loop-tail [] (suc (suc (suc zero))) c n b p olen l h m i a e o =
    ending-Decoded 3 c n b (poke b p c) p olen l 0 (olen - 1) (p + 1) e (λ q. omega arith)
      (λ q. finish c b p olen l i e (omega arith)) (ground arith) (λ j q. ground arith)
decode_loop-tail (x ∷ xs) (suc zero) c n b p olen l h m i a e o =
    let v : ℕ = low 1 c + x / 16 in
    let b' : Buf = poke (poke b p c) (p + 1) (v * 16) in
    rw (cross_1 c v b p olen l i (ground arith) (ground arith) e (omega arith)) (
      Decoded-later b b' p l (left_out 2 x xs) c (x ∷ xs) _ i (ground arith) (λ j q. ground arith)
        (decode_loop-tail xs 2 x n b' (p + 1) (olen - 1) (l + 1) (omega arith) (omega arith) (a.0)
          (a.1) (ground arith) (omega arith)))
decode_loop-tail (x ∷ xs) (suc (suc zero)) c n b p olen l h m i a e o =
    let v : ℕ = low 2 c + x / 64 in
    let b' : Buf = poke (poke b p c) (p + 1) (v * 64) in
    rw (cross_2 c v b p olen l i (ground arith) (ground arith) e (omega arith)) (
      Decoded-later b b' p l (left_out 3 x xs) c (x ∷ xs) _ i (ground arith) (λ j q. ground arith)
        (decode_loop-tail xs 3 x n b' (p + 1) (olen - 1) (l + 1) (omega arith) (omega arith) (a.0)
          (a.1) (ground arith) (omega arith)))
decode_loop-tail (x ∷ xs) (suc (suc (suc zero))) c n b p olen l h m i a e o =
    let b' : Buf = poke (poke b p c) (p + 1) (x / 4 * 4) in
    rw
      (
        finish c b p olen l i e (omega arith),
        start (x / 4) (poke b p c) (p + 1) (olen - 1) (l + 1) (ground arith) (omega arith),
      )
      (Decoded-later b b' p l (left_out 1 x xs) c (x ∷ xs) _ i (ground arith) (λ j q. ground arith)
        (decode_loop-tail xs 1 x n b' (p + 1) (olen - 1) (l + 1) (omega arith) (omega arith) (a.0)
          (a.1) (ground arith) (omega arith)))
decode_loop-tail xs (suc (suc (suc (suc k)))) c n b p olen l h m i a e o = absurd (omega arith)
decode_loop-tail xs zero c n b p olen l h m i a e o = absurd (omega arith)

-- For at least one byte, in a room of four characters for every three bytes begun and of one byte
-- more than there are: decoding what the encoder has stored ends normally, all bytes stand in the
-- memory from `p` on, what lies before it is unchanged, and the result is the number of the bytes, or
-- one less exactly when the last bits to be encoded are zero.
pub decode_base64-encode_base64 :
    (x : ℕ) (xs : List ℕ) (b : Buf) (p room olen : ℕ)
    → IsByte x
    → All IsByte xs
    → (length xs + 3) / 3 * 4 ≤ room
    → length xs + 1 < olen
    → Returns (encode_base64 (x ∷ xs) room >>= λ chars. decode_base64 chars b p olen) λ r.
      (b' : Buf) × (n : ℕ) × (r ≡ some (b', n))
      × (n + left_out 1 x xs ≡ suc (length xs))
      × (read b' p (suc (length xs)) ≡ x ∷ xs)
      × ((j : ℕ) → j < p → b' j ≡ b j)
unfolding decode_base64 decode_loop Decoded
decode_base64-encode_base64 x xs b p room olen h a m o =
    let c₁ : Buf = poke b p (x / 4 * 4) in
    let room_lem : (olen == 0) ≡ false = ground arith in
    >>=-Returns (encode_base64 (x ∷ xs) room) _ _ _ (encode_base64-symbols x xs room m)
      λ chars (n, e). rw e (
        assert-Returns (not (olen == 0) || length (symbols x xs ++ replicate n 0x3d) == 0) _ _
          (rw room_lem refl)
          (rw (start (x / 4) b p olen 0 (ground arith) (omega arith)) (
            >>=-Returns (decode_loop (tail 1 x xs ++ replicate n 0x3d) (at 1 c₁ p olen 0)) _
              (Decoded c₁ p 0 (left_out 1 x xs) (x ∷ xs)) _
              (decode_loop-tail xs 1 x n c₁ p olen 0 (omega arith) (omega arith) h a (ground arith)
                o)
              λ r (d, q, l, t, f).
                (d.buf, d.len, rw q refl, omega (arith, l), t, λ j k. f j k ∙ ground arith))))
