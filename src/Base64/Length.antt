-- ===== src/Base64/Length.antt =====
-- How many characters the encoder stores.
use e2f77dee9c9d8e2bfbcafc.Base.{
  ℕ, zero, suc, ◌+◌, ◌-◌, ◌*◌, ◌/◌, ◌%◌, ◌^◌, ◌≤◌, ◌≡◌, refl, arith, not, List, [], ◌∷◌, ◌++◌,
  length, length-append, ◌==◌, ok, Returns, >>=-Returns, assert-Returns, ap,
}
use e2f77dee9c9d8e2bfbcafc.Base64.{symbol, flush, encode_loop, encode_rest, pad, encode_base64}

-- The characters that the loop stores for `n` bytes, from phase `k` on: the shift is 2, 4, 6, 0.
abbrev pub stored : ℕ → ℕ → ℕ
stored n k = n + (n + k - 1) / 3

abbrev pub shift_of : ℕ → ℕ
shift_of k = (2 * k + 2) % 8

Flushed : ℕ → ℕ → List ℕ × ℕ × ℕ × ℕ → Type 0
Flushed k olen (before, s, r, o) =
    (length before ≡ k / 3) × (s ≡ shift_of (k % 3)) × (o + k / 3 ≡ olen)

flush-Flushed :
    (k rest olen : ℕ) → k ≤ 3 → 1 ≤ olen → Returns (flush (shift_of k) rest olen) (Flushed k olen)
unfolding flush Flushed
flush-Flushed k rest olen h m = ground arith

pub encode_loop-stored :
    (in_bytes : List ℕ) (k rest olen : ℕ)
    → k ≤ 3
    → stored (length in_bytes) k ≤ olen
    → Returns
        (encode_loop in_bytes (shift_of k) rest olen)
        λ r. (length r.0 ≡ stored (length in_bytes) k) × (r.2 + length r.0 ≡ olen)
unfolding encode_loop Flushed
encode_loop-stored [] k rest olen h m = (omega arith, omega arith)
encode_loop-stored (c ∷ cs) k rest olen h m =
    >>=-Returns (flush (shift_of k) rest olen) _ (Flushed k olen) _
      (flush-Flushed k rest olen h (omega arith))
      λ x (e₀, e₁, e₂). assert-Returns (not (x.3 == 0)) _ _ (ground arith) (
        >>=-Returns (encode_loop cs ((x.1 + 2) % 8) (c % 2 ^ x.1 * 2 ^ (6 - x.1)) (x.3 - 1)) _
          (λ r. (length r.0 ≡ stored (length cs) (k % 3 + 1)) × (r.2 + length r.0 ≡ x.3 - 1)) _
          (rw (next x.1 e₁) (
            encode_loop-stored cs (k % 3 + 1) (c % 2 ^ x.1 * 2 ^ (6 - x.1)) (x.3 - 1) (omega arith)
              (omega arith)))
          λ r (f₀, f₁).
            let len : length (x.0 ++ (symbol (x.2 + c / 2 ^ x.1) ∷ r.0))
                ≡ length x.0 + suc (length r.0) =
              length-append x.0 (symbol (x.2 + c / 2 ^ x.1) ∷ r.0) in
            (omega (arith, len), omega (arith, len)))
  where
    next : (s : ℕ) → s ≡ shift_of (k % 3) → (s + 2) % 8 ≡ shift_of (k % 3 + 1)
    next s e = omega arith

pub pad-length : (n olen : ℕ) → n ≤ olen → Returns (pad n olen) (λ p. length p ≡ n)
unfolding pad
pad-length zero olen h = refl
pad-length (suc n) olen h = assert-Returns (not (olen == 0)) _ _ (ground arith) (
    >>=-Returns (pad n (olen - 1)) _ (λ p. length p ≡ n) _ (pad-length n (olen - 1) (omega arith))
      (λ p e. ap suc e))

pub rest-length :
    (rest olen : ℕ)
    → 1 ≤ olen
    → Returns (encode_rest rest olen) (λ r. (length r.0 ≤ 1) × (r.1 + length r.0 ≡ olen))
unfolding encode_rest
rest-length rest olen h = ground arith

-- In a room of at least four characters for every three bytes begun, the encoder ends normally, and
-- it has stored exactly four characters for every three bytes begun, whatever the bytes are.
pub length-encode_base64 :
    (in_bytes : List ℕ) (olen : ℕ)
    → (length in_bytes + 2) / 3 * 4 ≤ olen
    → Returns (encode_base64 in_bytes olen) (λ out. length out ≡ (length in_bytes + 2) / 3 * 4)
unfolding encode_base64 encode_loop encode_rest pad
length-encode_base64 [] olen h = refl
length-encode_base64 (c ∷ cs) olen h =
    >>=-Returns (encode_loop (c ∷ cs) 2 0 olen) _ _ _
      (encode_loop-stored (c ∷ cs) 0 0 olen (omega arith) (omega arith))
      λ x (e₀, e₁).
        >>=-Returns (encode_rest x.1 x.2) _ _ _ (rest-length x.1 x.2 (omega arith)) λ y (f₀, f₁).
          let n : ℕ = (4 - (length x.0 + length y.0) % 4) % 4 in
          >>=-Returns (pad n y.1) _ (λ p. length p ≡ n) _ (pad-length n y.1 (omega arith))
            λ p g.
              let l₀ : length (y.0 ++ p) ≡ length y.0 + length p = length-append y.0 p in
              let l₁ : length (x.0 ++ (y.0 ++ p)) ≡ length x.0 + length (y.0 ++ p) =
                length-append x.0 (y.0 ++ p) in
              omega (arith, l₀, l₁)

-- Three bytes fill four characters, but if the last six bits are zero the encoder pads instead of
-- storing the character for them: the fourth one is '='.
encode_base64_padded :
    (a b c olen : ℕ)
    → c % 64 ≡ 0
    → 4 ≤ olen
    → encode_base64 (a ∷ b ∷ c ∷ []) olen
      ≡ ok
          (symbol (a / 4) ∷ symbol (a % 4 * 16 + b / 16) ∷ symbol (b % 16 * 4 + c / 64) ∷ 0x3d ∷ [])
unfolding encode_base64 encode_loop encode_rest pad flush
encode_base64_padded a b c olen h m = ground arith
