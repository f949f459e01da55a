-- ===== src/Base64/Symbols.antt =====
-- The encoder without its counters: the characters for a pending byte and the bytes behind it.
use e2f77dee9c9d8e2bfbcafc.Base.{
  ℕ, zero, suc, ◌+◌, ◌-◌, ◌*◌, ◌/◌, ◌%◌, ◌^◌, ◌≤◌, ◌≡◌, refl, sym, ap, ◌∙◌, arith, false, not, List,
  [], ◌∷◌, ◌++◌, length, replicate, ◌==◌, if◌then◌else◌, assert, ◌>>=◌, ◌>>◌, ok, Returns,
  >>=-Returns, assert-Returns, Returns_both,
}
use mathlib.Core.List.{append_assoc}
use e2f77dee9c9d8e2bfbcafc.Base64.{symbol, flush, encode_loop, encode_rest, pad, encode_base64}
use e2f77dee9c9d8e2bfbcafc.Base64.Length.{stored, shift_of, encode_loop-stored, rest-length}

-- The bits of a byte that are still to be stored, where they stand in the next character: `k` pairs
-- of bits are pending.
abbrev pub low : ℕ → ℕ → ℕ
low k c = c % 2 ^ (2 * k) * 2 ^ (6 - 2 * k)

abbrev pub ending : ℕ → List ℕ
ending rest = if rest == 0 then [] else symbol rest ∷ []

-- The characters behind the first one for `c`, of which `k` pairs of bits are pending, and for the
-- bytes behind it.
abbrev pub tail : ℕ → ℕ → List ℕ → List ℕ
tail k c [] = ending (low k c)
tail (suc zero) c (x ∷ xs) = symbol (low 1 c + x / 16) ∷ tail 2 x xs
tail (suc (suc zero)) c (x ∷ xs) = symbol (low 2 c + x / 64) ∷ tail 3 x xs
tail _ c (x ∷ xs) = symbol (low 3 c) ∷ symbol (x / 4) ∷ tail 1 x xs

-- How many characters the encoder leaves out at the end: one, if the last bits are zero.
abbrev pub left_out : ℕ → ℕ → List ℕ → ℕ
left_out k c [] = if low k c == 0 then 1 else 0
left_out k c (x ∷ xs) = left_out (k % 3 + 1) x xs

-- One round that stores one character.
one :
    (x : ℕ) (xs : List ℕ) (k v olen : ℕ)
    → 1 ≤ olen
    → Returns
        (encode_loop xs (shift_of k) (low k x) (olen - 1))
        (λ r. r.0 ++ ending r.1 ≡ tail k x xs)
    → Returns {A = List ℕ × ℕ × ℕ}
        (assert (not (olen == 0))
          >> (encode_loop xs (shift_of k) (low k x) (olen - 1) >>= λ r. ok (v ∷ r.0, r.1, r.2)))
        (λ r. r.0 ++ ending r.1 ≡ v ∷ tail k x xs)
one x xs k v olen h e = assert-Returns (not (olen == 0)) _ _ (ground arith) (
    >>=-Returns (encode_loop xs (shift_of k) (low k x) (olen - 1)) _ _ _ e
      (λ r q. ap (λ l. v ∷ l) q))

encode_loop-tail :
    (xs : List ℕ) (k c olen : ℕ)
    → 1 ≤ k
    → k ≤ 3
    → stored (length xs) k ≤ olen
    → Returns (encode_loop xs (shift_of k) (low k c) olen) (λ r. r.0 ++ ending r.1 ≡ tail k c xs)
unfolding encode_loop flush
encode_loop-tail [] (suc zero) c olen h m r = refl
encode_loop-tail [] (suc (suc zero)) c olen h m r = refl
encode_loop-tail [] (suc (suc (suc zero))) c olen h m r = refl
encode_loop-tail (x ∷ xs) (suc zero) c olen h m r =
    one x xs 2 (symbol (low 1 c + x / 16)) olen (omega arith)
      (encode_loop-tail xs 2 x (olen - 1) (omega arith) (omega arith) (omega arith))
encode_loop-tail (x ∷ xs) (suc (suc zero)) c olen h m r =
    one x xs 3 (symbol (low 2 c + x / 64)) olen (omega arith)
      (encode_loop-tail xs 3 x (olen - 1) (omega arith) (omega arith) (omega arith))
encode_loop-tail (x ∷ xs) (suc (suc (suc zero))) c olen h m r =
    let room : (olen == 0) ≡ false = ground arith in
    rw (room) (
      assert-Returns (not (olen - 1 == 0)) _ _ (ground arith) (
        >>=-Returns (encode_loop xs 4 (low 1 x) (olen - 1 - 1)) _ _ _
          (encode_loop-tail xs 1 x (olen - 1 - 1) (omega arith) (omega arith) (omega arith))
          (λ y e.
            ap (λ l. symbol (low 3 c) ∷ symbol (0 + x / 4) ∷ l) e
            ∙ ap (λ v. symbol (low 3 c) ∷ symbol v ∷ tail 1 x xs) (omega arith))))
encode_loop-tail xs (suc (suc (suc (suc k)))) c olen h m r = absurd (omega arith)
encode_loop-tail xs zero c olen h m r = absurd (omega arith)

pad_lem : (n olen : ℕ) → n ≤ olen → Returns (pad n olen) (λ p. p ≡ replicate n 0x3d)
unfolding pad
pad_lem zero olen h = refl
pad_lem (suc n) olen h = assert-Returns (not (olen == 0)) _ _ (ground arith) (
    >>=-Returns (pad n (olen - 1)) _ _ _ (pad_lem n (olen - 1) (omega arith))
      (λ p e. ap (λ l. 0x3d ∷ l) e))

rest_lem : (rest olen : ℕ) → 1 ≤ olen → Returns (encode_rest rest olen) (λ r. r.0 ≡ ending rest)
unfolding encode_rest
rest_lem rest olen h = ground arith

-- The characters for at least one byte, without the padding.
abbrev pub symbols : ℕ → List ℕ → List ℕ
symbols x xs = symbol (x / 4) ∷ tail 1 x xs

first :
    (x : ℕ) (xs : List ℕ) (olen : ℕ)
    → stored (length xs) 1 + 1 ≤ olen
    → Returns (encode_loop (x ∷ xs) 2 0 olen) (λ r. r.0 ++ ending r.1 ≡ symbols x xs)
unfolding encode_loop flush
first x xs olen h = assert-Returns (not (olen == 0)) _ _ (ground arith) (
    >>=-Returns (encode_loop xs 4 (low 1 x) (olen - 1)) _ _ _
      (encode_loop-tail xs 1 x (olen - 1) (omega arith) (omega arith) (omega arith))
      (λ r e. ap (λ l. symbol (0 + x / 4) ∷ l) e ∙ ap (λ v. symbol v ∷ tail 1 x xs) (omega arith)))

-- In a room of four characters for every three bytes begun, what is stored are these characters and
-- padding.
pub encode_base64-symbols :
    (x : ℕ) (xs : List ℕ) (olen : ℕ)
    → (length xs + 3) / 3 * 4 ≤ olen
    → Returns
        (encode_base64 (x ∷ xs) olen)
        λ out. (n : ℕ) × (out ≡ symbols x xs ++ replicate n 0x3d)
unfolding encode_base64
encode_base64-symbols x xs olen h =
    >>=-Returns (encode_loop (x ∷ xs) 2 0 olen) _ _ _
      (Returns_both (encode_loop (x ∷ xs) 2 0 olen) _ _ (first x xs olen (omega arith))
        (encode_loop-stored (x ∷ xs) 0 0 olen (omega arith) (omega arith)))
      λ r (e, q).
        let (e₀, e₁) = q in
        >>=-Returns (encode_rest r.1 r.2) _ _ _
          (Returns_both (encode_rest r.1 r.2) _ _ (rest_lem r.1 r.2 (omega arith))
            (rest-length r.1 r.2 (omega arith)))
          λ y (f, w).
            let (f₀, f₁) = w in
            let n : ℕ = (4 - (length r.0 + length y.0) % 4) % 4 in
            >>=-Returns (pad n y.1) _ _ _ (pad_lem n y.1 (omega arith)) λ p g. (
              n,
              ap (λ l. r.0 ++ (l ++ p)) f
                  ∙ ap (λ l. r.0 ++ (ending r.1 ++ l)) g
                  ∙ sym (append_assoc (r.0) (ending r.1) (replicate n 0x3d))
                  ∙ ap (λ l. l ++ replicate n 0x3d) e,
            )
