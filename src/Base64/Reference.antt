-- ===== src/Base64/Reference.antt =====
-- The encoder beside the encoding of RFC 4648, which takes the bytes in groups of three.
use e2f77dee9c9d8e2bfbcafc.Base.{
  ℕ, zero, suc, Bool, true, Bool-cases, ==_iff, ◌&&◌, inl, inr, ◌<◌, get_or, ◌+◌, ◌-◌, ◌*◌, ◌/◌,
  ◌%◌, ◌^◌, ◌≤◌, ◌≡◌, refl, sym, ap, ◌∙◌, arith, List, [], ◌∷◌, ◌++◌, length, replicate,
  length-append, length-replicate, ◌==◌, if◌then◌else◌, ok, fault, Result, Returns, Returns_both,
  Returns_map, All,
}
use e2f77dee9c9d8e2bfbcafc.Memory.{IsByte}
use e2f77dee9c9d8e2bfbcafc.Console.{codes}
use e2f77dee9c9d8e2bfbcafc.Base64.{symbol, encode_base64}
use e2f77dee9c9d8e2bfbcafc.Base64.Length.{length-encode_base64}
use e2f77dee9c9d8e2bfbcafc.Base64.Symbols.{low, left_out, ending, symbols, encode_base64-symbols}

-- Table 1 of RFC 4648: the character of a value below 64.
abbrev pub alphabet : List ℕ
alphabet = codes "ABCDEFGHIJKLMNOPQRSTUVWXYZabcdefghijklmnopqrstuvwxyz0123456789+/"

abbrev pub letter : ℕ → ℕ
letter v = get_or alphabet v 0

-- The encoder's table and that of the RFC have the same first `n` characters.
agree : ℕ → Bool
agree zero = true
agree (suc n) = (letter n == symbol n) && agree n

agree_all : agree 64 ≡ true
unfolding agree symbol
agree_all = refl

agree_below : (n v : ℕ) → agree n ≡ true → v < n → letter v ≡ symbol v
unfolding agree
agree_below zero v h k = absurd (omega arith)
agree_below (suc n) v h k = elim (Bool-cases (letter n == symbol n)) [
  | inl e ↦ elim (Bool-cases (v == n)) [
    | inl same ↦ rw ((==_iff v n).0 same) ((==_iff (letter n) (symbol n)).0 e)
    | inr other ↦ agree_below n v (rw e at h) (ground arith)
  ]
  | inr e ↦ absurd (cc (rw e at h))
]

letter-symbol : (v : ℕ) → v < 64 → letter v ≡ symbol v
letter-symbol v h = agree_below 64 v agree_all h

-- The 24 bits of a group, as a number, and the character for the digit `i` of its four digits.
abbrev group : ℕ → ℕ → ℕ → ℕ
group a b c = a * 65536 + b * 256 + c

abbrev digit : ℕ → ℕ → ℕ
digit i n = letter (n / 64 ^ (3 - i) % 64)

unfoldable pub rfc : List ℕ → List ℕ
rfc (a ∷ b ∷ c ∷ rest) =
    let n = group a b c in digit 0 n ∷ digit 1 n ∷ digit 2 n ∷ digit 3 n ∷ rfc rest
rfc (a ∷ b ∷ []) = let n = group a b 0 in digit 0 n ∷ digit 1 n ∷ digit 2 n ∷ 0x3d ∷ []
rfc (a ∷ []) = let n = group a 0 0 in digit 0 n ∷ digit 1 n ∷ 0x3d ∷ 0x3d ∷ []
rfc [] = []

digit-symbol : (i n v : ℕ) → n / 64 ^ (3 - i) % 64 ≡ v → digit i n ≡ symbol v
digit-symbol i n v e = letter-symbol (n / 64 ^ (3 - i) % 64) (omega arith) ∙ ap symbol e

digits :
    (a b c : ℕ)
    → IsByte a
    → IsByte b
    → IsByte c
    → (digit 0 (group a b c) ≡ symbol (a / 4))
      × (digit 1 (group a b c) ≡ symbol (low 1 a + b / 16))
      × (digit 2 (group a b c) ≡ symbol (low 2 b + c / 64))
      × (digit 3 (group a b c) ≡ symbol (low 3 c))
digits a b c h k m = (
  digit-symbol 0 (group a b c) (a / 4) (omega arith),
  digit-symbol 1 (group a b c) (low 1 a + b / 16) (omega arith),
  digit-symbol 2 (group a b c) (low 2 b + c / 64) (omega arith),
  digit-symbol 3 (group a b c) (low 3 c) (omega arith),
)

ending_one : (v : ℕ) → ◌≡◌ {A = ℕ} (if v == 0 then 1 else 0) 0 → ending v ≡ symbol v ∷ []
ending_one v h = ground arith

rfc-symbols :
    (x : ℕ) (xs : List ℕ)
    → IsByte x
    → All IsByte xs
    → left_out 1 x xs ≡ 0
    → rfc (x ∷ xs) ≡ symbols x xs ++ replicate (2 - length xs % 3) 0x3d
unfolding rfc
rfc-symbols a [] h k e =
    let (d₀, d₁, d₂, d₃) = digits a 0 0 h (omega arith) (omega arith) in
    rw (ending_one (low 1 a) e, d₀, d₁)
      (ap (λ v. symbol (a / 4) ∷ symbol v ∷ 0x3d ∷ 0x3d ∷ []) (omega arith))
rfc-symbols a (b ∷ []) h k e =
    let (d₀, d₁, d₂, d₃) = digits a b 0 h (k.0) (omega arith) in
    rw (ending_one (low 2 b) e, d₀, d₁, d₂)
      (ap (λ v. symbol (a / 4) ∷ symbol (low 1 a + b / 16) ∷ symbol v ∷ 0x3d ∷ []) (omega arith))
rfc-symbols a (b ∷ c ∷ []) h k e =
    let (d₀, d₁, d₂, d₃) = digits a b c h (k.0) (k.1.0) in
    rw (ending_one (low 3 c) e, d₀, d₁, d₂, d₃) refl
rfc-symbols a (b ∷ c ∷ d ∷ rest) h k e =
    let (d₀, d₁, d₂, d₃) = digits a b c h (k.0) (k.1.0) in
    let m : 2 - suc (suc (suc (length rest))) % 3 ≡ 2 - length rest % 3 = omega arith in
    rw (d₀, d₁, d₂, d₃, m)
      (ap
        (λ l.
          symbol (a / 4)
          ∷ symbol (low 1 a + b / 16)
          ∷ symbol (low 2 b + c / 64)
          ∷ symbol (low 3 c)
          ∷ l)
        (rfc-symbols d rest (k.1.1.0) (k.1.1.1) e))

length-rfc : (bytes : List ℕ) → length (rfc bytes) ≡ (length bytes + 2) / 3 * 4
unfolding rfc
length-rfc (a ∷ b ∷ c ∷ rest) = omega (arith, length-rfc rest)
length-rfc (a ∷ b ∷ []) = refl
length-rfc (a ∷ []) = refl
length-rfc [] = refl

-- For at least one byte, in a room of four characters for every three bytes begun: if the last bits
-- to be encoded are not zero, the encoder ends normally and stores the encoding of RFC 4648.
pub encode_base64-rfc :
    (x : ℕ) (xs : List ℕ) (olen : ℕ)
    → IsByte x
    → All IsByte xs
    → left_out 1 x xs ≡ 0
    → (length xs + 3) / 3 * 4 ≤ olen
    → encode_base64 (x ∷ xs) olen ≡ ok (rfc (x ∷ xs))
encode_base64-rfc x xs olen h k e m = Returns-ok (encode_base64 (x ∷ xs) olen) (rfc (x ∷ xs)) (
    Returns_map (encode_base64 (x ∷ xs) olen) _ _
      (Returns_both (encode_base64 (x ∷ xs) olen) _ _ (encode_base64-symbols x xs olen m)
        (length-encode_base64 (x ∷ xs) olen (omega arith)))
      (λ out (w, l).
        let (n, q) = w in
        let r = rfc-symbols x xs h k e in
        let same : n ≡ 2 - length xs % 3 = omega (
          arith,
          length-rfc (x ∷ xs),
          ap length q,
          ap length r,
          l,
          length-append (symbols x xs) (replicate n 0x3d),
          length-append (symbols x xs) (replicate (2 - length xs % 3) 0x3d),
          length-replicate {A = ℕ} n 0x3d,
          length-replicate {A = ℕ} (2 - length xs % 3) 0x3d,
        ) in
        q ∙ ap (λ z. symbols x xs ++ replicate z 0x3d) same ∙ sym r))
  where
    Returns-ok : {A : Type 0} (m : Result A) (a : A) → Returns m (λ b. b ≡ a) → m ≡ ok a
    Returns-ok (ok b) a q = ap ok q
    Returns-ok (fault f) a q = absurd q
