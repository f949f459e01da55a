-- ===== src/Base/Arrays.antt =====
-- C arrays of a fixed size as lists: `memcpy` into one, and a slice of one.
use Prim.Native.Nat.{ℕ, zero, suc, ◌+◌, ◌≤◌, ◌<◌}
use mathlib.Core.Path.{◌≡◌, refl, ap}
use mathlib.Core.Logic.{◌⊎◌}
use mathlib.Core.List.{List, [], ◌∷◌, ◌++◌}
use native.Mathlib.Omega.{arith}
use e2f77dee9c9d8e2bfbcafc.Base.Lists.{length, get_elem?, take, drop, All}

module _ {ℓ} {A : Type ℓ} where
  -- `memcpy(old + off, value, length value)`; what would fall outside the array is left out.
  abbrev pub splice : List A → ℕ → List A → List A
  splice [] off value = []
  splice (x ∷ xs) zero [] = x ∷ xs
  splice (x ∷ xs) zero (v ∷ vs) = v ∷ splice xs zero vs
  splice (x ∷ xs) (suc off) value = x ∷ splice xs off value

  -- The `len` elements from index `off` on.
  abbrev pub slice : List A → ℕ → ℕ → List A
  slice xs off len = take len (drop off xs)

  pub length-splice :
      (old : List A) (off : ℕ) (value : List A) → length (splice old off value) ≡ length old
  length-splice [] off value = refl
  length-splice (x ∷ xs) zero [] = refl
  length-splice (x ∷ xs) zero (v ∷ vs) = ap suc (length-splice xs zero vs)
  length-splice (x ∷ xs) (suc off) value = ap suc (length-splice xs off value)

  pub slice-splice :
      (old : List A) (off : ℕ) (value : List A)
      → off + length value ≤ length old
      → slice (splice old off value) off (length value) ≡ value
  slice-splice [] zero [] h = refl
  slice-splice [] zero (v ∷ vs) h = absurd (omega arith)
  slice-splice [] (suc off) value h = absurd (omega arith)
  slice-splice (x ∷ xs) zero [] h = refl
  slice-splice (x ∷ xs) zero (v ∷ vs) h = ap (λ l. v ∷ l) (slice-splice xs zero vs (omega arith))
  slice-splice (x ∷ xs) (suc off) value h = slice-splice xs off value (omega arith)

  pub get_elem?-splice_outside :
      (old : List A) (off : ℕ) (value : List A) (i : ℕ)
      → (i < off) ⊎ (off + length value ≤ i)
      → get_elem? (splice old off value) i ≡ get_elem? old i
  get_elem?-splice_outside [] off value i h = refl
  get_elem?-splice_outside (x ∷ xs) zero [] i h = refl
  get_elem?-splice_outside (x ∷ xs) zero (v ∷ vs) zero h = absurd (omega arith)
  get_elem?-splice_outside (x ∷ xs) zero (v ∷ vs) (suc i) h =
      get_elem?-splice_outside xs zero vs i (omega arith)
  get_elem?-splice_outside (x ∷ xs) (suc off) value zero h = refl
  get_elem?-splice_outside (x ∷ xs) (suc off) value (suc i) h =
      get_elem?-splice_outside xs off value i (omega arith)

  -- Two stores of which the second begins where the first ends are one.
  pub splice-splice :
      (old : List A) (off : ℕ) (a b : List A) (j : ℕ)
      → j ≡ off + length a
      → splice (splice old off a) j b ≡ splice old off (a ++ b)
  splice-splice [] off a b j h = refl
  splice-splice (x ∷ xs) zero [] b zero h = refl
  splice-splice (x ∷ xs) zero [] b (suc j) h = absurd (omega arith)
  splice-splice (x ∷ xs) zero (v ∷ vs) b zero h = absurd (omega arith)
  splice-splice (x ∷ xs) zero (v ∷ vs) b (suc j) h =
      ap (λ l. v ∷ l) (splice-splice xs zero vs b j (omega arith))
  splice-splice (x ∷ xs) (suc off) a b zero h = absurd (omega arith)
  splice-splice (x ∷ xs) (suc off) a b (suc j) h =
      ap (λ l. x ∷ l) (splice-splice xs off a b j (omega arith))

  -- A slice inside what was stored, and one beside it.
  pub slice-splice_inside :
      (old : List A) (off : ℕ) (value : List A) (i k n : ℕ)
      → i ≡ off + k
      → k + n ≤ length value
      → off + length value ≤ length old
      → slice (splice old off value) i n ≡ slice value k n
  slice-splice_inside old off value i k zero e h r = refl
  slice-splice_inside old off [] i k (suc n) e h r = absurd (omega arith)
  slice-splice_inside [] off (v ∷ vs) i k (suc n) e h r = absurd (omega arith)
  slice-splice_inside (x ∷ xs) zero (v ∷ vs) zero zero (suc n) e h r =
      ap (λ l. v ∷ l)
        (slice-splice_inside xs zero vs 0 0 n (omega arith) (omega arith) (omega arith))
  slice-splice_inside (x ∷ xs) zero (v ∷ vs) zero (suc k) (suc n) e h r = absurd (omega arith)
  slice-splice_inside (x ∷ xs) zero (v ∷ vs) (suc i) zero (suc n) e h r = absurd (omega arith)
  slice-splice_inside (x ∷ xs) zero (v ∷ vs) (suc i) (suc k) (suc n) e h r =
      slice-splice_inside xs zero vs i k (suc n) (omega arith) (omega arith) (omega arith)
  slice-splice_inside (x ∷ xs) (suc off) (v ∷ vs) zero k (suc n) e h r = absurd (omega arith)
  slice-splice_inside (x ∷ xs) (suc off) (v ∷ vs) (suc i) k (suc n) e h r =
      slice-splice_inside xs off (v ∷ vs) i k (suc n) (omega arith) h (omega arith)

  pub slice-splice_outside :
      (old : List A) (off : ℕ) (value : List A) (i n : ℕ)
      → (i + n ≤ off) ⊎ (off + length value ≤ i)
      → slice (splice old off value) i n ≡ slice old i n
  slice-splice_outside old off value i zero h = refl
  slice-splice_outside [] off value i (suc n) h = refl
  slice-splice_outside (x ∷ xs) zero [] i (suc n) h = refl
  slice-splice_outside (x ∷ xs) zero (v ∷ vs) zero (suc n) h = absurd (omega arith)
  slice-splice_outside (x ∷ xs) zero (v ∷ vs) (suc i) (suc n) h =
      slice-splice_outside xs zero vs i (suc n) (omega arith)
  slice-splice_outside (x ∷ xs) (suc off) value zero (suc n) h =
      ap (λ l. x ∷ l) (slice-splice_outside xs off value zero n (omega arith))
  slice-splice_outside (x ∷ xs) (suc off) value (suc i) (suc n) h =
      slice-splice_outside xs off value i (suc n) (omega arith)

  pub length-slice : (xs : List A) (i n : ℕ) → i + n ≤ length xs → length (slice xs i n) ≡ n
  length-slice xs i zero h = refl
  length-slice [] i (suc n) h = absurd (omega arith)
  length-slice (x ∷ xs) zero (suc n) h = ap suc (length-slice xs zero n (omega arith))
  length-slice (x ∷ xs) (suc i) (suc n) h = length-slice xs i (suc n) (omega arith)

  -- A slice of what stands behind `a`.
  pub slice-append :
      (a b : List A) (i k n : ℕ) → i ≡ length a + k → slice (a ++ b) i n ≡ slice b k n
  slice-append [] b i k n e = ap (λ j. slice b j n) (omega arith)
  slice-append (x ∷ a) b zero k n e = absurd (omega arith)
  slice-append (x ∷ a) b (suc i) k n e = slice-append a b i k n (omega arith)

  -- The beginning of an array that a store went into: what stood before the store, the store, and
  -- what stands behind it.
  pub slice-splice_around :
      (old : List A) (off : ℕ) (value : List A) (r n j : ℕ)
      → n ≡ off + length value + r
      → j ≡ off + length value
      → n ≤ length old
      → slice (splice old off value) 0 n ≡ slice old 0 off ++ (value ++ slice old j r)
  slice-splice_around old zero [] zero zero j e f h = refl
  slice-splice_around old zero [] (suc r) zero j e f h = absurd (omega arith)
  slice-splice_around old zero (v ∷ vs) r zero j e f h = absurd (omega arith)
  slice-splice_around old (suc off) value r zero j e f h = absurd (omega arith)
  slice-splice_around [] off value r (suc n) j e f h = absurd (omega arith)
  slice-splice_around (x ∷ xs) zero [] r (suc n) zero e f h =
      let same : r ≡ suc n = omega arith in rw same refl
  slice-splice_around (x ∷ xs) zero [] r (suc n) (suc j) e f h = absurd (omega arith)
  slice-splice_around (x ∷ xs) zero (v ∷ vs) r (suc n) zero e f h = absurd (omega arith)
  slice-splice_around (x ∷ xs) zero (v ∷ vs) r (suc n) (suc j) e f h =
      ap (λ ys. v ∷ ys)
        (slice-splice_around xs zero vs r n j (omega arith) (omega arith) (omega arith))
  slice-splice_around (x ∷ xs) (suc off) value r (suc n) zero e f h = absurd (omega arith)
  slice-splice_around (x ∷ xs) (suc off) value r (suc n) (suc j) e f h =
      ap (λ ys. x ∷ ys)
        (slice-splice_around xs off value r n j (omega arith) (omega arith) (omega arith))

  slice_nil : (i n : ℕ) → slice [] i n ≡ []
  slice_nil zero zero = refl
  slice_nil zero (suc n) = refl
  slice_nil (suc i) zero = refl
  slice_nil (suc i) (suc n) = refl

  -- Two slices in a row.
  pub slice-append_slice :
      (xs : List A) (i m n j k : ℕ)
      → j ≡ i + m
      → k ≡ m + n
      → slice xs i m ++ slice xs j n ≡ slice xs i k
  slice-append_slice [] i m n j k e f = rw (slice_nil i m, slice_nil j n, slice_nil i k) refl
  slice-append_slice (x ∷ xs) zero zero n zero k e f =
      let same : n ≡ k = omega arith in rw same refl
  slice-append_slice (x ∷ xs) zero zero n (suc j) k e f = absurd (omega arith)
  slice-append_slice (x ∷ xs) zero (suc m) n zero k e f = absurd (omega arith)
  slice-append_slice (x ∷ xs) zero (suc m) n (suc j) zero e f = absurd (omega arith)
  slice-append_slice (x ∷ xs) zero (suc m) n (suc j) (suc k) e f =
      ap (λ ys. x ∷ ys) (slice-append_slice xs zero m n j k (omega arith) (omega arith))
  slice-append_slice (x ∷ xs) (suc i) m n zero k e f = absurd (omega arith)
  slice-append_slice (x ∷ xs) (suc i) m n (suc j) k e f =
      slice-append_slice xs i m n j k (omega arith) (omega arith)

  take-take : (c n : ℕ) (xs : List A) → c ≤ n → take c (take n xs) ≡ take c xs
  take-take zero n xs h = refl
  take-take (suc c) zero xs h = absurd (omega arith)
  take-take (suc c) (suc n) [] h = refl
  take-take (suc c) (suc n) (x ∷ xs) h = ap (λ ys. x ∷ ys) (take-take c n xs (omega arith))

  -- A slice inside a slice.
  pub slice-slice :
      (xs : List A) (i n a c j : ℕ)
      → j ≡ i + a
      → a + c ≤ n
      → slice (slice xs i n) a c ≡ slice xs j c
  slice-slice [] i n a c j e h = rw (slice_nil i n, slice_nil a c, slice_nil j c) refl
  slice-slice (x ∷ xs) zero n zero c zero e h = take-take c n (x ∷ xs) (omega arith)
  slice-slice (x ∷ xs) zero n zero c (suc j) e h = absurd (omega arith)
  slice-slice (x ∷ xs) zero n (suc a) c zero e h = absurd (omega arith)
  slice-slice (x ∷ xs) zero zero (suc a) c (suc j) e h = absurd (omega arith)
  slice-slice (x ∷ xs) zero (suc n) (suc a) c (suc j) e h =
      slice-slice xs zero n a c j (omega arith) (omega arith)
  slice-slice (x ∷ xs) (suc i) n a c zero e h = absurd (omega arith)
  slice-slice (x ∷ xs) (suc i) n a c (suc j) e h = slice-slice xs i n a c j (omega arith) h

module _ {ℓ κ} {A : Type ℓ} (P : A → Type κ) where
  pub All-splice :
      (old : List A) (off : ℕ) (value : List A)
      → All P old
      → All P value
      → All P (splice old off value)
  All-splice [] off value h k = tt
  All-splice (x ∷ xs) zero [] h k = h
  All-splice (x ∷ xs) zero (v ∷ vs) h k = (k.0, All-splice xs zero vs h.1 k.1)
  All-splice (x ∷ xs) (suc off) value h k = (h.0, All-splice xs off value h.1 k)
