-- ===== src/Memory.antt =====
-- Packet buffers. A `uint8_t*` that a caller hands over is the memory behind it, as a function from
-- offsets to bytes; a store keeps the low eight bits, as an assignment to a `uint8_t` does.
use e2f77dee9c9d8e2bfbcafc.Base.{
  ℕ, zero, suc, ◌+◌, ◌%◌, ◌≤◌, ◌<◌, ◌≡◌, refl, ap, ◌∙◌, ◌⊎◌, inl, inr, List, [], ◌∷◌, ◌++◌, map,
  arith, length, ◌==◌, if◌then◌else◌, All,
}

abbrev pub Buf : Type 0
Buf = ℕ → ℕ

abbrev pub IsByte : ℕ → Type 0
IsByte x = x < 256

abbrev pub poke : Buf → ℕ → ℕ → Buf
poke b i v j = if j == i then v % 256 else b j

-- Consecutive stores, as `*p++ = x` and `memcpy` make them.
abbrev pub write : Buf → ℕ → List ℕ → Buf
write b i [] = b
write b i (x ∷ xs) = write (poke b i x) (i + 1) xs

-- The `n` bytes from offset `i` on.
abbrev pub read : Buf → ℕ → ℕ → List ℕ
read b i zero = []
read b i (suc n) = b i ∷ read b (i + 1) n

pub length-read : (b : Buf) (i n : ℕ) → length (read b i n) ≡ n
length-read b i zero = refl
length-read b i (suc n) = ap suc (length-read b (i + 1) n)

-- A store changes nothing outside its range.
pub write-frame :
    (b : Buf) (i : ℕ) (xs : List ℕ) (j : ℕ) → (j < i) ⊎ (i + length xs ≤ j) → write b i xs j ≡ b j
write-frame b i [] j h = refl
write-frame b i (x ∷ xs) j (inl h) =
    write-frame (poke b i x) (i + 1) xs j (inl (omega arith)) ∙ ground arith
write-frame b i (x ∷ xs) j (inr h) =
    write-frame (poke b i x) (i + 1) xs j (inr (omega arith)) ∙ ground arith

-- What was stored is read back, cut to bytes.
pub read-write :
    (b : Buf) (i : ℕ) (xs : List ℕ) → read (write b i xs) i (length xs) ≡ map (λ x. x % 256) xs
read-write b i [] = refl
read-write b i (x ∷ xs) = ground (
  arith,
  write-frame (poke b i x) (i + 1) xs i (inl (omega arith)),
  read-write (poke b i x) (i + 1) xs,
)

map_bytes : (xs : List ℕ) → All IsByte xs → map (λ x. x % 256) xs ≡ xs
map_bytes [] h = refl
map_bytes (x ∷ xs) h = ground (arith, map_bytes xs h.1)

pub read-write_bytes :
    (b : Buf) (i : ℕ) (xs : List ℕ) → All IsByte xs → read (write b i xs) i (length xs) ≡ xs
read-write_bytes b i xs h = read-write b i xs ∙ map_bytes xs h

-- A store right behind another one continues it.
pub write-append :
    (b : Buf) (i : ℕ) (xs ys : List ℕ) (j : ℕ)
    → j ≡ i + length xs
    → write (write b i xs) j ys ≡ write b i (xs ++ ys)
write-append b i [] ys j h = ap (λ k. write b k ys) (omega arith)
write-append b i (x ∷ xs) ys j h = write-append (poke b i x) (i + 1) xs ys j (omega arith)

-- Reading beside a store, and reading a range as two parts.
pub read-write_outside :
    (b : Buf) (i : ℕ) (xs : List ℕ) (j n : ℕ)
    → (j + n ≤ i) ⊎ (i + length xs ≤ j)
    → read (write b i xs) j n ≡ read b j n
read-write_outside b i xs j zero h = refl
read-write_outside b i xs j (suc n) (inl h) =
    rw
      (
        write-frame b i xs j (inl (omega arith)),
        read-write_outside b i xs (j + 1) n (inl (omega arith)),
      )
      refl
read-write_outside b i xs j (suc n) (inr h) =
    rw (write-frame b i xs j (inr h), read-write_outside b i xs (j + 1) n (inr (omega arith))) refl

pub read-join :
    (b : Buf) (i m n j k : ℕ) (xs ys : List ℕ)
    → j ≡ i + m
    → k ≡ m + n
    → read b i m ≡ xs
    → read b j n ≡ ys
    → read b i k ≡ xs ++ ys
read-join b i zero n j k xs ys e f x y =
    let at : i ≡ j = omega arith in let many : k ≡ n = omega arith in rw (← x, many, at) y
read-join b i (suc m) n j zero xs ys e f x y = absurd (omega arith)
read-join b i (suc m) n j (suc k) xs ys e f x y = rw (← x) (
    ap (λ l. b i ∷ l)
      (read-join b (i + 1) m n j k (read b (i + 1) m) ys (omega arith) (omega arith) refl y))

-- A store in front of what is read.
pub read_behind : (b : Buf) (i v j n : ℕ) → i < j → read (poke b i v) j n ≡ read b j n
read_behind b i v j zero h = refl
read_behind b i v j (suc n) h = ground (arith, read_behind b i v (j + 1) n)
