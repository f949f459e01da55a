-- ===== src/Base/Bits.antt =====
-- Masks and shifts on bytes as arithmetic, each checked by evaluation over its small range.
use Prim.Native.Nat.{ℕ, zero, suc, ◌<◌}
use mathlib.Core.Path.{◌≡◌}
use mathlib.Core.Bool.{Bool, true, false, ◌&&◌}
use native.Mathlib.Omega.{arith}
use Prim.Native.Nat.{◌+◌, ◌*◌, ◌%◌, bit_and, bit_or}
use mathlib.Core.Path.{refl}
use e2f77dee9c9d8e2bfbcafc.Base.{◌==◌, if◌then◌else◌}

-- Whether a test holds at every number below a bound.
every : (ℕ → Bool) → ℕ → Bool
every test zero = true
every test (suc bound) = let rest = every test bound in if test bound then rest else false

every-at : (test : ℕ → Bool) (bound i : ℕ) → i < bound → every test bound ≡ true → test i ≡ true
unfolding every
every-at test zero i small all = absurd (omega arith)
every-at test (suc bound) i small all = ground (arith, every-at test bound i)

-- The flag bits of an NDEF record header survive the type bits beside them.
flag_table :
    every
      (λ f.
        every
          (λ t.
            (bit_and (bit_or f t % 256) 0x10 == bit_and f 0x10)
            && (bit_and (bit_or f t % 256) 0x08 == bit_and f 0x08))
          8)
      256
    ≡ true
unfolding every
flag_table = refl

pub bit_and-bit_or_flag :
    (f t : ℕ)
    → f < 256
    → t < 8
    → (bit_and (bit_or f t % 256) 0x10 ≡ bit_and f 0x10)
      × (bit_and (bit_or f t % 256) 0x08 ≡ bit_and f 0x08)
bit_and-bit_or_flag f t hf ht = ground (arith, every-at _ 8 t ht (every-at _ 256 f hf flag_table))

tnf_table : every (λ t. bit_and t 0xf8 == 0) 8 ≡ true
unfolding every
tnf_table = refl

pub bit_and_tnf : (t : ℕ) → t < 8 → bit_and t 0xf8 ≡ 0
bit_and_tnf t h = ground (arith, every-at _ 8 t h tnf_table)

-- Where the low bits of one number are zero, and the other has no others, `|` adds.
table_4 : every (λ a. every (λ b. bit_or (a * 4) b == a * 4 + b) 4) 64 ≡ true
unfolding every
table_4 = refl

pub bit_or-add_4 : (a b : ℕ) → a < 64 → b < 4 → bit_or (a * 4) b ≡ a * 4 + b
bit_or-add_4 a b h k = ground (arith, every-at _ 4 b k (every-at _ 64 a h table_4))

table_16 : every (λ a. every (λ b. bit_or (a * 16) b == a * 16 + b) 16) 16 ≡ true
unfolding every
table_16 = refl

pub bit_or-add_16 : (a b : ℕ) → a < 16 → b < 16 → bit_or (a * 16) b ≡ a * 16 + b
bit_or-add_16 a b h k = ground (arith, every-at _ 16 b k (every-at _ 16 a h table_16))

table_64 : every (λ a. every (λ b. bit_or (a * 64) b == a * 64 + b) 64) 4 ≡ true
unfolding every
table_64 = refl

pub bit_or-add_64 : (a b : ℕ) → a < 4 → b < 64 → bit_or (a * 64) b ≡ a * 64 + b
bit_or-add_64 a b h k = ground (arith, every-at _ 64 b k (every-at _ 4 a h table_64))
