-- ===== src/Bswap.antt =====
-- Big-endian and little-endian fields of a packet: src/bswap.h. A field that holds `cpu_to_be32(x)`
-- has the most significant byte of `x` first, on a host of either byte order.
use e2f77dee9c9d8e2bfbcafc.Base.{ℕ, ◌+◌, ◌*◌, ◌/◌, ◌%◌, ◌^◌, ◌<◌, ◌≡◌, List, [], ◌∷◌, arith}
use e2f77dee9c9d8e2bfbcafc.Memory.{Buf, write}

-- The bytes of a field that holds `cpu_to_be32(x)`, `cpu_to_le16(x)` or `cpu_to_le32(x)`.
abbrev pub cpu_to_be32 : ℕ → List ℕ
cpu_to_be32 x = (x / 2 ^ 24 % 256) ∷ (x / 2 ^ 16 % 256) ∷ (x / 2 ^ 8 % 256) ∷ (x % 256) ∷ []

abbrev pub cpu_to_le16 : ℕ → List ℕ
cpu_to_le16 x = (x % 256) ∷ (x / 2 ^ 8 % 256) ∷ []

abbrev pub cpu_to_le32 : ℕ → List ℕ
cpu_to_le32 x = (x % 256) ∷ (x / 2 ^ 8 % 256) ∷ (x / 2 ^ 16 % 256) ∷ (x / 2 ^ 24 % 256) ∷ []

-- `be32_to_cpu` of the field at offset `p`.
abbrev pub be32_to_cpu : Buf → ℕ → ℕ
be32_to_cpu b p = b p * 2 ^ 24 + b (p + 1) * 2 ^ 16 + b (p + 2) * 2 ^ 8 + b (p + 3)

pub be32_to_cpu-cpu_to_be32 :
    (b : Buf) (p x : ℕ) → x < 2 ^ 32 → be32_to_cpu (write b p (cpu_to_be32 x)) p ≡ x
be32_to_cpu-cpu_to_be32 b p x h = ground arith
