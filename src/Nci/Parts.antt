-- ===== src/Nci/Parts.antt =====
-- A notification of four parts, stored one by one: src/nfc-nci.c.
use e2f77dee9c9d8e2bfbcafc.Base.{
  ℕ, ◌+◌, ◌<◌, ◌≤◌, ◌≡◌, refl, sym, ap, ◌∙◌, ◌%◌, inl, inr, arith, List, length, All,
}
use e2f77dee9c9d8e2bfbcafc.Memory.{Buf, IsByte, read, write, read-write_bytes, read-write_outside}
use e2f77dee9c9d8e2bfbcafc.Packet.{header, read_payload}

-- A structure, its parameters, a second structure and its parameters, stored in the order of the
-- code: the parameters first.
abbrev pub parts : Buf → List ℕ → List ℕ → List ℕ → List ℕ → Buf
parts b head tech tail act =
    write (write (write (write b 10 tech) (10 + length tech % 256 + 4) act) 3 head)
      (10 + length tech % 256) tail

read_stored :
    (b : Buf) (i : ℕ) (xs : List ℕ) (j n : ℕ)
    → j ≡ i
    → n ≡ length xs
    → All IsByte xs
    → read (write b i xs) j n ≡ xs
read_stored b i xs j n ej en h =
    ap (λ k. read (write b i xs) k n) ej
    ∙ (ap (λ k. read (write b i xs) i k) en ∙ read-write_bytes b i xs h)

-- They do not touch each other.
pub parts_lem :
    (b : Buf) (head tech tail act : List ℕ) (mt id second l : ℕ)
    → length head ≡ 7
    → length tail ≡ 4
    → length tech < 256
    → All IsByte head
    → All IsByte tech
    → All IsByte tail
    → All IsByte act
    → let p = header (parts b head tech tail act) mt id second l in
      (read p 3 7 ≡ head)
      × (read p 10 (length tech) ≡ tech)
      × (read p (10 + length tech) 4 ≡ tail)
      × (read p (14 + length tech) (length act) ≡ act)
parts_lem b head tech tail act mt id second l eh et small bh bt btl ba =
    let n = length tech in
    let w₁ = write b 10 tech in
    let w₂ = write w₁ (10 + n % 256 + 4) act in
    let w₃ = write w₂ 3 head in
    let w₄ = write w₃ (10 + n % 256) tail in
    let from : (at k : ℕ) → 3 ≤ at → read (header w₄ mt id second l) at k ≡ read w₄ at k =
      λ at k h. read_payload w₄ mt id second l at k h in
    (
      from 3 7 (omega arith)
          ∙ (read-write_outside w₃ (10 + n % 256) tail 3 7 (inl (omega arith))
              ∙ read_stored w₂ 3 head 3 7 refl (sym eh) bh),
      from 10 n (omega arith)
          ∙ (read-write_outside w₃ (10 + n % 256) tail 10 n (inl (omega arith))
              ∙ (read-write_outside w₂ 3 head 10 n (inr (omega arith))
                  ∙ (read-write_outside w₁ (10 + n % 256 + 4) act 10 n (inl (omega arith))
                      ∙ read_stored b 10 tech 10 n refl refl bt))),
      from (10 + n) 4 (omega arith)
          ∙ read_stored w₃ (10 + n % 256) tail (10 + n) 4 (omega arith) (sym et) btl,
      from (14 + n) (length act) (omega arith)
          ∙ (read-write_outside w₃ (10 + n % 256) tail (14 + n) (length act) (inr (omega arith))
              ∙ (read-write_outside w₂ 3 head (14 + n) (length act) (inr (omega arith))
                  ∙ read_stored w₁ (10 + n % 256 + 4) act (14 + n) (length act) (omega arith) refl
                      ba)),
    )
