-- ===== src/Tag/T3/Laws.antt =====
-- Blocks of a type-3 tag that lie in a row, read by one check command.
use e2f77dee9c9d8e2bfbcafc.Base.{
  ℕ, zero, suc, ◌+◌, ◌*◌, ◌%◌, ◌≤◌, ◌<◌, ◌≡◌, refl, ap, ◌∙◌, inl, inr, arith, true, ◌==◌, false,
  some, List, [], ◌∷◌, ◌++◌, length, length-slice, slice, slice-append_slice, leb, bit_and, subst,
  All, All-take, All-drop, drop, ok, Returns,
}
use e2f77dee9c9d8e2bfbcafc.Memory.{
  Buf, IsByte, write, read, length-read, read-write_bytes, write-append, read-write_outside,
  read-join,
}
use e2f77dee9c9d8e2bfbcafc.Tag.T3.{process_t3t, process_t3t_check, check_loop}

-- The block list at offset `at` names the `n` blocks from `s` on, in elements of two bytes.
abbrev pub Names : Buf → ℕ → ℕ → ℕ → Type 0
Names cmd at s zero = Unit {0}
Names cmd at s (suc n) =
    ((bit_and (cmd at) 0x80 == 0) ≡ false) × (cmd (at + 1) ≡ s) × Names cmd (at + 2) (s + 1) n

-- One round after another stores the blocks in a row.
check_loop_lem :
    (n : ℕ) (mem : List ℕ) (cmd : Buf) (bl i j s : ℕ) (rsp : Buf) (out : ℕ)
    → Names cmd (bl + i) s n
    → i + 2 * n < 256
    → j + n * 16 < 256
    → (s + n) * 16 ≤ 1024
    → 1024 ≤ length mem
    → check_loop n mem cmd bl i j rsp out
      ≡ ok (write rsp (out + j) (slice mem (s * 16) (n * 16)), i + 2 * n)
unfolding check_loop
check_loop_lem zero mem cmd bl i j s rsp out h hi hj hs hm =
    ap (λ (k : ℕ). ok (rsp, k)) (omega arith)
check_loop_lem (suc n) mem cmd bl i j s rsp out (h0, h1, h) hi hj hs hm =
    let fits : leb (s * 16 + 16) 1024 ≡ true = ground arith in
    let next : (i + 2) % 256 ≡ i + 2 = omega arith in
    let to : (j + 16) % 256 ≡ j + 16 = omega arith in
    let first : List ℕ = slice mem (s * 16) 16 in
    let others : List ℕ = slice mem ((s + 1) * 16) (n * 16) in
    let rest =
      check_loop_lem n mem cmd bl (i + 2) (j + 16) (s + 1) (write rsp (out + j) first) out
        (subst (λ at. Names cmd at (s + 1) n) (omega arith) h) (omega arith) (omega arith)
        (omega arith) hm in
    let stored : write (write rsp (out + j) first) (out + (j + 16)) others
        ≡ write rsp (out + j) (slice mem (s * 16) (suc n * 16)) =
      write-append rsp (out + j) first others (out + (j + 16))
        (omega (arith, length-slice mem (s * 16) 16 (omega arith)))
      ∙ ap (write rsp (out + j)) (
          slice-append_slice mem (s * 16) 16 (n * 16) ((s + 1) * 16) (suc n * 16) (omega arith)
            (omega arith)) in
    let last : i + 2 + 2 * n ≡ i + 2 * suc n = omega arith in
    rw (h0, h1, fits, next, to, rest, stored, last) refl

-- The stores of the answer to a check command, in the order of the code, are read back as one list.
module _ (rsp : Buf) (q : ℕ) (head id counts blocks end : List ℕ) (at : ℕ) (l₁ : length head ≡ 2)
    (l₂ : length id ≡ 8) (l₃ : length counts ≡ 3) (l₅ : length end ≡ 1)
    (behind : at ≡ q + 13 + length blocks) (h₁ : All IsByte head) (h₂ : All IsByte id)
    (h₃ : All IsByte counts) (h₄ : All IsByte blocks) (h₅ : All IsByte end) where
  abbrev b₁ : Buf
  b₁ = write rsp (q + 13) blocks

  abbrev b₂ : Buf
  b₂ = write b₁ (q + 2) id

  abbrev b₃ : Buf
  b₃ = write b₂ (q + 10) counts

  abbrev b₄ : Buf
  b₄ = write b₃ at end

  abbrev answered : Buf
  answered = write b₄ q head

  read_id : read answered (q + 2) 8 ≡ id
  read_id =
      read-write_outside b₄ q head (q + 2) 8 (inr (omega arith))
      ∙ (read-write_outside b₃ at end (q + 2) 8 (inl (omega arith))
          ∙ (read-write_outside b₂ (q + 10) counts (q + 2) 8 (inl (omega arith))
              ∙ rw l₂ at (read-write_bytes b₁ (q + 2) id h₂)))

  read_counts : read answered (q + 10) 3 ≡ counts
  read_counts =
      read-write_outside b₄ q head (q + 10) 3 (inr (omega arith))
      ∙ (read-write_outside b₃ at end (q + 10) 3 (inl (omega arith))
          ∙ rw l₃ at (read-write_bytes b₂ (q + 10) counts h₃))

  read_blocks : read answered (q + 13) (length blocks) ≡ blocks
  read_blocks =
      let n = length blocks in
      read-write_outside b₄ q head (q + 13) n (inr (omega arith))
      ∙ (read-write_outside b₃ at end (q + 13) n (inl (omega arith))
          ∙ (read-write_outside b₂ (q + 10) counts (q + 13) n (inr (omega arith))
              ∙ (read-write_outside b₁ (q + 2) id (q + 13) n (inr (omega arith))
                  ∙ read-write_bytes rsp (q + 13) blocks h₄)))

  read_end : read answered at 1 ≡ end
  read_end =
      read-write_outside b₄ q head at 1 (inr (omega arith))
      ∙ rw l₅ at (read-write_bytes b₃ at end h₅)

  check_read :
      (k : ℕ)
      → k ≡ 14 + length blocks
      → read answered q k ≡ head ++ (id ++ (counts ++ (blocks ++ end)))
  check_read k e =
      let n = length blocks in
      let read_head : read answered q 2 ≡ head = rw l₁ at (read-write_bytes b₄ q head h₁) in
      let tail₁ =
        read-join answered (q + 13) n 1 at (1 + n) blocks end behind (omega arith) read_blocks
          read_end in
      let tail₂ =
        read-join answered (q + 10) 3 (1 + n) (q + 13) (4 + n) counts (blocks ++ end) (omega arith)
          (omega arith) read_counts tail₁ in
      let tail₃ =
        read-join answered (q + 2) 8 (4 + n) (q + 10) (12 + n) id (counts ++ (blocks ++ end))
          (omega arith) (omega arith) read_id tail₂ in
      read-join answered q 2 (12 + n) (q + 2) k head (id ++ (counts ++ (blocks ++ end))) refl
        (omega arith) read_head tail₃

check_loop_first :
    (n : ℕ) (mem : List ℕ) (cmd : Buf) (bl s : ℕ) (rsp : Buf) (out : ℕ)
    → Names cmd bl s n
    → n ≤ 15
    → (s + n) * 16 ≤ 1024
    → 1024 ≤ length mem
    → check_loop n mem cmd bl 0 0 rsp out ≡ ok (write rsp out (slice mem (s * 16) (n * 16)), 2 * n)
check_loop_first n mem cmd bl s rsp out h few fits room =
    let at : bl ≡ bl + 0 = omega arith in
    let to : out + 0 ≡ out = omega arith in
    let loop =
      check_loop_lem n mem cmd bl 0 0 s rsp out (subst (λ i. Names cmd i s n) at h) (omega arith)
        (omega arith) fits room in
    let count : 0 + 2 * n ≡ 2 * n = omega arith in rw (to, count) at loop

-- A check command for the `n` blocks from `s` on, in a list of two-byte elements, is answered with
-- its own id, the status bytes, the number of blocks, the blocks and a zero.
pub process_t3t_check_lem :
    (mem : List ℕ) (cmd : Buf) (p len : ℕ) (rsp : Buf) (q s n : ℕ)
    → cmd (p + 1) ≡ 0x06
    → cmd (p + 11 + 2 * cmd (p + 10)) ≡ n
    → Names cmd (p + 11 + 2 * cmd (p + 10) + 1) s n
    → n ≤ 15
    → (s + n) * 16 ≤ 1024
    → 1024 ≤ length mem
    → All IsByte mem
    → All IsByte (read cmd (p + 2) 8)
    → Returns (process_t3t mem cmd p len rsp q) λ r.
      (read r.rsp q r.len
        ≡ (14 + n * 16)
          ∷ 0x07
          ∷ (read cmd (p + 2) 8 ++ (0 ∷ 0 ∷ n ∷ (slice mem (s * 16) (n * 16) ++ (0 ∷ [])))))
      × (r.len ≡ 14 + n * 16)
      × (r.consumed ≡ some ((12 + 2 * cmd (p + 10) + 2 * n) % 256))
unfolding process_t3t process_t3t_check
process_t3t_check_lem mem cmd p len rsp q s n hc hn names few fits room bytes id =
    let blocks : List ℕ = slice mem (s * 16) (n * 16) in
    let size : length blocks ≡ n * 16 = length-slice mem (s * 16) (n * 16) (omega arith) in
    let total : (13 + 16 * n + 1) % 256 ≡ 14 + n * 16 = omega arith in
    let loop =
      check_loop_first n mem cmd (p + 11 + 2 * cmd (p + 10) + 1) s rsp (q + 13) names few fits
        room in
    rw (hc, hn, loop, total)
      (
        check_read rsp q ((14 + n * 16) ∷ 0x07 ∷ []) (read cmd (p + 2) 8) (0 ∷ 0 ∷ n ∷ []) blocks
            (0 ∷ []) (q + 13 + 16 * n) refl (length-read cmd (p + 2) 8) refl refl (omega arith)
            (omega arith) id (omega arith)
            (All-take IsByte (n * 16) (drop (s * 16) mem) (All-drop IsByte (s * 16) mem bytes))
            (omega arith) (14 + n * 16) (omega arith),
        refl,
        ap some (omega arith),
      )
