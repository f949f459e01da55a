-- ===== src/Tag/T12/Laws.antt =====
-- The answers of type-1 and type-2 tags carry the tag's memory.
use e2f77dee9c9d8e2bfbcafc.Base.{
  ℕ, zero, suc, ◌+◌, ◌*◌, ◌≤◌, ◌<◌, ◌≡◌, refl, ap, ◌∙◌, sym, arith, List, [], ◌∷◌, ◌++◌, length,
  length-append, length-slice, slice, drop, lt→ltb, get_or, All, All-take, All-append, some,
  Returns,
}
use e2f77dee9c9d8e2bfbcafc.Memory.{Buf, IsByte, poke, write, read, read-write_bytes, write-append}
use e2f77dee9c9d8e2bfbcafc.Tag.T12.{
  rall_command, read_command, process_t1t, process_t1t_rall, process_t2t, process_t2t_read,
  t2t_copy,
}

slice-suc :
    (mem : List ℕ) (off j n : ℕ)
    → j ≡ off + 1
    → off < length mem
    → slice mem off (suc n) ≡ get_or mem off 0 ∷ slice mem j n
slice-suc [] off j n e h = absurd (omega arith)
slice-suc (x ∷ mem) off zero n e h = absurd (omega arith)
slice-suc (x ∷ mem) zero (suc zero) n e h = refl
slice-suc (x ∷ mem) zero (suc (suc j)) n e h = absurd (omega arith)
slice-suc (x ∷ mem) (suc off) (suc j) n e h = slice-suc mem off j n (omega arith) (omega arith)

t2t_copy_lem :
    (n : ℕ) (mem : List ℕ) (off : ℕ) (rsp : Buf) (i : ℕ)
    → off + n ≤ 64
    → off + n ≤ length mem
    → t2t_copy n mem off rsp i ≡ write rsp i (slice mem off n)
unfolding t2t_copy
t2t_copy_lem zero mem off rsp i h k = refl
t2t_copy_lem (suc n) mem off rsp i h k =
    rw (slice-suc mem off (off + 1) n refl (omega arith), lt→ltb off 64 (omega arith))
      (t2t_copy_lem n mem (off + 1) (poke rsp i (get_or mem off 0)) (i + 1) (omega arith)
        (omega arith))

All-drop : (off : ℕ) (mem : List ℕ) → All IsByte mem → All IsByte (drop off mem)
All-drop zero mem h = h
All-drop (suc off) [] h = tt
All-drop (suc off) (x ∷ mem) h = All-drop off mem h.1

-- What is stored at `q` and the status byte behind it, read back.
framed :
    (rsp : Buf) (q : ℕ) (bytes : List ℕ) (j n : ℕ)
    → All IsByte bytes
    → j ≡ q + length bytes
    → n ≡ length bytes + 1
    → read (poke (write rsp q bytes) j 0) q n ≡ bytes ++ (0 ∷ [])
framed rsp q bytes j n h e f = rw (f ∙ sym (length-append bytes (0 ∷ []))) (
    ap (λ b. read b q (length (bytes ++ (0 ∷ [])))) (write-append rsp q bytes (0 ∷ []) j e)
    ∙ read-write_bytes rsp q (bytes ++ (0 ∷ []))
        (All-append IsByte bytes (0 ∷ []) h (omega arith, tt)))

-- A tag whose memory holds at least the 120 bytes answers the command RALL with them, behind the
-- header 0x11, 0x00 and before a zero, in 123 bytes.
pub process_t1t_rall_lem :
    (mem : List ℕ) (cmd : Buf) (p : ℕ) (rsp : Buf) (q : ℕ)
    → cmd p ≡ rall_command
    → All IsByte mem
    → 120 ≤ length mem
    → Returns (process_t1t mem cmd p rsp q) λ r.
      (read r.rsp q r.len ≡ 0x11 ∷ 0x00 ∷ (slice mem 0 120 ++ (0 ∷ [])))
      × (r.len ≡ 123)
      × (r.consumed ≡ some 1)
unfolding process_t1t process_t1t_rall
process_t1t_rall_lem mem cmd p rsp q e h k = rw (e) (
  framed rsp q (0x11 ∷ 0x00 ∷ slice mem 0 120) (q + 122) 123
      (omega arith, (omega arith, All-take IsByte 120 mem h))
      (omega (arith, length-slice mem 0 120 (omega arith)))
      (omega (arith, length-slice mem 0 120 (omega arith))),
  refl,
  refl,
)

-- The command READ for a block of which 16 bytes still lie in the 64 bytes of the memory is answered
-- with them and a zero, in 17 bytes.
pub process_t2t_read_lem :
    (mem : List ℕ) (cmd : Buf) (p : ℕ) (rsp : Buf) (q : ℕ)
    → cmd p ≡ read_command
    → All IsByte mem
    → 64 ≤ length mem
    → cmd (p + 1) ≤ 12
    → Returns (process_t2t mem cmd p rsp q) λ r.
      (read r.rsp q r.len ≡ slice mem (cmd (p + 1) * 4) 16 ++ (0 ∷ []))
      × (r.len ≡ 17)
      × (r.consumed ≡ some 2)
unfolding process_t2t process_t2t_read
process_t2t_read_lem mem cmd p rsp q e h k b = rw (e) (
  ap (λ w. read (poke w (q + 16) 0) q 17)
        (t2t_copy_lem 16 mem (cmd (p + 1) * 4) rsp q (omega arith) (omega arith))
      ∙ framed rsp q (slice mem (cmd (p + 1) * 4) 16) (q + 16) 17
          (All-take IsByte 16 (drop (cmd (p + 1) * 4) mem) (All-drop (cmd (p + 1) * 4) mem h))
          (omega (arith, length-slice mem (cmd (p + 1) * 4) 16 (omega arith)))
          (omega (arith, length-slice mem (cmd (p + 1) * 4) 16 (omega arith))),
  refl,
  refl,
)
