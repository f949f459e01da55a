-- ===== src/Tag/T4/Laws.antt =====
-- Reading a stored message back from a type-4 tag.
use e2f77dee9c9d8e2bfbcafc.Base.{
  ℕ, ◌+◌, ◌*◌, ◌/◌, ◌%◌, ◌^◌, ◌≤◌, ◌<◌, ◌≡◌, ◌≢◌, ◌⊎◌, refl, ◌∙◌, List, [], ◌∷◌, ◌++◌, length,
  splice, slice, drop, All, arith, ◌>>=◌, length-slice, length-append, slice-splice_inside,
  slice-append, ok, some, Returns, All-append, All-take, All-drop,
}
use e2f77dee9c9d8e2bfbcafc.Memory.{Buf, IsByte, read, write, read-write_bytes, write-append}
use e2f77dee9c9d8e2bfbcafc.Tag.{Response, t4t_ndef_cc}
use e2f77dee9c9d8e2bfbcafc.Tag.T4.{
  FileSelect, ndef_select, process_t4t, process_t4t_ndef_select, process_t4t_read_binary,
  file_bytes, bytes_eq, status_words,
}
use e2f77dee9c9d8e2bfbcafc.Tag.Store.{set_t4t_data}
use e2f77dee9c9d8e2bfbcafc.Tag.Store.Laws.{set_t4t_data_lem}

-- The read command lies at offset `p`.
abbrev pub IsReadBinary : Buf → ℕ → Type 0
IsReadBinary cmd p = (cmd p ≡ 0x00) × (cmd (p + 1) ≡ 0xb0)

-- The data and the status words behind it, as they stand in the response.
pub read_response :
    (rsp : Buf) (q n : ℕ) (bytes : List ℕ)
    → length bytes ≡ n
    → All IsByte bytes
    → read (write (write rsp q bytes) (q + n) (0x90 ∷ 0x00 ∷ [])) q (length bytes + 2)
      ≡ bytes ++ (0x90 ∷ 0x00 ∷ [])
read_response rsp q n bytes e hb =
    let sw : List ℕ = 0x90 ∷ 0x00 ∷ [] in
    rw (write-append rsp q bytes sw (q + n) (omega arith), ← length-append bytes sw)
      (read-write_bytes rsp q (bytes ++ sw) (All-append IsByte bytes sw hb (omega arith)))

-- The answer to a read command: the bytes of the selected file, and behind them the status words.
abbrev pub binary_response : Buf → ℕ → List ℕ → ℕ → Response
binary_response rsp q bytes le = record {
  rsp = write (write rsp q bytes) (q + le) (0x90 ∷ 0x00 ∷ []);
  consumed = some 5;
  len = le + 2;
}

pub read_binary_ok :
    (sel : FileSelect) (mem : List ℕ) (cmd : Buf) (p : ℕ) (rsp : Buf) (q : ℕ) (bytes : List ℕ)
    → IsReadBinary cmd p
    → file_bytes sel mem (cmd (p + 2) * 256 + cmd (p + 3)) (cmd (p + 4)) ≡ ok bytes
    → process_t4t sel mem cmd p rsp q ≡ ok (sel, binary_response rsp q bytes (cmd (p + 4)))
unfolding process_t4t bytes_eq process_t4t_read_binary
read_binary_ok sel mem cmd p rsp q bytes (h0, h1) f = rw (h0, h1, process_t4t_read_binary, f) refl

read_binary_step :
    (sel : FileSelect) (mem : List ℕ) (cmd : Buf) (p : ℕ) (rsp : Buf) (q : ℕ) (bytes : List ℕ)
    → IsReadBinary cmd p
    → file_bytes sel mem (cmd (p + 2) * 256 + cmd (p + 3)) (cmd (p + 4)) ≡ ok bytes
    → length bytes ≡ cmd (p + 4)
    → All IsByte bytes
    → Returns (process_t4t sel mem cmd p rsp q) λ r.
      (r.0 ≡ sel)
      × (r.1.len ≡ length bytes + 2)
      × (read r.1.rsp q (length bytes + 2) ≡ bytes ++ (0x90 ∷ 0x00 ∷ []))
read_binary_step sel mem cmd p rsp q bytes h f n hb =
    rw (read_binary_ok sel mem cmd p rsp q bytes h f)
      (refl, omega arith, read_response rsp q _ bytes n hb)

-- After a message was stored, the NDEF file of the tag holds it from offset 2 on.
pub ndef_file :
    (mem msg m : List ℕ) (k n : ℕ)
    → length mem ≡ 1039
    → length msg + 2 < 1024
    → set_t4t_data mem msg ≡ ok m
    → k + n ≤ length msg
    → file_bytes ndef_select m (2 + k) n ≡ ok (slice msg k n)
unfolding file_bytes
ndef_file mem msg m k n hm h e hk =
    let size : List ℕ = (length msg / 2 ^ 8 % 256) ∷ (length msg % 256) ∷ [] in
    let stored : m ≡ splice mem 0 (t4t_ndef_cc ++ (size ++ msg)) =
      cc (e, set_t4t_data_lem mem msg hm h) in
    let inside : slice m (15 + (2 + k)) n ≡ slice msg k n = rw stored (
      slice-splice_inside mem 0 (t4t_ndef_cc ++ (size ++ msg)) (15 + (2 + k)) (17 + k) n
        (omega arith) (omega arith) (omega arith)
      ∙ slice-append (t4t_ndef_cc ++ size) msg (17 + k) k n (omega arith)) in
    ground (arith, inside)

-- The command that selects the NDEF file, at offset `p`.
abbrev pub IsSelectNdef : Buf → ℕ → Type 0
IsSelectNdef cmd p =
    (cmd p ≡ 0x00)
    × (cmd (p + 1) ≡ 0xa4)
    × (cmd (p + 2) ≡ 0x00)
    × (cmd (p + 5) ≡ 0xe1)
    × (cmd (p + 6) ≡ 0x04)

pub select_step :
    (sel : FileSelect) (mem : List ℕ) (cmd : Buf) (p : ℕ) (rsp : Buf) (q : ℕ)
    → IsSelectNdef cmd p
    → process_t4t sel mem cmd p rsp q ≡ ok (ndef_select, status_words rsp q 0x90 0x00 7)
unfolding process_t4t bytes_eq
select_step sel mem cmd p rsp q h = ground (arith, h.3, h.4)

-- A message that was stored in a type-4 tag comes back to a reader: after the command that selects
-- the NDEF file, a read of `le` bytes at file offset 2 + k, inside the message, is answered by
-- bytes k to k + le of the message and the status words 90 00.
pub t4t_read_back :
    (mem msg m : List ℕ) (sel : FileSelect) (cmd₁ cmd₂ : Buf) (p k : ℕ) (rsp : Buf) (q : ℕ)
    → length mem ≡ 1039
    → length msg + 2 < 1024
    → All IsByte msg
    → set_t4t_data mem msg ≡ ok m
    → IsSelectNdef cmd₁ p
    → IsReadBinary cmd₂ p
    → cmd₂ (p + 2) * 256 + cmd₂ (p + 3) ≡ 2 + k
    → k + cmd₂ (p + 4) ≤ length msg
    → Returns (process_t4t sel m cmd₁ p rsp q >>= λ s. process_t4t s.0 m cmd₂ p s.1.rsp q) λ r.
      (r.0 ≡ ndef_select)
      × (r.1.len ≡ cmd₂ (p + 4) + 2)
      × (read r.1.rsp q (cmd₂ (p + 4) + 2) ≡ slice msg k (cmd₂ (p + 4)) ++ (0x90 ∷ 0x00 ∷ []))
t4t_read_back mem msg m sel cmd₁ cmd₂ p k rsp q hm hn hb e h₁ h₂ ho hk =
    let n = cmd₂ (p + 4) in
    let size : length (slice msg k n) ≡ n = length-slice msg k n hk in
    rw (select_step sel m cmd₁ p rsp q h₁) (
      rw size at (
        read_binary_step ndef_select m cmd₂ p (status_words rsp q 0x90 0x00 7).rsp q (slice msg k n)
          h₂ (rw ho (ndef_file mem msg m k n hm hn e hk)) size
          (All-take IsByte n (drop k msg) (All-drop IsByte k msg hb))))

-- The command is neither a select command nor one that reads.
abbrev pub IsUnknown : Buf → ℕ → Type 0
IsUnknown cmd p = (cmd p ≢ 0x00) ⊎ ((cmd (p + 1) ≢ 0xa4) × (cmd (p + 1) ≢ 0xb0))

-- A command that is neither a select command nor one that reads is answered all the same, with two
-- status bytes and as if it had seven bytes of its own. If its sixth and seventh byte are e1 04, the
-- NDEF file is selected and the status is 90 00; otherwise the selection stays and it is 6a 82.
pub t4t_unknown_answered :
    (sel : FileSelect) (mem : List ℕ) (cmd : Buf) (p : ℕ) (rsp : Buf) (q : ℕ)
    → IsUnknown cmd p
    → Returns (process_t4t sel mem cmd p rsp q) λ r.
      (r.1.len ≡ 2)
      × (r.1.consumed ≡ some 7)
      × (((cmd (p + 5) ≡ 0xe1)
            × (cmd (p + 6) ≡ 0x04)
            × (r.0 ≡ ndef_select)
            × (read r.1.rsp q 2 ≡ 0x90 ∷ 0x00 ∷ []))
          ⊎ (((cmd (p + 5) ≢ 0xe1) ⊎ (cmd (p + 6) ≢ 0x04))
              × (r.0 ≡ sel)
              × (read r.1.rsp q 2 ≡ 0x6a ∷ 0x82 ∷ [])))
unfolding process_t4t bytes_eq process_t4t_ndef_select status_words
t4t_unknown_answered sel mem cmd p rsp q h = ground arith
