-- ===== src/Tag/T4.antt =====
-- The commands of a type-4 tag: src/nfc-tag.c. `t4t_file_sel` is a state of its own.
pub mod Laws
use e2f77dee9c9d8e2bfbcafc.Base.{
  ℕ, ◌+◌, ◌*◌, Bool, true, false, ◌&&◌, Option, some, List, [], ◌∷◌, ◌++◌, slice, leb, ◌==◌,
  if◌then◌else◌, Result, ok, fault, assertion, ◌>>=◌, ◌>>◌, assert,
}
use e2f77dee9c9d8e2bfbcafc.Memory.{Buf, poke, write, read}
use e2f77dee9c9d8e2bfbcafc.Tag.{Response}

-- `enum t4t_file_select`
pub data FileSelect : Type 0 where
  none cc_select ndef_select : FileSelect

abbrev pub t4t_app_apdu : List ℕ
t4t_app_apdu =
    0x00 ∷ 0xa4 ∷ 0x04 ∷ 0x00 ∷ 0x07 ∷ 0xd2 ∷ 0x76 ∷ 0x00 ∷ 0x00 ∷ 0x85 ∷ 0x01 ∷ 0x01 ∷ 0x00 ∷ []

abbrev pub t4t_cc_apdu : List ℕ
t4t_cc_apdu = 0x00 ∷ 0xa4 ∷ 0x00 ∷ 0x0c ∷ 0x02 ∷ 0xe1 ∷ 0x03 ∷ []

abbrev pub t4t_rb_apdu : List ℕ
t4t_rb_apdu = 0x00 ∷ 0xb0 ∷ []

abbrev pub t4t_ndef_apdu : List ℕ
t4t_ndef_apdu = 0x00 ∷ 0xa4 ∷ 0x00 ∷ 0x0c ∷ 0x02 ∷ []

-- `memcmp(a, b, n) == 0` on two lists of `n` bytes.
unfoldable pub bytes_eq : List ℕ → List ℕ → Bool
bytes_eq [] [] = true
bytes_eq (x ∷ xs) (y ∷ ys) = x == y && bytes_eq xs ys
bytes_eq _ _ = false

-- The status words of a select command.
unfoldable pub status_words : Buf → ℕ → ℕ → ℕ → ℕ → Response
status_words rsp q sw1 sw2 size = record {
  rsp = write rsp q (sw1 ∷ sw2 ∷ []);
  consumed = some size;
  len = 2;
}

unfoldable pub process_t4t_app_select : Buf → ℕ → Response
unfolding status_words
process_t4t_app_select rsp q = status_words rsp q 0x90 0x00 13

unfoldable pub process_t4t_cc_select : Buf → ℕ → FileSelect × Response
unfolding status_words
process_t4t_cc_select rsp q = (cc_select, status_words rsp q 0x90 0x00 7)

-- The bytes of the selected file: `cc` stands at 0 and has 15 bytes, `data` at 15 and has 1024.
unfoldable pub file_bytes : FileSelect → List ℕ → ℕ → ℕ → Result (List ℕ)
file_bytes cc_select mem offset le = do assert (leb (le + offset) 15); ok (slice mem offset le)
file_bytes ndef_select mem offset le = do
  assert (leb (le + offset) 1024)
  ok (slice mem (15 + offset) le)
file_bytes none mem offset le = fault assertion

unfoldable pub process_t4t_read_binary : FileSelect → List ℕ → Buf → ℕ → Buf → ℕ → Result Response
process_t4t_read_binary sel mem cmd p rsp q = do
  let offset = cmd (p + 2) * 256 + cmd (p + 3)
  let le = cmd (p + 4)
  bytes ← file_bytes sel mem offset le
  ok record {
    rsp = write (write rsp q bytes) (q + le) (0x90 ∷ 0x00 ∷ []);
    consumed = some 5;
    len = le + 2;
  }

unfoldable pub process_t4t_ndef_select : FileSelect → Buf → ℕ → Buf → ℕ → FileSelect × Response
unfolding status_words
process_t4t_ndef_select sel cmd p rsp q =
    if cmd (p + 5) == 0xe1 && cmd (p + 6) == 0x04
    then (ndef_select, status_words rsp q 0x90 0x00 7)
    else (sel, status_words rsp q 0x6a 0x82 7)

-- The last test of the code compares `t4t_ndef_apdu` with itself.
unfoldable pub process_t4t :
    FileSelect → List ℕ → Buf → ℕ → Buf → ℕ → Result (FileSelect × Response)
unfolding bytes_eq process_t4t_app_select process_t4t_cc_select process_t4t_read_binary
    process_t4t_ndef_select
process_t4t sel mem cmd p rsp q =
    if bytes_eq (read cmd p 13) t4t_app_apdu
    then ok (sel, process_t4t_app_select rsp q)
    else (if bytes_eq (read cmd p 7) t4t_cc_apdu
        then ok (process_t4t_cc_select rsp q)
        else (if bytes_eq (read cmd p 2) t4t_rb_apdu
            then (do r ← process_t4t_read_binary sel mem cmd p rsp q; ok (sel, r))
            else (if bytes_eq t4t_ndef_apdu t4t_ndef_apdu
                then ok (process_t4t_ndef_select sel cmd p rsp q)
                else fault assertion)))
