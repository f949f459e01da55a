-- ===== src/Tag/T12.antt =====
-- The commands of type-1 and type-2 tags: src/nfc-tag.c. The command lies at offset `p` of `cmd`,
-- and the response goes to offset `q` of `rsp`; `mem` is the tag's memory.
pub mod Laws
use e2f77dee9c9d8e2bfbcafc.Base.{
  ℕ, zero, suc, ◌+◌, ◌*◌, Option, none, some, List, [], ◌∷◌, ◌++◌, slice, ltb, ◌==◌, if◌then◌else◌,
  get_or, Result, ok, fault, assertion,
}
use e2f77dee9c9d8e2bfbcafc.Memory.{Buf, poke, write}
use e2f77dee9c9d8e2bfbcafc.Tag.{Response}

abbrev rall_command : ℕ
rall_command = 0x00

abbrev rid_command : ℕ
rid_command = 0x78

abbrev read_command : ℕ
read_command = 0x30

unfoldable pub process_t1t_rid : List ℕ → Buf → ℕ → Response
process_t1t_rid mem rsp q = record {
  rsp = poke (write rsp q (0x11 ∷ 0x00 ∷ slice mem 0 4)) (q + 6) 0;
  consumed = some 4;
  len = 7;
}

unfoldable pub process_t1t_rall : List ℕ → Buf → ℕ → Response
process_t1t_rall mem rsp q = record {
  rsp = poke (write rsp q (0x11 ∷ 0x00 ∷ slice mem 0 120)) (q + 122) 0;
  consumed = some 1;
  len = 123;
}

unfoldable pub process_t1t : List ℕ → Buf → ℕ → Buf → ℕ → Result Response
unfolding process_t1t_rall process_t1t_rid
process_t1t mem cmd p rsp q =
    if cmd p == rall_command
    then ok (process_t1t_rall mem rsp q)
    else (if cmd p == rid_command then ok (process_t1t_rid mem rsp q) else fault assertion)

-- The copying loop of `process_t2t_read`, with `n` rounds left of 16.
unfoldable pub t2t_copy : ℕ → List ℕ → ℕ → Buf → ℕ → Buf
t2t_copy zero mem offset rsp i = rsp
t2t_copy (suc n) mem offset rsp i =
    let more = t2t_copy n mem (offset + 1) (poke rsp i (get_or mem offset 0)) (i + 1) in
    if ltb offset 64 then more else rsp

unfoldable pub process_t2t_read : List ℕ → Buf → ℕ → Buf → ℕ → Response
unfolding t2t_copy
process_t2t_read mem cmd p rsp q = record {
  rsp = poke (t2t_copy 16 mem (cmd (p + 1) * 4) rsp q) (q + 16) 0;
  consumed = some 2;
  len = 17;
}

unfoldable pub process_t2t : List ℕ → Buf → ℕ → Buf → ℕ → Result Response
unfolding process_t2t_read
process_t2t mem cmd p rsp q =
    if cmd p == read_command then ok (process_t2t_read mem cmd p rsp q) else fault assertion
