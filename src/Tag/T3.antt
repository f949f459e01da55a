-- ===== src/Tag/T3.antt =====
-- The check command of a type-3 tag: src/nfc-tag.c.
pub mod Laws
use e2f77dee9c9d8e2bfbcafc.Base.{
  ℕ, zero, suc, ◌+◌, ◌*◌, ◌%◌, none, some, List, [], ◌∷◌, slice, leb, ◌==◌, if◌then◌else◌, bit_and,
  Result, ok, fault, assertion, bounds, ◌>>=◌,
}
use e2f77dee9c9d8e2bfbcafc.Memory.{Buf, poke, write, read}
use e2f77dee9c9d8e2bfbcafc.Tag.{Response}

abbrev check_command : ℕ
check_command = 0x06

abbrev update_command : ℕ
update_command = 0x08

-- `sizeof(mem)` of the raw layout, and the size of a block.
abbrev t3t_memory_size : ℕ
t3t_memory_size = 1024

abbrev block_size : ℕ
block_size = 16

-- The block list element at offset `at`: the block number and how long the element is.
unfoldable pub block_element : Buf → ℕ → ℕ × ℕ
block_element cmd at =
    if bit_and (cmd at) 0x80 == 0 then (cmd (at + 1) * 256 + cmd (at + 2), 3) else (cmd (at + 1), 2)

-- The loop over the block list, with `n` rounds left: `i` and `j` are `uint8_t`, the list starts at
-- offset `bl`, and the data goes to offset `out`. It returns the buffer and the last `i`.
unfoldable pub check_loop : ℕ → List ℕ → Buf → ℕ → ℕ → ℕ → Buf → ℕ → Result (Buf × ℕ)
unfolding block_element
check_loop zero mem cmd bl i j rsp out = ok (rsp, i)
check_loop (suc n) mem cmd bl i j rsp out =
    let (bn, size) = block_element cmd (bl + i) in
    let rsp' = write rsp (out + j) (slice mem (bn * block_size) block_size) in
    let more = check_loop n mem cmd bl ((i + size) % 256) ((j + block_size) % 256) rsp' out in
    if leb (bn * block_size + block_size) t3t_memory_size then more else fault bounds

-- The header of the response is 13 bytes, that of the command 11, and `nbl` follows the services.
unfoldable pub process_t3t_check : List ℕ → Buf → ℕ → Buf → ℕ → Result Response
unfolding check_loop
process_t3t_check mem cmd p rsp q = do
  let nsv = cmd (p + 10)
  let tail = p + 11 + 2 * nsv
  let nbl = cmd tail
  (r₁, i) ← check_loop nbl mem cmd (tail + 1) 0 0 rsp (q + 13)
  let r₂ = write r₁ (q + 2) (read cmd (p + 2) 8)
  let r₃ = write r₂ (q + 10) (0x00 ∷ 0x00 ∷ nbl ∷ [])
  let r₄ = poke r₃ (q + 13 + block_size * nbl) 0x00
  let len = (13 + block_size * nbl + 1) % 256
  ok record {
    rsp = write r₄ q (len ∷ 0x07 ∷ []);
    consumed = some ((11 + 2 * nsv + 1 + i) % 256);
    len = len;
  }

-- An update command is accepted and has no effect; `len` is the length of the command.
unfoldable pub process_t3t : List ℕ → Buf → ℕ → ℕ → Buf → ℕ → Result Response
unfolding process_t3t_check
process_t3t mem cmd p len rsp q =
    if cmd (p + 1) == check_command
    then process_t3t_check mem cmd p rsp q
    else (if cmd (p + 1) == update_command
        then ok (record { rsp = rsp; consumed = none; len = len })
        else fault assertion)
