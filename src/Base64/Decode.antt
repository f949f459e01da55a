-- ===== src/Base64/Decode.antt =====
-- The base64 decoder of src/base64.c. The characters behind `in` are a list, and `out` is an offset
-- into a buffer.
use e2f77dee9c9d8e2bfbcafc.Base.{
  ℕ, ◌+◌, ◌-◌, ◌*◌, ◌/◌, ◌%◌, ◌^◌, not, ◌&&◌, ◌||◌, length, Option, none, some, List, [], ◌∷◌, leb,
  ◌==◌, if◌then◌else◌, bit_or, Result, ok, assert, ◌>>=◌, ◌>>◌,
}
use e2f77dee9c9d8e2bfbcafc.Memory.{Buf, poke}

-- `value`, the table of 256 entries: those that it does not name are zero.
unfoldable pub value : ℕ → ℕ
value c =
    if leb 0x41 c && leb c 0x5a
    then c - 0x41
    else (if leb 0x61 c && leb c 0x7a
        then c - 0x61 + 26
        else (if leb 0x30 c && leb c 0x39
            then c - 0x30 + 52
            else (if c == 0x2b
                then 62
                else (if c == 0x2f then 63 else (if c == 0x3d then 0xff else 0)))))

-- The variables of the loop: `shift`, the memory behind `out` and its offset, the room that is left,
-- and the number of bytes that are complete.
pub record Decoder : Type 0 where
  pub shift : ℕ
  pub buf : Buf
  pub out : ℕ
  pub olen : ℕ
  pub len : ℕ

-- What a round ends in: `break` at the padding, the return for other input, or the next round.
pub data Round : Type 0 where
  stop invalid : Round
  next : Decoder → Round

-- `++out; --olen; ++len;`
abbrev pub advance : Decoder → Decoder
advance d = record d { out = d.out + 1; olen = d.olen - 1; len = d.len + 1 }

-- The three branches for a six-bit value, behind `assert(olen)`. The tests of `olen` that follow in
-- the code are never true there.
unfoldable pub take_value : ℕ → Decoder → Result Decoder
take_value v d =
    if d.shift == 0
    then ok (record d { shift = 2; buf = poke d.buf d.out (v * 2 ^ 2) })
    else (if d.shift == 6
        then ok (advance (record d { shift = 0; buf = poke d.buf d.out (bit_or (d.buf d.out) v) }))
        else (do
          let d' =
              advance
                (record d { buf = poke d.buf d.out (bit_or (d.buf d.out) (v / 2 ^ (6 - d.shift))) })
          let shift = d.shift + 2
          assert (not (d'.olen == 0))
          ok (record d' { shift = shift; buf = poke d'.buf d'.out (v * 2 ^ shift) })))

unfoldable pub decode_round : ℕ → Decoder → Result Round
unfolding take_value
decode_round c d =
    let v = value c in
    if v == 0xff
    then ok stop
    else (if v == 0 && not (c == 0x41) then ok invalid else (do
      assert (d.shift % 2 == 0)
      assert (not (d.olen == 0))
      d' ← take_value v d
      ok (next d')))

-- `none` is the result -1.
unfoldable pub decode_loop : List ℕ → Decoder → Result (Option Decoder)
unfolding decode_round
decode_loop [] d = ok (some d)
decode_loop (c ∷ cs) d = do
  round ← decode_round c d
  elim round [ stop ↦ ok (some d) | invalid ↦ ok none | next d' ↦ decode_loop cs d' ]

-- The memory and the length, or `none` for -1.
unfoldable pub decode_base64 : List ℕ → Buf → ℕ → ℕ → Result (Option (Buf × ℕ))
unfolding decode_loop
decode_base64 in_chars b p olen = do
  assert (not (olen == 0) || length in_chars == 0)
  r ← decode_loop in_chars (record { shift = 0; buf = b; out = p; olen = olen; len = 0 })
  ok (elim r [ none ↦ none | some d ↦ some (d.buf, d.len) ])
