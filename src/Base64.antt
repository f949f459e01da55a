-- ===== src/Base64.antt =====
-- The base64 encoder of src/base64.c. The bytes behind `in` are a list, the result is the list of the
-- characters that are stored, and `olen` is the room for them.
pub mod Length
pub mod Decode
pub mod Symbols
pub mod Rounds
pub mod RoundTrip
pub mod Reference
use e2f77dee9c9d8e2bfbcafc.Base.{
  ℕ, zero, suc, ◌+◌, ◌-◌, ◌*◌, ◌/◌, ◌%◌, ◌^◌, not, List, [], ◌∷◌, ◌++◌, length, ltb, ◌==◌,
  if◌then◌else◌, Result, ok, fault, bounds, assert, ◌>>=◌, ◌>>◌,
}

-- `value`, the table of the 64 characters.
unfoldable pub symbol : ℕ → ℕ
symbol v =
    if ltb v 26
    then 0x41 + v
    else (if ltb v 52
        then 0x61 + (v - 26)
        else (if ltb v 62 then 0x30 + (v - 52) else (if v == 62 then 0x2b else 0x2f)))

-- The round of the loop that consumes no byte, taken when six bits are pending.
unfoldable pub flush : ℕ → ℕ → ℕ → Result (List ℕ × ℕ × ℕ × ℕ)
flush shift rest olen =
    if shift == 0
    then (do assert (not (olen == 0)); ok (symbol rest ∷ [], 2, 0, olen - 1))
    else ok ([], shift, rest, olen)

-- The loop: the characters, the pending bits, and the room that is left. The bits of `rest` and of
-- the byte do not overlap.
unfoldable pub encode_loop : List ℕ → ℕ → ℕ → ℕ → Result (List ℕ × ℕ × ℕ)
unfolding flush
encode_loop [] shift rest olen = ok ([], rest, olen)
encode_loop (c ∷ cs) shift rest olen = do
  (before, s, r, o) ← flush shift rest olen
  assert (not (o == 0))
  (out, r', o') ← encode_loop cs ((s + 2) % 8) (c % 2 ^ s * 2 ^ (6 - s)) (o - 1)
  ok (before ++ (symbol (r + c / 2 ^ s) ∷ out), r', o')

-- The pending bits, if they are not zero: no test of `olen` guards this store.
unfoldable pub encode_rest : ℕ → ℕ → Result (List ℕ × ℕ)
encode_rest rest olen =
    if rest == 0
    then ok ([], olen)
    else (if olen == 0 then fault bounds else ok (symbol rest ∷ [], olen - 1))

-- The padding, of which `n` characters are still missing.
unfoldable pub pad : ℕ → ℕ → Result (List ℕ)
pad zero olen = ok []
pad (suc n) olen = do assert (not (olen == 0)); more ← pad n (olen - 1); ok (0x3d ∷ more)

unfoldable pub encode_base64 : List ℕ → ℕ → Result (List ℕ)
unfolding encode_loop encode_rest pad
encode_base64 in_bytes olen = do
  (out, rest, o) ← encode_loop in_bytes 2 0 olen
  (last, o') ← encode_rest rest o
  padding ← pad ((4 - (length out + length last) % 4) % 4) o'
  ok (out ++ (last ++ padding))
