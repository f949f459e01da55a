-- ===== src/Tag/Store.antt =====
-- Writing an NDEF message into a tag, and formatting one: src/nfc-tag.c. The message is the list of
-- the `len` bytes behind `ndef_msg`.
pub mod Laws
pub mod Checksum
use e2f77dee9c9d8e2bfbcafc.Base.{
  ℕ, ◌+◌, ◌-◌, ◌*◌, ◌/◌, ◌%◌, ◌^◌, List, [], ◌∷◌, length, slice, ltb, Result, ok, ◌>>=◌, ◌>>◌,
  assert,
}
use e2f77dee9c9d8e2bfbcafc.Tag.{
  Tag, TagType, t1t, t2t, t3t, t4t, copy, clear, size_sub, t1t_uid, t1t_res, t1t_cc, t2t_internal,
  t2t_lock, t2t_cc, t3t_header, t4t_proprietary_cc, t4t_ndef_cc, ndef_message_tlv,
  ndef_terminator_tlv,
}

-- `data` stands at 8 and has 96 bytes. The size that `memset` is given is a `size_t`.
unfoldable pub set_t1t_data : List ℕ → List ℕ → Result (List ℕ)
set_t1t_data mem msg = do
  let len = length msg
  assert (ltb len 96)
  m₁ ← copy mem 8 t1t_cc
  m₂ ← copy m₁ 12 (ndef_message_tlv ∷ (len % 256) ∷ [])
  m₃ ← copy m₂ 14 msg
  m₄ ← copy m₃ (14 + len) (ndef_terminator_tlv ∷ [])
  clear m₄ (15 + len) (size_sub 96 (7 + len))

-- `data` stands at 16 and has 48 bytes.
unfoldable pub set_t2t_data : List ℕ → List ℕ → Result (List ℕ)
set_t2t_data mem msg = do
  let len = length msg
  assert (ltb len 48)
  m₁ ← copy mem 16 (ndef_message_tlv ∷ (len % 256) ∷ [])
  m₂ ← copy m₁ 18 msg
  m₃ ← copy m₂ (18 + len) (ndef_terminator_tlv ∷ [])
  clear m₃ (19 + len) (size_sub 48 (3 + len))

-- The checksum loop, over a `uint16_t`.
unfoldable pub checksum : ℕ → List ℕ → ℕ
checksum cs [] = cs
checksum cs (x ∷ xs) = checksum ((cs + x) % 2 ^ 16) xs

-- `ln` stands at 11, `cs` at 14, and `data`, of 63 blocks, at 16.
unfoldable pub set_t3t_data : List ℕ → List ℕ → Result (List ℕ)
unfolding checksum
set_t3t_data mem msg = do
  let len = length msg
  assert (ltb len 1008)
  m₁ ← copy mem 11 ((len / 2 ^ 16 % 256) ∷ (len / 2 ^ 8 % 256) ∷ (len % 256) ∷ [])
  let cs = checksum 0 (slice m₁ 0 14)
  m₂ ← copy m₁ 14 ((cs / 2 ^ 8 % 256) ∷ (cs % 256) ∷ [])
  copy m₂ 16 msg

-- `cc` stands at 0, and `data`, of 1024 bytes, at 15.
unfoldable pub set_t4t_data : List ℕ → List ℕ → Result (List ℕ)
set_t4t_data mem msg = do
  let len = length msg
  assert (ltb (len + 2) 1024)
  m₁ ← copy mem 0 t4t_ndef_cc
  m₂ ← copy m₁ 15 ((len / 2 ^ 8 % 256) ∷ (len % 256) ∷ [])
  copy m₂ 17 msg

unfoldable pub set_data_of : TagType → List ℕ → List ℕ → Result (List ℕ)
set_data_of t1t mem msg = set_t1t_data mem msg
set_data_of t2t mem msg = set_t2t_data mem msg
set_data_of t3t mem msg = set_t3t_data mem msg
set_data_of t4t mem msg = set_t4t_data mem msg

-- `nfc_tag_set_data`, which returns 0 whenever it returns.
unfoldable pub tag_set_data : Tag → List ℕ → Result Tag
unfolding set_data_of
tag_set_data tag msg = do mem ← set_data_of tag.type tag.mem msg; ok (record tag { mem = mem })

format_of : TagType → List ℕ → Result (List ℕ)
format_of t1t mem = do m₁ ← clear mem 8 96; m₂ ← copy m₁ 0 t1t_uid; copy m₂ 104 t1t_res
format_of t2t mem = do
  m₁ ← clear mem 16 48
  m₂ ← copy m₁ 0 t2t_internal
  m₃ ← copy m₂ 10 t2t_lock
  copy m₃ 12 t2t_cc
format_of t3t mem = do m₁ ← clear mem 16 1008; copy m₁ 0 t3t_header
format_of t4t mem = do m₁ ← clear mem 15 1024; copy m₁ 0 t4t_proprietary_cc

-- `nfc_tag_format`, which returns 0 whenever it returns.
unfoldable pub tag_format : Tag → Result Tag
unfolding format_of
tag_format tag = do mem ← format_of tag.type tag.mem; ok (record tag { mem = mem })
