-- ===== src/Tag.antt =====
-- The emulated NFC tags: the data of src/nfc-tag.c and src/nfc-tag.h. A tag is its type and the
-- memory of the union `t`; the fields of the four tag layouts are offsets into that memory.
pub mod Store
pub mod T12
pub mod T3
pub mod T4
use e2f77dee9c9d8e2bfbcafc.Base.{
  ℕ, ◌+◌, ◌-◌, ◌*◌, ◌%◌, ◌^◌, Option, none, some, List, [], ◌∷◌, ◌++◌, length, splice, replicate,
  leb, if◌then◌else◌, Result, ok, fault, bounds, ◌>>=◌,
}
use e2f77dee9c9d8e2bfbcafc.Memory.{Buf}

pub data TagType : Type 0 where
  t1t t2t t3t t4t : TagType

-- `sizeof` of the union: 15 + 1024 bytes of a type-4 tag.
abbrev pub union_size : ℕ
union_size = 1039

pub record Tag : Type 0 where
  pub type : TagType
  pub mem : List ℕ

-- `memcpy(mem + off, bytes, length bytes)`
abbrev pub copy : List ℕ → ℕ → List ℕ → Result (List ℕ)
copy mem off bytes =
    if leb (off + length bytes) (length mem) then ok (splice mem off bytes) else fault bounds

-- `memset(mem + off, 0, n)`
abbrev pub clear : List ℕ → ℕ → ℕ → Result (List ℕ)
clear mem off n =
    let cleared = splice mem off (replicate n 0) in
    if leb (off + n) (length mem) then ok cleared else fault bounds

-- `sizeof(...) - offset` as a `size_t`.
abbrev pub size_sub : ℕ → ℕ → ℕ
size_sub a b = (2 ^ 64 + a - b) % 2 ^ 64

-- What a command leaves: the response buffer, `*consumed` (`none` if the handler does not set it),
-- and the length that is returned.
pub record Response : Type 0 where
  pub rsp : Buf
  pub consumed : Option ℕ
  pub len : ℕ

abbrev pub t1t_uid : List ℕ
t1t_uid = 0x01 ∷ 0x02 ∷ 0x03 ∷ 0x04 ∷ 0x05 ∷ 0x06 ∷ 0x07 ∷ 0x08 ∷ []

-- `T1T_RES` names one byte; the initialiser clears the other fifteen.
abbrev pub t1t_res : List ℕ
t1t_res = 0x00 ∷ []

abbrev pub t1t_cc : List ℕ
t1t_cc = 0xe1 ∷ 0x10 ∷ 0x0e ∷ 0x00 ∷ []

abbrev pub t2t_internal : List ℕ
t2t_internal = 0x04 ∷ 0x82 ∷ 0x2f ∷ 0x21 ∷ 0x5a ∷ 0x53 ∷ 0x28 ∷ 0x80 ∷ 0xa1 ∷ 0x48 ∷ []

abbrev pub t2t_lock : List ℕ
t2t_lock = 0x00 ∷ 0x00 ∷ []

abbrev pub t2t_cc : List ℕ
t2t_cc = 0xe1 ∷ 0x10 ∷ 0x12 ∷ 0x00 ∷ []

-- Version, blocks per check and update, block count, unused, write flag, access, length, checksum.
abbrev pub t3t_header : List ℕ
t3t_header =
    0x10 ∷ 0x04 ∷ 0x01 ∷ 0x00 ∷ 0x0d ∷ 0x00 ∷ 0x00 ∷ 0x00 ∷ 0x00 ∷ 0x00 ∷ 0x01 ∷ 0x00 ∷ 0x00 ∷ 0x00
    ∷ 0x00 ∷ 0x23 ∷ []

abbrev pub t4t_proprietary_cc : List ℕ
t4t_proprietary_cc =
    0x00 ∷ 0x0f ∷ 0x20 ∷ 0x00 ∷ 0x3b ∷ 0x00 ∷ 0x34 ∷ 0x05 ∷ 0x06 ∷ 0xe1 ∷ 0x04 ∷ 0x04 ∷ 0x00 ∷ 0x00
    ∷ 0x00 ∷ []

abbrev pub t4t_ndef_cc : List ℕ
t4t_ndef_cc =
    0x00 ∷ 0x0f ∷ 0x20 ∷ 0x00 ∷ 0x3b ∷ 0x00 ∷ 0x34 ∷ 0x04 ∷ 0x06 ∷ 0xe1 ∷ 0x04 ∷ 0x04 ∷ 0x00 ∷ 0x00
    ∷ 0x00 ∷ []

abbrev pub ndef_message_tlv : ℕ
ndef_message_tlv = 0x03

abbrev pub ndef_terminator_tlv : ℕ
ndef_terminator_tlv = 0xfe

-- `nfc_tags`
unfoldable pub nfc_tags : List Tag
nfc_tags =
    record { type = t1t; mem = splice zeros 0 t1t_uid }
    ∷ record { type = t2t; mem = splice zeros 0 (t2t_internal ++ (t2t_lock ++ t2t_cc)) }
    ∷ record { type = t3t; mem = splice zeros 0 t3t_header }
    ∷ record { type = t4t; mem = splice zeros 0 t4t_proprietary_cc }
    ∷ []
  where
    zeros : List ℕ
    zeros = replicate union_size 0
