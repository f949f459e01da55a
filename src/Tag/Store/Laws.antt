-- ===== src/Tag/Store/Laws.antt =====
-- What a tag's memory is after an NDEF message was written into it.
use e2f77dee9c9d8e2bfbcafc.Base.{
  ℕ, ◌+◌, ◌-◌, ◌/◌, ◌%◌, ◌^◌, ◌≤◌, ◌<◌, ◌≡◌, List, [], ◌∷◌, ◌++◌, length, splice, replicate,
  length-splice, length-append, splice-splice, ok, fault, bounds, arith, lt→ltb,
}
use mathlib.Core.List.{append_assoc}
use e2f77dee9c9d8e2bfbcafc.Tag.{
  copy, clear, size_sub, t1t_cc, t4t_ndef_cc, ndef_message_tlv, ndef_terminator_tlv,
}
use e2f77dee9c9d8e2bfbcafc.Tag.Store.{set_t1t_data, set_t2t_data, set_t4t_data}

-- The message TLV, the terminator and the padding of a data area for messages of at most
-- `room` bytes.
abbrev pub tlv_area : ℕ → List ℕ → List ℕ
tlv_area room msg =
    ndef_message_tlv ∷ length msg ∷ (msg ++ (ndef_terminator_tlv ∷ replicate (room - length msg) 0))

pub copy_first :
    (mem : List ℕ) (off : ℕ) (a : List ℕ)
    → off + length a ≤ length mem
    → copy mem off a ≡ ok (splice mem off a)
copy_first mem off a h = ground arith

-- A store that ends where the next one begins.
copy_next :
    (mem : List ℕ) (off : ℕ) (a b : List ℕ) (j : ℕ)
    → j ≡ off + length a
    → off + length a + length b ≤ length mem
    → copy (splice mem off a) j b ≡ ok (splice mem off (a ++ b))
copy_next mem off a b j e h = ground (arith, length-splice mem off a, splice-splice mem off a b j)

clear_next :
    (mem : List ℕ) (off : ℕ) (a : List ℕ) (j n : ℕ)
    → j ≡ off + length a
    → off + length a + n ≤ length mem
    → clear (splice mem off a) j n ≡ ok (splice mem off (a ++ replicate n 0))
clear_next mem off a j n e h =
    ground (arith, length-splice mem off a, splice-splice mem off a (replicate n 0) j)

clear_outside : (mem : List ℕ) (off n : ℕ) → length mem < off + n → clear mem off n ≡ fault bounds
clear_outside mem off n h = ground arith

-- A message of at most 89 bytes fills the data area of a type-1 tag, together with the capability
-- container before it, and the terminator and zeros behind it; no other byte changes.
pub set_t1t_data_lem :
    (mem msg : List ℕ)
    → length mem ≡ 1039
    → length msg ≤ 89
    → set_t1t_data mem msg ≡ ok (splice mem 8 (t1t_cc ++ tlv_area 89 msg))
unfolding set_t1t_data
set_t1t_data_lem mem msg hm h =
    let n = length msg in
    let head : List ℕ = t1t_cc ++ (ndef_message_tlv ∷ n ∷ []) in
    let cut : n % 256 ≡ n = omega arith in
    let size : size_sub 96 (7 + n) ≡ 89 - n = omega arith in
    rw (
      lt→ltb n 96 (omega arith),
      cut,
      size,
      copy_first mem 8 t1t_cc (omega arith),
      copy_next mem 8 t1t_cc (ndef_message_tlv ∷ n ∷ []) 12 (omega arith) (omega arith),
      copy_next mem 8 head msg 14 (omega arith) (omega arith),
      copy_next mem 8 (head ++ msg) (ndef_terminator_tlv ∷ []) (14 + n) (omega arith) (omega arith),
      clear_next mem 8 (head ++ (msg ++ (ndef_terminator_tlv ∷ []))) (15 + n) (89 - n)
          (omega (arith, length-append msg (ndef_terminator_tlv ∷ [])))
          (omega (arith, length-append msg (ndef_terminator_tlv ∷ []))),
      append_assoc msg (ndef_terminator_tlv ∷ []) (replicate (89 - n) 0),
    )

-- The assertion also lets messages of 90 to 95 bytes pass, and for these the size that `memset` is
-- given wraps around: the call leaves the tag's memory.
pub set_t1t_data_overflow :
    (mem msg : List ℕ)
    → length mem ≡ 1039
    → 90 ≤ length msg
    → length msg < 96
    → set_t1t_data mem msg ≡ fault bounds
unfolding set_t1t_data
set_t1t_data_overflow mem msg hm h k =
    let n = length msg in
    let head : List ℕ = t1t_cc ++ (ndef_message_tlv ∷ n ∷ []) in
    let cut : n % 256 ≡ n = omega arith in
    rw
      (
        lt→ltb n 96 (omega arith),
        cut,
        copy_first mem 8 t1t_cc (omega arith),
        copy_next mem 8 t1t_cc (ndef_message_tlv ∷ n ∷ []) 12 (omega arith) (omega arith),
        copy_next mem 8 head msg 14 (omega arith) (omega arith),
        copy_next mem 8 (head ++ msg) (ndef_terminator_tlv ∷ []) (14 + n) (omega arith)
            (omega arith),
      )
      (clear_outside (splice mem 8 (head ++ (msg ++ (ndef_terminator_tlv ∷ [])))) (15 + n)
        (size_sub 96 (7 + n))
        (omega (arith, length-splice mem 8 (head ++ (msg ++ (ndef_terminator_tlv ∷ []))))))

-- A message of at most 45 bytes fills the data area of a type-2 tag, with the terminator and zeros
-- behind it; no other byte changes.
pub set_t2t_data_lem :
    (mem msg : List ℕ)
    → length mem ≡ 1039
    → length msg ≤ 45
    → set_t2t_data mem msg ≡ ok (splice mem 16 (tlv_area 45 msg))
unfolding set_t2t_data
set_t2t_data_lem mem msg hm h =
    let n = length msg in
    let head : List ℕ = ndef_message_tlv ∷ n ∷ [] in
    let cut : n % 256 ≡ n = omega arith in
    let size : size_sub 48 (3 + n) ≡ 45 - n = omega arith in
    rw (
      lt→ltb n 48 (omega arith),
      cut,
      size,
      copy_first mem 16 head (omega arith),
      copy_next mem 16 head msg 18 (omega arith) (omega arith),
      copy_next mem 16 (head ++ msg) (ndef_terminator_tlv ∷ []) (18 + n) (omega arith)
          (omega arith),
      clear_next mem 16 (head ++ (msg ++ (ndef_terminator_tlv ∷ []))) (19 + n) (45 - n)
          (omega (arith, length-append msg (ndef_terminator_tlv ∷ [])))
          (omega (arith, length-append msg (ndef_terminator_tlv ∷ []))),
      append_assoc msg (ndef_terminator_tlv ∷ []) (replicate (45 - n) 0),
    )

-- Every message that the assertion lets pass is stored in a type-4 tag behind the capability
-- container and its own length, in big endian; no other byte changes.
pub set_t4t_data_lem :
    (mem msg : List ℕ)
    → length mem ≡ 1039
    → length msg + 2 < 1024
    → set_t4t_data mem msg
      ≡ ok (splice mem 0 (t4t_ndef_cc ++ ((length msg / 2 ^ 8 % 256) ∷ (length msg % 256) ∷ msg)))
unfolding set_t4t_data
set_t4t_data_lem mem msg hm h =
    let n = length msg in
    let size : List ℕ = (n / 2 ^ 8 % 256) ∷ (n % 256) ∷ [] in
    rw (
      lt→ltb (n + 2) 1024 h,
      copy_first mem 0 t4t_ndef_cc (omega arith),
      copy_next mem 0 t4t_ndef_cc size 15 (omega arith) (omega arith),
      copy_next mem 0 (t4t_ndef_cc ++ size) msg 17 (omega arith) (omega arith),
    )
