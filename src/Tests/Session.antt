-- ===== src/Tests/Session.antt =====
-- The host reads a message of six bytes from tags of all four types.
use e2f77dee9c9d8e2bfbcafc.Base.{
  ℕ, ◌*◌, false, refl, inl, arith, some, List, [], ◌∷◌, ◌++◌, replicate, slice, All, All-replicate,
  ◌>>=◌, Returns,
}
use e2f77dee9c9d8e2bfbcafc.Memory.{Buf, IsByte, read}
use e2f77dee9c9d8e2bfbcafc.Rf.{Rfst, RfProtocol, TechMode}
use e2f77dee9c9d8e2bfbcafc.Device.{device_init}
use e2f77dee9c9d8e2bfbcafc.Tag.{Tag, TagType, t1t_cc}
use e2f77dee9c9d8e2bfbcafc.Tag.Store.Laws.{tlv_area}
use e2f77dee9c9d8e2bfbcafc.Re.{Re, Host, init_re, nfcid_text}
use e2f77dee9c9d8e2bfbcafc.Re.Data.Answer.{Carries}
use e2f77dee9c9d8e2bfbcafc.System.{System, boot}
use e2f77dee9c9d8e2bfbcafc.Nci.Tables.{process_nci_msg}
use e2f77dee9c9d8e2bfbcafc.Nci.Session.{Serves}
use e2f77dee9c9d8e2bfbcafc.Nci.Session.Store.{store}
use e2f77dee9c9d8e2bfbcafc.Nci.Session.T12.{t1t_session, t2t_session}
use e2f77dee9c9d8e2bfbcafc.Nci.Session.T3.{t3t_session}
use e2f77dee9c9d8e2bfbcafc.Nci.Session.T4.{t4t_session}
use e2f77dee9c9d8e2bfbcafc.Tests.{zeros, packet}

abbrev text : List ℕ
text = 0xd1 ∷ 0x01 ∷ 0x02 ∷ 0x54 ∷ 0x68 ∷ 0x69 ∷ []

abbrev mem : List ℕ
mem = replicate 1039 7

mem-bytes : All IsByte mem
mem-bytes = All-replicate IsByte 1039 7 (omega arith)

abbrev tag : TagType → Tag
tag type = record { type = type; mem = mem }

abbrev re : RfProtocol → Re
unfolding init_re
re proto = init_re proto TechMode.a_passive_listen (some 0) (nfcid_text 0x30) (replicate 8 0)

-- The tag is active.
abbrev sys : RfProtocol → TagType → System
unfolding boot device_init
sys proto type = record boot {
  nfc = record device_init { rf_state = Rfst.poll_active; active_re = some 0 };
  res = re proto ∷ [];
  tags = tag type ∷ [];
}

sys-Serves : (proto : RfProtocol) (type : TagType) → Serves (sys proto type) proto 0
unfolding init_re boot device_init
sys-Serves proto type = record {
  index = 0;
  re = re proto;
  passes = inl refl;
  active = refl;
  found = refl;
  speaks = refl;
  tagged = refl;
}

abbrev host : Host
host = record { new_timeout_result = λ _. some 1; timeout_is_pending = λ _ _. false }

abbrev rall : Buf
rall = packet (0x02 ∷ 0 ∷ 4 ∷ 0x00 ∷ 0 ∷ 0 ∷ 0 ∷ [])

t1t_session_example :
    Returns
      (store (sys RfProtocol.t1t TagType.t1t) 0 text >>= λ x. process_nci_msg host x.sys rall zeros)
      λ a. Carries a.rsp a.len 2 (
        0x11
        ∷ 0x00
        ∷ ((slice mem 0 8 ++ ((t1t_cc ++ tlv_area 89 text) ++ slice mem 104 16)) ++ (0 ∷ [])))
unfolding init_re boot device_init
t1t_session_example =
    t1t_session host (sys RfProtocol.t1t TagType.t1t) 0 (tag TagType.t1t) text rall zeros refl refl
      mem-bytes (ground arith) refl (sys-Serves RfProtocol.t1t TagType.t1t) refl (omega arith) refl

abbrev read_block : Buf
read_block = packet (0x02 ∷ 0 ∷ 2 ∷ 0x30 ∷ 5 ∷ [])

t2t_session_example :
    Returns
      (store (sys RfProtocol.t2t TagType.t2t) 0 text >>= λ x.
        process_nci_msg host x.sys read_block zeros)
      λ a. Carries a.rsp a.len 2 (slice (tlv_area 45 text) (4 * 1) 16 ++ (0 ∷ []))
unfolding init_re boot device_init
t2t_session_example =
    t2t_session host (sys RfProtocol.t2t TagType.t2t) 0 (tag TagType.t2t) text read_block zeros refl
      refl mem-bytes (ground arith) refl 1 (sys-Serves RfProtocol.t2t TagType.t2t) refl
      (omega arith) refl refl (omega arith)

-- A message of three blocks, and a command for the second and the third.
abbrev long : List ℕ
long = replicate 48 9

abbrev check_blocks : Buf
check_blocks = packet (
    0x02 ∷ 0 ∷ 18 ∷ 18 ∷ 0x06 ∷ 1 ∷ 2 ∷ 3 ∷ 4 ∷ 5 ∷ 6 ∷ 7 ∷ 8 ∷ 1 ∷ 0x0b ∷ 0 ∷ 2 ∷ 0x80 ∷ 2 ∷ 0x80
    ∷ 3 ∷ [])

t3t_session_example :
    Returns
      (store (sys RfProtocol.t3t TagType.t3t) 0 long >>= λ x.
        process_nci_msg host x.sys check_blocks zeros)
      λ a. Carries a.rsp a.len 2 (
        46
        ∷ 0x07
        ∷ (read check_blocks 5 8 ++ (0 ∷ 0 ∷ 2 ∷ (slice long (1 * 16) (2 * 16) ++ (0 ∷ [])))))
unfolding init_re boot device_init
t3t_session_example =
    t3t_session host (sys RfProtocol.t3t TagType.t3t) 0 (tag TagType.t3t) long check_blocks zeros 1
      2 refl refl mem-bytes (All-replicate IsByte 48 9 (omega arith))
      (sys-Serves RfProtocol.t3t TagType.t3t) refl (omega arith) refl refl (omega arith) refl
      (refl, refl, (refl, refl, tt)) (omega arith) (omega arith)

abbrev select_ndef : Buf
select_ndef = packet (0x02 ∷ 0 ∷ 7 ∷ 0x00 ∷ 0xa4 ∷ 0x00 ∷ 0x0c ∷ 0x02 ∷ 0xe1 ∷ 0x04 ∷ [])

-- Four bytes at file offset 3.
abbrev read_four : Buf
read_four = packet (0x02 ∷ 0 ∷ 5 ∷ 0x00 ∷ 0xb0 ∷ 0x00 ∷ 0x03 ∷ 0x04 ∷ [])

t4t_session_example :
    Returns
      (store (sys RfProtocol.iso_dep TagType.t4t) 0 text >>= λ d.
        process_nci_msg host d.sys select_ndef zeros >>= λ a.
        process_nci_msg host a.sys read_four a.rsp)
      λ a. Carries a.rsp a.len 2 (slice text 1 4 ++ (0x90 ∷ 0x00 ∷ []))
unfolding init_re boot device_init
t4t_session_example =
    t4t_session host (sys RfProtocol.iso_dep TagType.t4t) 0 (tag TagType.t4t) text refl refl
      (ground arith) select_ndef read_four zeros 1 (sys-Serves RfProtocol.iso_dep TagType.t4t) refl
      (omega arith) refl (refl, refl, refl, refl, refl) refl (refl, refl) refl (omega arith)
      (omega arith)
