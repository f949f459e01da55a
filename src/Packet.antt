-- ===== src/Packet.antt =====
-- NCI packets: the headers of src/nfc-nci.h (with BITORDER_MSB_FIRST at 0) and the functions of
-- src/nfc-nci.c that fill them in. A packet lies at offset 0 of its buffer, its payload at 3.
use e2f77dee9c9d8e2bfbcafc.Base.{ℕ, ◌+◌, ◌*◌, ◌/◌, ◌%◌, ◌≤◌, ◌≡◌, ◌∙◌, arith}
use e2f77dee9c9d8e2bfbcafc.Memory.{Buf, poke, read, read_behind}

-- `enum nci_mt`
abbrev pub mt_dta : ℕ
mt_dta = 0x0

abbrev pub mt_cmd : ℕ
mt_cmd = 0x1

abbrev pub mt_rsp : ℕ
mt_rsp = 0x2

abbrev pub mt_ntf : ℕ
mt_ntf = 0x3

-- `enum nci_gid`
abbrev pub gid_core : ℕ
gid_core = 0x0

abbrev pub gid_rf : ℕ
gid_rf = 0x1

abbrev pub gid_nfcee : ℕ
gid_nfcee = 0x2

abbrev pub gid_prop : ℕ
gid_prop = 0xf

-- `enum nci_status_code`, as far as the code uses it.
abbrev pub status_ok : ℕ
status_ok = 0x00

abbrev pub status_rejected : ℕ
status_rejected = 0x01

abbrev pub status_semantic_error : ℕ
status_semantic_error = 0x06

-- The bit fields of the header; `connid` of a data packet takes the place of `gid`.
abbrev pub pkt_mt : Buf → ℕ
pkt_mt b = b 0 / 32 % 8

abbrev pub pkt_gid : Buf → ℕ
pkt_gid b = b 0 % 16

abbrev pub pkt_connid : Buf → ℕ
pkt_connid b = b 0 % 16

abbrev pub pkt_oid : Buf → ℕ
pkt_oid b = b 1 % 64

abbrev pub pkt_len : Buf → ℕ
pkt_len b = b 2

-- The first byte: mt:3, pbf:1 and gid:4, from the top. All packets are sent with NCI_PBF_END.
abbrev pub header : Buf → ℕ → ℕ → ℕ → ℕ → Buf
header b mt gid second l = poke (poke (poke b 0 (mt % 8 * 32 + gid % 16)) 1 second) 2 l

-- `l` is an `unsigned char`, and the result is 3 + l. A data packet's second byte is 0.
unfoldable pub create_nci_dta : Buf → ℕ → ℕ → Buf × ℕ
create_nci_dta b connid l = (header b mt_dta connid 0 l, 3 + l % 256)

unfoldable pub create_control_rsp : Buf → ℕ → ℕ → ℕ → Buf × ℕ
create_control_rsp b gid oid l = (header b mt_rsp gid (oid % 64) l, 3 + l % 256)

unfoldable pub create_control_status_rsp : Buf → ℕ → ℕ → ℕ → Buf × ℕ
unfolding create_control_rsp
create_control_status_rsp b gid oid status = create_control_rsp (poke b 3 status) gid oid 1

unfoldable pub create_nci_ntf : Buf → ℕ → ℕ → ℕ → Buf × ℕ
create_nci_ntf b gid oid l = (header b mt_ntf gid (oid % 64) l, 3 + l % 256)

-- A packet's header ends in front of its payload.
pub read_payload :
    (b : Buf) (mt id second l at n : ℕ) → 3 ≤ at → read (header b mt id second l) at n ≡ read b at n
read_payload b mt id second l at n h =
    read_behind _ 2 l at n (omega arith)
    ∙ (read_behind _ 1 second at n (omega arith)
        ∙ read_behind b 0 (mt % 8 * 32 + id % 16) at n (omega arith))
