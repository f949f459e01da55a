-- ===== src/Llcp/Header.antt =====
-- What is written as a PDU header is read back.
use e2f77dee9c9d8e2bfbcafc.Base.{ℕ, ◌+◌, ◌*◌, ◌<◌, ◌≤◌, ◌≡◌, ◌⊎◌, arith}
use e2f77dee9c9d8e2bfbcafc.Memory.{Buf, IsByte}
use e2f77dee9c9d8e2bfbcafc.Llcp.{
  create_pdu, create_pdu_dm, create_pdu_i, pdu_dsap, pdu_ssap, pdu_ptype, ptype_i, ptype_dm,
}

-- The three header fields that `llcp_create_pdu` packs into two bytes read back unchanged, and the
-- call changes no byte outside the length that it returns.
pub create_pdu_fields :
    (b : Buf) (p dsap ptype ssap j : ℕ)
    → dsap < 64
    → ptype < 16
    → ssap < 64
    → (j < p) ⊎ (p + 2 ≤ j)
    → let (b', len) = create_pdu b p dsap ptype ssap in
      (pdu_dsap b' p ≡ dsap)
      × (pdu_ptype b' p ≡ ptype)
      × (pdu_ssap b' p ≡ ssap)
      × (len ≡ 2)
      × (b' j ≡ b j)
unfolding create_pdu pdu_dsap pdu_ssap pdu_ptype
create_pdu_fields b p dsap ptype ssap j hd hp hs hj = ground arith

-- An information PDU carries its addresses, its type, and both sequence numbers modulo 16 in one
-- byte behind the header; a DM PDU carries its addresses, its type and the reason there.
create_pdu_numbered :
    (b : Buf) (p dsap ssap ns nr reason : ℕ)
    → dsap < 64
    → ssap < 64
    → ns < 16
    → nr < 16
    → IsByte reason
    → let (i, ilen) = create_pdu_i b p dsap ssap ns nr in
      let (d, dlen) = create_pdu_dm b p dsap ssap reason in
      (pdu_dsap i p ≡ dsap)
      × (pdu_ssap i p ≡ ssap)
      × (pdu_ptype i p ≡ ptype_i)
      × (i (p + 2) ≡ ns * 16 + nr)
      × (ilen ≡ 3)
      × (pdu_dsap d p ≡ dsap)
      × (pdu_ssap d p ≡ ssap)
      × (pdu_ptype d p ≡ ptype_dm)
      × (d (p + 2) ≡ reason)
      × (dlen ≡ 3)
unfolding create_pdu_i create_pdu_dm pdu_dsap pdu_ssap pdu_ptype
create_pdu_numbered b p dsap ssap ns nr reason hd hs hn hr hb = ground arith
