-- ===== src/Tests/Links.antt =====
-- Runs of the data links, the SNEP service and the handlers of an endpoint.
use e2f77dee9c9d8e2bfbcafc.Base.{◌+◌, ◌≡◌, arith, [], ◌∷◌, inr, none, some, replicate, Returns}
use e2f77dee9c9d8e2bfbcafc.Memory.{Buf}
use e2f77dee9c9d8e2bfbcafc.Bswap.{be32_to_cpu}
use e2f77dee9c9d8e2bfbcafc.Rf.{RfProtocol, TechMode}
use e2f77dee9c9d8e2bfbcafc.Llcp.{
  DataLink, connected, disconnected, pdu_dsap, pdu_ssap, pdu_ptype, ptype_cc, ptype_dm,
}
use e2f77dee9c9d8e2bfbcafc.Snep.{llcp_sap_snep}
use e2f77dee9c9d8e2bfbcafc.Snep.Service.{llcp_sap_snep_code, response_code, Responds}
use e2f77dee9c9d8e2bfbcafc.Re.{Re, init_re, nfcid_text}
use e2f77dee9c9d8e2bfbcafc.Re.Link.{process_ptype_connect, process_ptype_disc, connect_params}
use e2f77dee9c9d8e2bfbcafc.Re.LinkLaws.{
  process_ptype_connect_lem, process_ptype_disc_lem, connect_params_fixed,
}
use e2f77dee9c9d8e2bfbcafc.Tests.{zeros, packet}

abbrev link : DataLink
link = record {
  status = connected;
  v_s = 1;
  v_sa = 0;
  v_r = 2;
  v_ra = 0;
  miu = 128;
  rw_l = 1;
  rw_r = 1;
  rlen = 0;
  rbuf = replicate 256 0;
  xmit_q = some [];
}

-- A PUT request of version 1.0 with three bytes.
abbrev put : Buf
put = packet (0x10 ∷ 0x02 ∷ 0 ∷ 0 ∷ 0 ∷ 3 ∷ 0xd0 ∷ 0x01 ∷ 0x02 ∷ [])

-- A CONNECT PDU from SAP 32 to SAP 4, with a receive window of 2.
abbrev connect : Buf
connect = packet (0x11 ∷ 0x20 ∷ 0x05 ∷ 0x01 ∷ 0x02 ∷ [])

abbrev disc : Buf
disc = packet (0x11 ∷ 0x60 ∷ [])

abbrev peer : Re
peer = init_re RfProtocol.nfc_dep TechMode.f_passive_listen none (nfcid_text 0x30) []

llcp_sap_snep_code_example :
    Returns
      (llcp_sap_snep link put 0 9 zeros 11)
      λ a. Responds a 11 (response_code (put 0) (put (0 + 1)) (be32_to_cpu put (0 + 2)) 9)
llcp_sap_snep_code_example = llcp_sap_snep_code link put 0 9 zeros 11 (omega arith) (omega arith)

process_ptype_connect_lem_example : Returns (process_ptype_connect peer connect 0 5 zeros 3) λ h.
    let i = pdu_ssap connect 0 in
    let j = pdu_dsap connect 0 in
    (pdu_ptype h.rsp 3 ≡ ptype_cc)
    × (pdu_dsap h.rsp 3 ≡ i)
    × (pdu_ssap h.rsp 3 ≡ j)
    × (h.len ≡ 2)
    × ((h.re.llcp_dl i j).status ≡ connected)
    × (h.re.llcp_dl 32 5 ≡ peer.llcp_dl 32 5)
    × (h.re.last_dsap ≡ i)
    × (h.re.last_ssap ≡ j)
unfolding pdu_dsap
process_ptype_connect_lem_example =
    process_ptype_connect_lem peer connect 0 5 zeros 3 32 5 (inr (λ e. absurd (omega (arith, e))))

process_ptype_disc_lem_example : Returns (process_ptype_disc peer disc 0 zeros 3) λ h.
    let i = pdu_ssap disc 0 in
    let j = pdu_dsap disc 0 in
    (pdu_ptype h.rsp 3 ≡ ptype_dm)
    × (pdu_dsap h.rsp 3 ≡ i)
    × (pdu_ssap h.rsp 3 ≡ j)
    × (h.rsp (3 + 2) ≡ 0)
    × (h.len ≡ 3)
    × ((h.re.llcp_dl i j).status ≡ disconnected)
    × (h.re.llcp_dl 32 5 ≡ peer.llcp_dl 32 5)
unfolding pdu_dsap
process_ptype_disc_lem_example =
    process_ptype_disc_lem peer disc 0 zeros 3 32 5 (inr (λ e. absurd (omega (arith, e))))

-- A maximum information unit, and a receive window behind it that is not seen.
abbrev two_params : Buf
two_params = packet (0x02 ∷ 0x02 ∷ 0x00 ∷ 0x78 ∷ 0x05 ∷ 0x01 ∷ 0x04 ∷ [])

abbrev other_window : Buf
other_window = packet (0x02 ∷ 0x02 ∷ 0x00 ∷ 0x78 ∷ 0x05 ∷ 0x01 ∷ 0x09 ∷ [])

connect_params_fixed_example :
    connect_params 7 two_params 0 link ≡ connect_params 7 other_window 0 link
connect_params_fixed_example =
    connect_params_fixed 7 two_params other_window 0 link (λ k h. ground arith)
