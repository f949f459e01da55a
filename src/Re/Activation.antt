-- ===== src/Re/Activation.antt =====
-- The parameters of an activation notification, and data that is sent unasked: src/nfc-re.c. The
-- bytes go to offset `p` of `act`, and the result's second part is how many they are.
pub mod Params
use e2f77dee9c9d8e2bfbcafc.Base.{ℕ, ◌+◌, ◌%◌, List, [], ◌∷◌, ◌++◌, length}
use e2f77dee9c9d8e2bfbcafc.Memory.{Buf, write}
use e2f77dee9c9d8e2bfbcafc.Rf.{
  RfProtocol, TechMode, a_passive_poll, a_passive_listen, b_passive_listen, f_passive_listen,
}
use e2f77dee9c9d8e2bfbcafc.Llcp.{create_pdu_i, param_tail}
use e2f77dee9c9d8e2bfbcafc.Re.{Re, set_link}

-- The selection response of a protocol.
unfoldable pub sel_res : RfProtocol → ℕ
sel_res RfProtocol.t2t = 0x00
sel_res RfProtocol.nfc_dep = 0x60
sel_res _ = 0x10

-- `cid1_len` is 10, the size of the array, so the first byte is that of a ten-byte identifier.
unfoldable pub nfca_poll_bytes : RfProtocol → List ℕ → List ℕ
unfolding sel_res
nfca_poll_bytes RfProtocol.t1t nfcid1 = 0x80 ∷ 0x0c ∷ 0 ∷ 0 ∷ []
nfca_poll_bytes proto nfcid1 = 0x9f ∷ 0x00 ∷ 10 ∷ (nfcid1 ++ (1 ∷ sel_res proto ∷ []))

unfoldable pub create_rf_intf_activated_ntf_tech : TechMode → Re → Buf → ℕ → Buf × ℕ
unfolding nfca_poll_bytes
create_rf_intf_activated_ntf_tech a_passive_poll re act p =
    let bytes = nfca_poll_bytes re.rfproto re.nfcid1 in (write act p bytes, length bytes)
create_rf_intf_activated_ntf_tech _ re act p = (act, 0)

-- The timeout byte is there in the listen modes.
unfoldable pub timeout_bytes : TechMode → List ℕ
timeout_bytes a_passive_listen = 14 ∷ []
timeout_bytes b_passive_listen = 14 ∷ []
timeout_bytes f_passive_listen = 14 ∷ []
timeout_bytes _ = []

-- What follows the length byte of an ATR request.
unfoldable pub nfc_dep_bytes : Re → List ℕ
unfolding timeout_bytes
nfc_dep_bytes re = re.nfcid3 ++ (0 ∷ 0 ∷ 0 ∷ (timeout_bytes re.mode ++ (0x02 ∷ param_tail)))

unfoldable pub act_bytes : RfProtocol → Re → List ℕ
unfolding nfc_dep_bytes
act_bytes RfProtocol.t1t re = 0x11 ∷ 0x00 ∷ []
act_bytes RfProtocol.nfc_dep re = let bytes = nfc_dep_bytes re in (length bytes % 256) ∷ bytes
act_bytes _ re = []

unfoldable pub create_rf_intf_activated_ntf_act : Re → Buf → ℕ → Buf × ℕ
unfolding act_bytes
create_rf_intf_activated_ntf_act re act p =
    let bytes = act_bytes re.rfproto re in (write act p bytes, length bytes)

-- `nfc_re_create_dta_act`: the link is that of SAP 4 on both sides, and the data, of
-- `length bytes` bytes, goes to `act + len`.
unfoldable pub create_dta_act : Re → List ℕ → Buf → ℕ → Re × Buf × ℕ
unfolding create_pdu_i
create_dta_act re bytes act p =
    let dl = re.llcp_dl 4 4 in
    let (act', llcp_len) = create_pdu_i act p 4 4 dl.v_s dl.v_r in
    let dl' = record dl { v_s = (dl.v_s + 1) % 16; v_r = (dl.v_r + 1) % 16 } in
    (set_link re 4 4 dl', write act' (p + length bytes) bytes, llcp_len + length bytes)
