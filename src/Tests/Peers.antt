-- ===== src/Tests/Peers.antt =====
-- The host puts a message of three bytes to the active peer.
use e2f77dee9c9d8e2bfbcafc.Base.{
  ◌%◌, ◌≡◌, false, refl, inl, arith, none, some, [], ◌∷◌, splice, Returns,
}
use e2f77dee9c9d8e2bfbcafc.Memory.{Buf, read}
use e2f77dee9c9d8e2bfbcafc.Rf.{Rfst, RfProtocol, TechMode}
use e2f77dee9c9d8e2bfbcafc.Device.{device_init}
use e2f77dee9c9d8e2bfbcafc.Llcp.{pdu_dsap, pdu_ssap, pdu_ptype, ptype_cc, ptype_i}
use e2f77dee9c9d8e2bfbcafc.Snep.{rsp_success}
use e2f77dee9c9d8e2bfbcafc.Re.{Re, Host, init_re, nfcid_text}
use e2f77dee9c9d8e2bfbcafc.Re.Data.Peer.{GivesTimeouts}
use e2f77dee9c9d8e2bfbcafc.System.{System, boot}
use e2f77dee9c9d8e2bfbcafc.Nci.Tables.{process_nci_msg}
use e2f77dee9c9d8e2bfbcafc.Nci.Session.Faces.{Faces, CarriesPdu}
use e2f77dee9c9d8e2bfbcafc.Nci.Session.Peer.{prints, snep_session}
use e2f77dee9c9d8e2bfbcafc.Console.{negsuc}
use e2f77dee9c9d8e2bfbcafc.Console.Commands.{Memory}
use e2f77dee9c9d8e2bfbcafc.Console.Links.{recv_snep_put_cb}
use e2f77dee9c9d8e2bfbcafc.Tests.{zeros, packet}

abbrev peer : Re
peer = init_re RfProtocol.nfc_dep TechMode.f_passive_listen none (nfcid_text 0x30) []

abbrev sys : System
unfolding boot device_init
sys = record boot {
  nfc = record device_init { rf_state = Rfst.poll_active; active_re = some 0 };
  res = peer ∷ [];
}

sys-Faces : Faces sys 0 peer
unfolding init_re boot device_init
sys-Faces = record { passes = inl refl; active = refl; found = refl; speaks = refl }

abbrev host : Host
host = record { new_timeout_result = λ _. some 1; timeout_is_pending = λ _ _. false }

host-GivesTimeouts : GivesTimeouts host
host-GivesTimeouts events = (1, refl)

abbrev memory : Memory
memory = record { packet = zeros; fresh = λ _. zeros; array = zeros; left = zeros; behind = zeros }

-- A CONNECT PDU from SAP 32 to SAP 4.
abbrev connect : Buf
connect = packet (0x02 ∷ 0 ∷ 2 ∷ 0x11 ∷ 0x20 ∷ [])

-- An I PDU on that link with a PUT request of an empty record.
abbrev put : Buf
put =
    packet (0x02 ∷ 0 ∷ 12 ∷ 0x13 ∷ 0x20 ∷ 0 ∷ 0x10 ∷ 0x02 ∷ 0 ∷ 0 ∷ 0 ∷ 3 ∷ 0xd0 ∷ 0x00 ∷ 0x00 ∷ [])

snep_session_example : Returns (process_nci_msg host sys connect zeros) λ a.
    let i = pdu_ssap connect 3 in
    CarriesPdu a.rsp a.len 2 ptype_cc i 4 2
    × Returns (process_nci_msg host a.sys put a.rsp) λ b.
      CarriesPdu b.rsp b.len 2 ptype_i i 4 9
      × (b.rsp 5 % 16 ≡ 1)
      × (read b.rsp 11 6 ≡ 0x10 ∷ rsp_success ∷ 0 ∷ 0 ∷ 0 ∷ 0 ∷ [])
      × (recv_snep_put_cb b.sys (negsuc 0) (negsuc 0) memory
          ≡ prints b.sys 3 (splice (peer.llcp_dl i 4).rbuf 0 (read put 12 3)) memory)
unfolding init_re boot device_init pdu_ssap pdu_ptype pdu_dsap
snep_session_example =
    snep_session host sys 0 peer host-GivesTimeouts connect put zeros 3 memory sys-Faces refl
      (refl, refl) refl (refl, refl, omega arith, refl, refl) refl refl (omega arith)
