-- ===== src/Nci/Common.antt =====
-- The handlers of src/nfc-nci.c that more than one device state has, or that answer with constants.
use e2f77dee9c9d8e2bfbcafc.Base.{ℕ, List, [], ◌∷◌, ◌++◌, map, length, ◌==◌, if◌then◌else◌}
use e2f77dee9c9d8e2bfbcafc.Memory.{Buf, write}
use e2f77dee9c9d8e2bfbcafc.Bswap.{cpu_to_le16, cpu_to_le32}
use e2f77dee9c9d8e2bfbcafc.Packet.{
  pkt_gid, pkt_oid, status_ok, status_semantic_error, create_control_rsp, create_control_status_rsp,
}
use e2f77dee9c9d8e2bfbcafc.Rf.{Rf, Rfst, interface_code}
use e2f77dee9c9d8e2bfbcafc.Device.{FsmState}
use e2f77dee9c9d8e2bfbcafc.System.{System, Reply, plain}

-- A response to `cmd` with a status byte, and one with the payload `bytes`.
unfoldable pub status_reply : System → Buf → Buf → ℕ → Reply
unfolding create_control_status_rsp
status_reply sys cmd rsp status =
    plain sys (create_control_status_rsp rsp (pkt_gid cmd) (pkt_oid cmd) status)

unfoldable pub payload_reply : System → Buf → Buf → List ℕ → Reply
unfolding create_control_rsp
payload_reply sys cmd rsp bytes =
    plain sys (create_control_rsp (write rsp 3 bytes) (pkt_gid cmd) (pkt_oid cmd) (length bytes))

unfoldable pub semantic_error : System → Buf → Buf → Reply
unfolding status_reply
semantic_error sys cmd rsp = status_reply sys cmd rsp status_semantic_error

-- `idle_process_oid_core_reset_cmd` and `init_process_oid_core_reset_cmd`
unfoldable pub core_reset : System → Buf → Buf → Reply
unfolding payload_reply
core_reset sys cmd rsp =
    let rf_state = if cmd 3 == 0 then sys.nfc.rf_state else Rfst.idle in
    let nfc = record (sys.nfc) { state = FsmState.reset; rf_state = rf_state } in
    payload_reply (record sys { nfc = nfc }) cmd rsp (status_ok ∷ 0x10 ∷ cmd 3 ∷ [])

abbrev build_info : List ℕ
build_info =
    status_ok ∷ 0x4d ∷ 0x61 ∷ 0x72 ∷ 0x20 ∷ 0x31 ∷ 0x37 ∷ 0x20 ∷ 0x32 ∷ 0x30 ∷ 0x31 ∷ 0x32 ∷ 0x31
    ∷ 0x30 ∷ 0x3a ∷ 0x35 ∷ 0x34 ∷ 0x3a ∷ 0x31 ∷ 0x35 ∷ 0x1 ∷ 0x3 ∷ 0xa ∷ 0x44 ∷ 0x3 ∷ 0x1b ∷ 0x79
    ∷ 0x20 ∷ 7 ∷ b'2' ∷ b'0' ∷ b'7' ∷ b'9' ∷ b'1' ∷ b'B' ∷ b'3' ∷ []

unfoldable pub get_build_info : System → Buf → Buf → Reply
unfolding payload_reply
get_build_info sys cmd rsp = payload_reply sys cmd rsp build_info

-- `struct nci_bcm2079x_get_patch_version_rsp`: the chip version is padded to 16 bytes.
abbrev patch_version : List ℕ
patch_version =
    cpu_to_le16 0x100
    ++ (0
        ∷ 7
        ∷ b'2'
        ∷ b'0'
        ∷ b'7'
        ∷ b'9'
        ∷ b'1'
        ∷ b'B'
        ∷ b'3'
        ∷ 0
        ∷ 0
        ∷ 0
        ∷ 0
        ∷ 0
        ∷ 0
        ∷ 0
        ∷ 0
        ∷ 0
        ∷ (cpu_to_le16 0x93
            ++ (cpu_to_le16 0x9d
                ++ (cpu_to_le16 256
                    ++ (cpu_to_le16 256
                        ++ (cpu_to_le16 0 ++ (cpu_to_le16 0x1b52 ++ (0 ∷ 0 ∷ 0x01 ∷ []))))))))

unfoldable pub get_patch_version : System → Buf → Buf → Reply
unfolding payload_reply
get_patch_version sys cmd rsp = payload_reply sys cmd rsp patch_version

-- `struct nci_core_init_rsp`, which lists the interfaces of the device's RF table.
abbrev pub core_init_payload : List Rf → List ℕ
unfolding interface_code
core_init_payload rf =
    status_ok
    ∷ (cpu_to_le32 0x0
        ++ (8
            ∷ (map (λ r. interface_code (r.iface)) rf
                ++ (0
                    ∷ (cpu_to_le16 0x0 ++ (255 ∷ (cpu_to_le16 0x0 ++ (0x0 ∷ cpu_to_le32 0x0))))))))

unfoldable pub core_init : System → Buf → Buf → Reply
unfolding payload_reply interface_code
core_init sys cmd rsp =
    let nfc = record (sys.nfc) { state = FsmState.initialized } in
    payload_reply (record sys { nfc = nfc }) cmd rsp (core_init_payload nfc.rf)

-- `init_process_oid_rf_discover_map_cmd` only logs the mappings.
unfoldable pub rf_discover_map : System → Buf → Buf → Reply
unfolding payload_reply
rf_discover_map sys cmd rsp = payload_reply sys cmd rsp (status_ok ∷ [])

unfoldable pub nfcee_discover : System → Buf → Buf → Reply
unfolding payload_reply
nfcee_discover sys cmd rsp = payload_reply sys cmd rsp (status_ok ∷ 0 ∷ [])

-- `init_process_oid_bcm2079x_hci_netwk_cmd` and `init_process_oid_bcm2079x_set_fwfsm_cmd`
unfoldable pub accept : System → Buf → Buf → Reply
unfolding status_reply
accept sys cmd rsp = status_reply sys cmd rsp status_ok
