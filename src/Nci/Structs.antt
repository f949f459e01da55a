-- ===== src/Nci/Structs.antt =====
-- The responses of src/nfc-nci.c, read through the structures of src/nfc-nci.h.
use e2f77dee9c9d8e2bfbcafc.Base.{
  ℕ, suc, ◌≡◌, refl, ap, ◌∙◌, ◌%◌, ◌==◌, if◌then◌else◌, arith, List, [], ◌∷◌, length, map, All,
}
use e2f77dee9c9d8e2bfbcafc.Memory.{Buf, IsByte, write}
use e2f77dee9c9d8e2bfbcafc.Packet.{
  read_payload, gid_rf, mt_rsp, mt_ntf, pkt_gid, pkt_oid, status_ok, create_control_rsp,
}
use e2f77dee9c9d8e2bfbcafc.Rf.{Rf, Rfst, interface_code}
use e2f77dee9c9d8e2bfbcafc.Device.{FsmState}
use e2f77dee9c9d8e2bfbcafc.System.{System}
use e2f77dee9c9d8e2bfbcafc.Rf.Codes.{interface_code-IsByte}
use e2f77dee9c9d8e2bfbcafc.Wire.{Struct, Values, AllFit, sizeof, pack, unpack, view, view-pack}
use e2f77dee9c9d8e2bfbcafc.Wire.Nci.{
  core_reset_rsp, core_init_rsp, nfcee_discovery_rsp, rf_deactivate_ntf,
  bcm2079x_get_patch_version_rsp,
}
use e2f77dee9c9d8e2bfbcafc.Nci.Common
use e2f77dee9c9d8e2bfbcafc.Nci.Notify.{create_deactivate_ntf}

-- A payload that is a structure is read back as one.
payload_reply-view :
    (s : Struct) (v : Values s) (sys : System) (cmd rsp : Buf) (bytes : List ℕ)
    → bytes ≡ pack s v
    → AllFit s v
    → view s (Common.payload_reply sys cmd rsp bytes).rsp 3 ≡ v
unfolding Common.payload_reply create_control_rsp
payload_reply-view s v sys cmd rsp bytes e h =
    ap (unpack s) (
      read_payload (write rsp 3 bytes) mt_rsp (pkt_gid cmd) (pkt_oid cmd % 64) (length bytes) 3
        (sizeof s) (omega arith))
    ∙ (ap (λ x. view s (write rsp 3 x) 3) e ∙ view-pack s v rsp 3 h)

abbrev pub codes : List Rf → List ℕ
codes rf = map (λ r. interface_code (r.iface)) rf

codes-IsByte : (rf : List Rf) → All IsByte (codes rf)
codes-IsByte [] = tt
codes-IsByte (r ∷ rf) = (interface_code-IsByte r.iface, codes-IsByte rf)

length-codes : (rf : List Rf) → length (codes rf) ≡ length rf
length-codes [] = refl
length-codes (r ∷ rf) = ap suc (length-codes rf)

abbrev pub init_values : List ℕ → Values core_init_rsp
init_values interfaces = (status_ok, (0, (8, (interfaces, (0, (0, (255, (0, (0, (0, tt))))))))))

init_view :
    (sys : System) (cmd rsp : Buf)
    → length sys.nfc.rf ≡ 8
    → view core_init_rsp (Common.core_init sys cmd rsp).rsp 3 ≡ init_values (codes sys.nfc.rf)
unfolding Common.core_init
init_view sys cmd rsp h =
    payload_reply-view core_init_rsp (init_values (codes sys.nfc.rf))
      (record sys { nfc = record (sys.nfc) { state = FsmState.initialized } }) cmd rsp
      (Common.core_init_payload sys.nfc.rf) refl
      (
        omega arith,
        (
          omega arith,
          (
            omega arith,
            (
              (length-codes sys.nfc.rf ∙ h, codes-IsByte sys.nfc.rf),
              (
                omega arith,
                (omega arith, (omega arith, (omega arith, (omega arith, (omega arith, tt))))),
              ),
            ),
          ),
        ),
      )

-- "20791B3" and nine zeros.
abbrev pub chip_version : List ℕ
chip_version =
    0x32 ∷ 0x30 ∷ 0x37 ∷ 0x39 ∷ 0x31 ∷ 0x42 ∷ 0x33 ∷ 0 ∷ 0 ∷ 0 ∷ 0 ∷ 0 ∷ 0 ∷ 0 ∷ 0 ∷ 0 ∷ []

abbrev pub patch_values : Values bcm2079x_get_patch_version_rsp
patch_values = (
  0x100,
  (0, (7, (chip_version, (0x93, (0x9d, (256, (256, (0, (0x1b52, (0, (0, (0x01, tt)))))))))))),
)

patch_view :
    (sys : System) (cmd rsp : Buf)
    → view bcm2079x_get_patch_version_rsp (Common.get_patch_version sys cmd rsp).rsp 3
      ≡ patch_values
unfolding Common.get_patch_version
patch_view sys cmd rsp =
    payload_reply-view bcm2079x_get_patch_version_rsp patch_values sys cmd rsp _ refl (ground arith)

abbrev reset_system : System → Buf → System
reset_system sys cmd =
    let rf_state = if cmd 3 == 0 then sys.nfc.rf_state else Rfst.idle in
    record sys { nfc = record (sys.nfc) { state = FsmState.reset; rf_state = rf_state } }

reset_view :
    (sys : System) (cmd rsp : Buf)
    → IsByte (cmd 3)
    → view core_reset_rsp (Common.core_reset sys cmd rsp).rsp 3 ≡ (status_ok, ((0, 1), (cmd 3, tt)))
unfolding Common.core_reset
reset_view sys cmd rsp h =
    payload_reply-view core_reset_rsp (status_ok, ((0, 1), (cmd 3, tt))) (reset_system sys cmd) cmd
      rsp (status_ok ∷ 0x10 ∷ cmd 3 ∷ []) refl (omega arith, ((omega arith, omega arith), (h, tt)))

nfcee_view :
    (sys : System) (cmd rsp : Buf)
    → view nfcee_discovery_rsp (Common.nfcee_discover sys cmd rsp).rsp 3 ≡ (status_ok, (0, tt))
unfolding Common.nfcee_discover
nfcee_view sys cmd rsp =
    payload_reply-view nfcee_discovery_rsp (status_ok, (0, tt)) sys cmd rsp (status_ok ∷ 0 ∷ [])
      refl (omega arith, (omega arith, tt))

-- The responses to four commands and the notification of a deactivation, read through the structures
-- that the header declares for them: CORE_RESET gives version 1.0 and the byte of the command,
-- CORE_INIT the interfaces of the device's table of eight entries, the patch version command the
-- chip's name and its numbers, NFCEE_DISCOVER no NFCEE, and the notification its type and reason.
pub structs_view :
    (sys : System) (cmd rsp : Buf) (type reason : ℕ)
    → length sys.nfc.rf ≡ 8
    → IsByte (cmd 3)
    → IsByte type
    → IsByte reason
    → (view core_reset_rsp (Common.core_reset sys cmd rsp).rsp 3
        ≡ (status_ok, ((0, 1), (cmd 3, tt))))
      × (view core_init_rsp (Common.core_init sys cmd rsp).rsp 3 ≡ init_values (codes sys.nfc.rf))
      × (view bcm2079x_get_patch_version_rsp (Common.get_patch_version sys cmd rsp).rsp 3
          ≡ patch_values)
      × (view nfcee_discovery_rsp (Common.nfcee_discover sys cmd rsp).rsp 3 ≡ (status_ok, (0, tt)))
      × (view rf_deactivate_ntf (create_deactivate_ntf type reason rsp).0 3 ≡ (type, (reason, tt)))
unfolding create_deactivate_ntf
structs_view sys cmd rsp type reason h b t r = (
  reset_view sys cmd rsp b,
  init_view sys cmd rsp h,
  patch_view sys cmd rsp,
  nfcee_view sys cmd rsp,
  ap (unpack rf_deactivate_ntf)
        (read_payload (write rsp 3 (type ∷ reason ∷ [])) mt_ntf gid_rf 0x06 2 3 2 (omega arith))
      ∙ view-pack rf_deactivate_ntf (type, (reason, tt)) rsp 3 (t, (r, tt)),
)
