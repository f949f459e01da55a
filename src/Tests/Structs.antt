-- ===== src/Tests/Structs.antt =====
-- Responses and notifications read through their structures.
use e2f77dee9c9d8e2bfbcafc.Base.{◌≡◌, refl, arith, none, some, [], ◌∷◌, get_elem?, Returns}
use e2f77dee9c9d8e2bfbcafc.Memory.{Buf}
use e2f77dee9c9d8e2bfbcafc.Packet.{status_ok}
use e2f77dee9c9d8e2bfbcafc.Rf.{rf_init, Rfst, RfInterface, RfProtocol, TechMode}
use e2f77dee9c9d8e2bfbcafc.Device.{device_init}
use e2f77dee9c9d8e2bfbcafc.Re.{Re, init_re, nfcid_text}
use e2f77dee9c9d8e2bfbcafc.Re.Activation.Params.{HasIds}
use e2f77dee9c9d8e2bfbcafc.System.{System, boot}
use e2f77dee9c9d8e2bfbcafc.Wire.{view}
use e2f77dee9c9d8e2bfbcafc.Wire.Nci.{
  core_reset_rsp, core_init_rsp, nfcee_discovery_rsp, rf_deactivate_ntf,
  bcm2079x_get_patch_version_rsp,
}
use e2f77dee9c9d8e2bfbcafc.Nci.Common
use e2f77dee9c9d8e2bfbcafc.Nci.Notify.{create_deactivate_ntf, create_rf_intf_activated_ntf}
use e2f77dee9c9d8e2bfbcafc.Nci.Structs.{init_values, patch_values, codes, structs_view}
use e2f77dee9c9d8e2bfbcafc.Nci.Activated.{using, Describes, activated_ntf-Describes}
use e2f77dee9c9d8e2bfbcafc.Tests.{zeros, packet}

abbrev reset_cmd : Buf
reset_cmd = packet (0x20 ∷ 0x00 ∷ 0x01 ∷ 0x01 ∷ [])

structs_view_example :
    (view core_reset_rsp (Common.core_reset boot reset_cmd zeros).rsp 3
      ≡ (status_ok, ((0, 1), (1, tt))))
    × (view core_init_rsp (Common.core_init boot reset_cmd zeros).rsp 3
        ≡ init_values (codes boot.nfc.rf))
    × (view bcm2079x_get_patch_version_rsp (Common.get_patch_version boot reset_cmd zeros).rsp 3
        ≡ patch_values)
    × (view nfcee_discovery_rsp (Common.nfcee_discover boot reset_cmd zeros).rsp 3
        ≡ (status_ok, (0, tt)))
    × (view rf_deactivate_ntf (create_deactivate_ntf 3 1 zeros).0 3 ≡ (3, (1, tt)))
unfolding boot device_init
structs_view_example =
    structs_view boot reset_cmd zeros 3 1 refl (omega arith) (omega arith) (omega arith)

abbrev peer : Re
peer = init_re RfProtocol.nfc_dep TechMode.f_passive_listen none (nfcid_text 0x30) []

peer-HasIds : HasIds peer
unfolding init_re
peer-HasIds = (refl, refl, ground arith, ground arith)

abbrev discovering : System
discovering = record boot {
  nfc = record device_init { rf_state = Rfst.discovery };
  res = peer ∷ [];
}

activated_ntf-Describes_example :
    Returns (create_rf_intf_activated_ntf (using discovering 0) 0 zeros) λ r.
      (re' : Re) × (get_elem? r.0.res 0 ≡ some re')
      × (re' ≡ record peer { id = re'.id })
      × Describes r.1 r.2 (rf_init RfInterface.nfc_dep TechMode.a_passive_poll) re'
unfolding boot device_init init_re rf_init
activated_ntf-Describes_example =
    activated_ntf-Describes discovering 0 0 zeros peer
      (rf_init RfInterface.nfc_dep TechMode.a_passive_poll) refl refl refl refl peer-HasIds
      (omega arith)
