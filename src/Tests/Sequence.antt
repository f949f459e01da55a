-- ===== src/Tests/Sequence.antt =====
-- Runs of the end of a discovery and of the HCI commands.
use e2f77dee9c9d8e2bfbcafc.Base.{◌≡◌, inr, refl, arith, none, [], ◌∷◌, Returns}
use e2f77dee9c9d8e2bfbcafc.Memory.{Buf}
use e2f77dee9c9d8e2bfbcafc.Packet.{status_ok}
use e2f77dee9c9d8e2bfbcafc.Rf.{Rfst}
use e2f77dee9c9d8e2bfbcafc.Device.{device_init}
use e2f77dee9c9d8e2bfbcafc.System.{System, boot}
use e2f77dee9c9d8e2bfbcafc.Nci.Rf
use e2f77dee9c9d8e2bfbcafc.Nci.Sequence.{Unnamed, rf_deactivate_to_idle}
use e2f77dee9c9d8e2bfbcafc.Hci.{process_hci_cmd}
use e2f77dee9c9d8e2bfbcafc.Hci.Laws.{Completes, process_hci_cmd-Completes}
use e2f77dee9c9d8e2bfbcafc.Tests.{zeros, packet}

abbrev discovering : System
discovering = record boot { nfc = record device_init { rf_state = Rfst.discovery } }

abbrev deactivate_cmd : Buf
deactivate_cmd = packet (0x21 ∷ 0x06 ∷ 0x01 ∷ 0x00 ∷ [])

rf_deactivate_to_idle_example : Returns (Rf.rf_deactivate discovering deactivate_cmd zeros) λ r.
    (r.sys.nfc.rf_state ≡ Rfst.idle)
    × (r.sys.nfc.active_re ≡ none)
    × (r.sys.nfc.active_rf ≡ none)
    × Unnamed r.sys.res
    × (r.rsp 3 ≡ status_ok)
unfolding Rf.is_rfst
rf_deactivate_to_idle_example =
    rf_deactivate_to_idle discovering deactivate_cmd zeros refl (λ e. absurd (cc (e))) refl

abbrev sleep_cmd : Buf
sleep_cmd = packet (0x27 ∷ 0xfc ∷ 0x0c ∷ [])

process_hci_cmd-Completes_example :
    Returns (process_hci_cmd device_init sleep_cmd zeros) (Completes sleep_cmd)
unfolding device_init
process_hci_cmd-Completes_example =
    process_hci_cmd-Completes device_init sleep_cmd zeros refl refl (omega arith)
      (inr (refl, omega arith))
