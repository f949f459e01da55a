-- ===== src/Tests/Nci.antt =====
-- A run of the controller: it is reset and initialised, and then told to discover.
use e2f77dee9c9d8e2bfbcafc.Base.{◌≡◌, inl, refl, [], ◌∷◌, Keeps, Returns, if◌then◌else◌, ◌==◌}
use e2f77dee9c9d8e2bfbcafc.Memory.{Buf}
use e2f77dee9c9d8e2bfbcafc.Packet.{status_ok, status_semantic_error}
use e2f77dee9c9d8e2bfbcafc.Rf.{Rfst}
use e2f77dee9c9d8e2bfbcafc.Device.{FsmState, device_init}
use e2f77dee9c9d8e2bfbcafc.System.{System, boot}
use e2f77dee9c9d8e2bfbcafc.Nci.Common
use e2f77dee9c9d8e2bfbcafc.Nci.Tables.{process_nci_cmd, run_entry, run, command, entry, core_oid}
use e2f77dee9c9d8e2bfbcafc.Nci.Answers.{Answers, process_nci_cmd-Answers}
use e2f77dee9c9d8e2bfbcafc.Nci.Machine.{IsValid}
use e2f77dee9c9d8e2bfbcafc.Nci.Reach.{FsmStep}
use e2f77dee9c9d8e2bfbcafc.Nci.Refuse.{bring_up, process_nci_cmd_refuses}
use e2f77dee9c9d8e2bfbcafc.Nci.Run.{
  Step, start, step, boot-IsValid, Step-IsValid, Reachable-IsValid,
}
use e2f77dee9c9d8e2bfbcafc.Tests.{zeros, packet}

abbrev reset_cmd : Buf
reset_cmd = packet (0x20 ∷ 0x00 ∷ 0x01 ∷ 0x01 ∷ [])

abbrev init_cmd : Buf
init_cmd = packet (0x20 ∷ 0x01 ∷ 0x00 ∷ [])

abbrev discover_cmd : Buf
discover_cmd = packet (0x21 ∷ 0x03 ∷ 0x01 ∷ 0x00 ∷ [])

abbrev after_reset : System
after_reset = (Common.core_reset boot reset_cmd zeros).sys

abbrev after_init : System
after_init = (Common.core_init after_reset init_cmd zeros).sys

reset_step : Step boot after_reset
unfolding process_nci_cmd run_entry run command entry core_oid boot device_init
reset_step = Step.command reset_cmd zeros (Common.core_reset boot reset_cmd zeros) refl

init_step : Step after_reset after_init
unfolding process_nci_cmd run_entry run command entry core_oid Common.core_reset Common.core_init
    Common.payload_reply
init_step = Step.command init_cmd zeros (Common.core_init after_reset init_cmd zeros) refl

Reachable-IsValid_example : IsValid after_init
Reachable-IsValid_example = Reachable-IsValid (step (step start reset_step) init_step)

Step-IsValid_example : FsmStep boot.nfc.state after_reset.nfc.state × IsValid after_reset
Step-IsValid_example = Step-IsValid reset_step boot-IsValid

process_nci_cmd-Answers_example :
    Keeps (process_nci_cmd after_reset init_cmd zeros) (Answers init_cmd)
process_nci_cmd-Answers_example = process_nci_cmd-Answers after_reset init_cmd zeros

process_nci_cmd_refuses_example :
    Keeps
      (process_nci_cmd boot discover_cmd zeros)
      λ r. (r.sys ≡ boot) × (r.rsp 3 ≡ status_semantic_error) × (r.len ≡ 4)
unfolding boot device_init
process_nci_cmd_refuses_example =
    process_nci_cmd_refuses boot discover_cmd zeros (λ e. absurd (cc (e))) (inl refl)

bring_up_example : Returns (process_nci_cmd boot reset_cmd zeros) λ r.
    (r.sys.nfc.state ≡ FsmState.reset)
    × (r.rsp 3 ≡ status_ok)
    × (r.sys.nfc.rf_state ≡ (if reset_cmd 3 == 0 then boot.nfc.rf_state else Rfst.idle))
    × Returns (process_nci_cmd r.sys init_cmd zeros) λ r'.
      (r'.sys.nfc.state ≡ FsmState.initialized)
      × (r'.rsp 3 ≡ status_ok)
      × (r'.sys.nfc.rf_state ≡ r.sys.nfc.rf_state)
unfolding boot device_init
bring_up_example =
    bring_up boot reset_cmd zeros init_cmd zeros (λ e. absurd (cc (e))) (refl, refl) (refl, refl)
