-- ===== src/Nci/Run.antt =====
-- Runs of the controller: commands, data, notifications and lines of the console in any order.
use e2f77dee9c9d8e2bfbcafc.Base.{ℕ, ◌≡◌, ◌<◌, refl, arith, List, length, ok, Keeps_ok}
use e2f77dee9c9d8e2bfbcafc.Memory.{Buf}
use e2f77dee9c9d8e2bfbcafc.Device.{device_init}
use e2f77dee9c9d8e2bfbcafc.Re.{Host}
use e2f77dee9c9d8e2bfbcafc.System.{System, Reply, boot}
use e2f77dee9c9d8e2bfbcafc.Nci.Rf
use e2f77dee9c9d8e2bfbcafc.Nci.Tables.{process_nci_cmd, process_nci_dta}
use e2f77dee9c9d8e2bfbcafc.Nci.Notify.{
  create_rf_discovery_ntf, create_rf_intf_activated_ntf, create_dta,
}
use e2f77dee9c9d8e2bfbcafc.Console.{Args}
use e2f77dee9c9d8e2bfbcafc.Console.Commands.{Memory, Done}
use e2f77dee9c9d8e2bfbcafc.Console.Run.{Command, run_command}
use e2f77dee9c9d8e2bfbcafc.Console.Invariant.{run_command-Safe}
use e2f77dee9c9d8e2bfbcafc.Nci.Machine.{IsValid}
use e2f77dee9c9d8e2bfbcafc.Nci.Reach.{FsmStep, kept, process_nci_cmd-IsValid}
use e2f77dee9c9d8e2bfbcafc.Nci.Discovery.{
  create_rf_discovery_ntf-Valid, create_rf_intf_activated_ntf-Valid, process_nci_dta-Valid,
  create_dta-Valid,
}

-- One thing that happens to the controller.
pub data Step : System → System → Type 0 where
  command :
      {sys : System} (cmd rsp : Buf) (r : Reply)
      → process_nci_cmd sys cmd rsp ≡ ok r
      → Step sys r.sys
  data_in :
      {sys : System} (host : Host) (dta rsp : Buf) (r : Reply)
      → process_nci_dta host sys dta rsp ≡ ok r
      → Step sys r.sys
  data_out :
      {sys sys' : System} (bytes : List ℕ) (nci b : Buf) (n : ℕ)
      → create_dta sys bytes nci ≡ ok (sys', b, n)
      → Step sys sys'
  discovered :
      {sys sys' : System} (i type : ℕ) (ntf b : Buf) (n : ℕ)
      → create_rf_discovery_ntf sys i type ntf ≡ ok (sys', b, n)
      → Step sys sys'
  activated :
      {sys sys' : System} (i : ℕ) (ntf b : Buf) (n : ℕ)
      → i < length sys.res
      → create_rf_intf_activated_ntf sys i ntf ≡ ok (sys', b, n)
      → Step sys sys'
  console :
      {sys : System} (c : Command) (args : Args) (memory : Memory) (d : Done)
      → run_command c args sys memory ≡ ok d
      → Step sys d.sys

-- A step keeps the invariant, and moves the device's state machine along one of its arrows: any
-- state may be reset, and `initialized` is entered from `reset` alone.
pub Step-IsValid :
    {sys sys' : System}
    → Step sys sys'
    → IsValid sys
    → FsmStep sys.nfc.state sys'.nfc.state × IsValid sys'
Step-IsValid {sys} (command cmd rsp r e) v =
    Keeps_ok (process_nci_cmd sys cmd rsp) _ (process_nci_cmd-IsValid sys cmd rsp v) e
Step-IsValid {sys} (data_in host dta rsp r e) v =
    kept sys.nfc.state r.sys
      (Keeps_ok (process_nci_dta host sys dta rsp) _ (process_nci_dta-Valid host sys dta rsp v) e)
Step-IsValid {sys} {sys'} (data_out bytes nci b n e) v =
    kept sys.nfc.state sys'
      (Keeps_ok (create_dta sys bytes nci) _ (create_dta-Valid sys bytes nci v) e)
Step-IsValid {sys} {sys'} (discovered i type ntf b n e) v = kept sys.nfc.state sys' (
    Keeps_ok (create_rf_discovery_ntf sys i type ntf) _
      (create_rf_discovery_ntf-Valid sys i type ntf v) e)
Step-IsValid {sys} {sys'} (activated i ntf b n h e) v = kept sys.nfc.state sys' (
    Keeps_ok (create_rf_intf_activated_ntf sys i ntf) _
      (create_rf_intf_activated_ntf-Valid sys i ntf v h) e)
Step-IsValid {sys} (console c args memory d e) v =
    kept sys.nfc.state d.sys
      (Keeps_ok (run_command c args sys memory) _ (run_command-Safe c args sys memory v) e)

-- The states that a run from start-up passes through.
pub data Reachable : System → Type 0 where
  start : Reachable boot
  step : {sys sys' : System} → Reachable sys → Step sys sys' → Reachable sys'

pub boot-IsValid : IsValid boot
unfolding boot Rf.is_rfst device_init
boot-IsValid = (refl, refl, refl, omega arith, tt, tt)

-- In every state that a run from start-up passes through, made of any commands, data, notifications
-- and console commands that end without a fault, the RF state is one of the seven, the store has its
-- size, the RF table is that of the initialiser, ids stay below 255, and no pointer leaves its table.
pub Reachable-IsValid : {sys : System} → Reachable sys → IsValid sys
Reachable-IsValid start = boot-IsValid
Reachable-IsValid (step r s) = (Step-IsValid s (Reachable-IsValid r)).1
