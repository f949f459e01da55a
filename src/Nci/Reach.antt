-- ===== src/Nci/Reach.antt =====
-- The device's state machine: every command keeps the invariant, and moves along an arrow.
use e2f77dee9c9d8e2bfbcafc.Base.{
  ℕ, ◌≡◌, refl, sym, subst, Option, none, some, List, ◌==◌, Result, Keeps, All, [], ◌∷◌, Keeps_map,
  if_both, arith,
}
use mathlib.Core.Bool.{true}
use e2f77dee9c9d8e2bfbcafc.Memory.{Buf}
use e2f77dee9c9d8e2bfbcafc.Packet.{pkt_gid, pkt_oid, gid_core, gid_rf, gid_nfcee, gid_prop}
use e2f77dee9c9d8e2bfbcafc.Rf.{Rfst}
use e2f77dee9c9d8e2bfbcafc.Device.{FsmState, idle, reset, initialized}
use e2f77dee9c9d8e2bfbcafc.System.{System, Reply}
use e2f77dee9c9d8e2bfbcafc.Nci.Common
use e2f77dee9c9d8e2bfbcafc.Nci.Rf
use e2f77dee9c9d8e2bfbcafc.Nci.Tables.{
  Command, semantic_error, core_reset, core_init, core_set_config, rf_discover_map, rf_discover,
  rf_discover_select, rf_deactivate, rf_t3t_polling, nfcee_discover, accept, get_build_info,
  get_patch_version, run, run_entry, command, entry, core_oid, rf_oid, nfcee_oid, prop_oid,
  process_nci_cmd,
}
use e2f77dee9c9d8e2bfbcafc.Nci.Machine.{ValidIn, IsValid}
use e2f77dee9c9d8e2bfbcafc.Nci.Handlers.{
  Sound, rf_discover-Sound, core_set_config-Sound, rf_discover_select-Sound, rf_deactivate-Sound,
}

-- The arrows of the device's state machine.
pub data FsmStep : FsmState → FsmState → Type 0 where
  stay : (s : FsmState) → FsmStep s s
  reset_from : (s : FsmState) → FsmStep s reset
  init : FsmStep reset initialized

-- The one command that a state must be right for: `core_init` is in the tables of `reset` alone.
abbrev Allowed : FsmState → Command → Type 0
Allowed s core_init = s ≡ reset
Allowed s _ = Unit {0}

abbrev AllowedEntry : FsmState → Option Command → Type 0
AllowedEntry s none = Unit {0}
AllowedEntry s (some c) = Allowed s c

entry-Allowed :
    (s : FsmState) (table : List (ℕ × Command)) (oid : ℕ)
    → All (λ e. Allowed s e.1) table
    → AllowedEntry s (entry table oid)
unfolding entry
entry-Allowed s [] oid h = tt
entry-Allowed s ((k, c) ∷ rest) oid h =
    if_both (k == oid) (some c) (entry rest oid) (AllowedEntry s) h.0 (entry-Allowed s rest oid h.1)

abbrev AllAllowed : FsmState → List (ℕ × Command) → Type 0
AllAllowed s table = All (λ e. Allowed s e.1) table

tables-Allowed :
    (s : FsmState)
    → AllAllowed s (core_oid s)
      × AllAllowed s (rf_oid s)
      × AllAllowed s (nfcee_oid s)
      × AllAllowed s (prop_oid s)
unfolding core_oid rf_oid nfcee_oid prop_oid
tables-Allowed idle = ground arith
tables-Allowed reset = ground arith
tables-Allowed initialized = ground arith

command-Allowed : (s : FsmState) (gid oid : ℕ) → AllowedEntry s (command s gid oid)
unfolding command
command-Allowed s gid oid =
    let (core, rf, nfcee, prop) = tables-Allowed s in
    if_both (gid == gid_core) _ _ (AllowedEntry s) (entry-Allowed s (core_oid s) oid core) (
      if_both (gid == gid_rf) _ _ (AllowedEntry s) (entry-Allowed s (rf_oid s) oid rf) (
        if_both (gid == gid_nfcee) _ _ (AllowedEntry s) (entry-Allowed s (nfcee_oid s) oid nfcee) (
          if_both (gid == gid_prop) _ _ (AllowedEntry s) (entry-Allowed s (prop_oid s) oid prop)
            tt)))

pub kept : (s : FsmState) (sys : System) → ValidIn s sys → FsmStep s sys.nfc.state × IsValid sys
kept s sys (e, v) = (subst (FsmStep s) (sym e) (stay s), v)

still :
    (s : FsmState) (m : Result Reply)
    → Keeps m (Sound s)
    → Keeps m (λ r. FsmStep s r.sys.nfc.state × IsValid r.sys)
still s m h = Keeps_map m (Sound s) _ h (λ r v. kept s r.sys v)

run-Sound :
    (c : Command) (s : FsmState) (sys : System) (cmd rsp : Buf)
    → Allowed s c
    → ValidIn s sys
    → Keeps (run c sys cmd rsp) (λ r. FsmStep s r.sys.nfc.state × IsValid r.sys)
unfolding run Common.semantic_error Common.core_reset Common.core_init Common.rf_discover_map
    Common.nfcee_discover Common.accept Common.get_build_info Common.get_patch_version
    Common.status_reply Common.payload_reply Rf.rf_t3t_polling Rf.is_rfst
run-Sound semantic_error s sys cmd rsp p v = kept s sys v
run-Sound core_reset s sys cmd rsp p (e, v) =
    let (a, b, c, d, g, h) = v in
    (
      reset_from s,
      (
        if_both (cmd 3 == 0) sys.nfc.rf_state Rfst.idle (λ x. Rf.is_rfst x ≡ true) a refl,
        b,
        c,
        d,
        g,
        h,
      ),
    )
run-Sound core_init s sys cmd rsp p (e, v) = (subst (λ x. FsmStep x initialized) (sym p) init, v)
run-Sound core_set_config s sys cmd rsp p v = still s _ (core_set_config-Sound s sys cmd rsp v)
run-Sound rf_discover_map s sys cmd rsp p v = kept s sys v
run-Sound rf_discover s sys cmd rsp p v = still s _ (rf_discover-Sound s sys cmd rsp v)
run-Sound rf_discover_select s sys cmd rsp p v =
    still s _ (rf_discover_select-Sound s sys cmd rsp v)
run-Sound rf_deactivate s sys cmd rsp p v = still s _ (rf_deactivate-Sound s sys cmd rsp v)
run-Sound rf_t3t_polling s sys cmd rsp p v = kept s sys v
run-Sound nfcee_discover s sys cmd rsp p v = kept s sys v
run-Sound accept s sys cmd rsp p v = kept s sys v
run-Sound get_build_info s sys cmd rsp p v = kept s sys v
run-Sound get_patch_version s sys cmd rsp p v = kept s sys v

run_entry-Sound :
    (o : Option Command) (s : FsmState) (sys : System) (cmd rsp : Buf)
    → AllowedEntry s o
    → ValidIn s sys
    → Keeps (run_entry o sys cmd rsp) (λ r. FsmStep s r.sys.nfc.state × IsValid r.sys)
unfolding run_entry
run_entry-Sound none s sys cmd rsp p v = tt
run_entry-Sound (some c) s sys cmd rsp p v = run-Sound c s sys cmd rsp p v

-- A command that is handled without a fault keeps the invariant, and moves the device's state
-- machine along one of its arrows: any state may be reset, and `initialized` is entered from `reset`
-- alone.
pub process_nci_cmd-IsValid :
    (sys : System) (cmd rsp : Buf)
    → IsValid sys
    → Keeps
        (process_nci_cmd sys cmd rsp)
        (λ r. FsmStep sys.nfc.state r.sys.nfc.state × IsValid r.sys)
unfolding process_nci_cmd
process_nci_cmd-IsValid sys cmd rsp v =
    run_entry-Sound (command sys.nfc.state (pkt_gid cmd) (pkt_oid cmd)) sys.nfc.state sys cmd rsp
      (command-Allowed sys.nfc.state (pkt_gid cmd) (pkt_oid cmd)) (refl, v)
