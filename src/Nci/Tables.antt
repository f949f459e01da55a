-- ===== src/Nci/Tables.antt =====
-- The command tables of src/nfc-nci.c and the entry points. An entry is the name of a handler, and
-- `none` is a null pointer, which the code asserts away.
use e2f77dee9c9d8e2bfbcafc.Base.{
  ℕ, ◌==◌, if◌then◌else◌, Option, none, some, List, [], ◌∷◌, set, Result, ok, fault, assertion,
  ◌>>=◌,
}
use e2f77dee9c9d8e2bfbcafc.Memory.{Buf}
use e2f77dee9c9d8e2bfbcafc.Packet.{
  pkt_mt, pkt_gid, pkt_oid, mt_dta, mt_cmd, gid_core, gid_rf, gid_nfcee, gid_prop,
}
use e2f77dee9c9d8e2bfbcafc.Device.{FsmState, idle, reset, initialized}
use e2f77dee9c9d8e2bfbcafc.Re.{Re, Host}
use e2f77dee9c9d8e2bfbcafc.Re.Data.{process_data}
use e2f77dee9c9d8e2bfbcafc.System.{System, Reply, endpoint}
use e2f77dee9c9d8e2bfbcafc.Nci.Common
use e2f77dee9c9d8e2bfbcafc.Nci.Config
use e2f77dee9c9d8e2bfbcafc.Nci.Rf

pub data Command : Type 0 where
  semantic_error core_reset core_init core_set_config rf_discover_map rf_discover : Command
  rf_discover_select rf_deactivate rf_t3t_polling nfcee_discover accept : Command
  get_build_info get_patch_version : Command

-- A table, as the entries that its initialiser names.
unfoldable pub entry : List (ℕ × Command) → ℕ → Option Command
entry [] oid = none
entry ((k, c) ∷ rest) oid = let more = entry rest oid in if k == oid then some c else more

-- The commands of each group that the device may be sent in any state.
abbrev pub refused_core : List (ℕ × Command)
refused_core =
    (0x02, semantic_error)
    ∷ (0x03, semantic_error)
    ∷ (0x04, semantic_error)
    ∷ (0x05, semantic_error)
    ∷ []

abbrev pub refused_rf : List (ℕ × Command)
refused_rf =
    (0x00, semantic_error)
    ∷ (0x01, semantic_error)
    ∷ (0x02, semantic_error)
    ∷ (0x03, semantic_error)
    ∷ (0x04, semantic_error)
    ∷ (0x06, semantic_error)
    ∷ (0x08, semantic_error)
    ∷ (0x0b, semantic_error)
    ∷ []

abbrev pub refused_nfcee : List (ℕ × Command)
refused_nfcee = (0x00, semantic_error) ∷ (0x01, semantic_error) ∷ []

-- The tables `core_oid`, `rf_oid`, `nfcee_oid` and `prop_oid` of a state.
unfoldable pub core_oid : FsmState → List (ℕ × Command)
core_oid idle = (0x00, core_reset) ∷ (0x01, semantic_error) ∷ refused_core
core_oid reset = (0x00, semantic_error) ∷ (0x01, core_init) ∷ refused_core
core_oid initialized = (0x00, core_reset) ∷ (0x01, semantic_error) ∷ (0x02, core_set_config) ∷ []

unfoldable pub rf_oid : FsmState → List (ℕ × Command)
rf_oid idle = refused_rf
rf_oid reset = refused_rf
rf_oid initialized =
    (0x00, rf_discover_map)
    ∷ (0x03, rf_discover)
    ∷ (0x04, rf_discover_select)
    ∷ (0x06, rf_deactivate)
    ∷ (0x08, rf_t3t_polling)
    ∷ []

unfoldable pub nfcee_oid : FsmState → List (ℕ × Command)
nfcee_oid idle = refused_nfcee
nfcee_oid reset = refused_nfcee
nfcee_oid initialized = (0x00, nfcee_discover) ∷ []

unfoldable pub prop_oid : FsmState → List (ℕ × Command)
prop_oid idle =
    (0x04, get_build_info)
    ∷ (0x05, semantic_error)
    ∷ (0x06, semantic_error)
    ∷ (0x2d, get_patch_version)
    ∷ []
prop_oid reset =
    (0x04, semantic_error)
    ∷ (0x05, semantic_error)
    ∷ (0x06, semantic_error)
    ∷ (0x2d, semantic_error)
    ∷ []
prop_oid initialized =
    (0x04, get_build_info) ∷ (0x05, accept) ∷ (0x06, accept) ∷ (0x2d, get_patch_version) ∷ []

-- The choice of a table by the group, and of its entry, in `idle_process_cmd`,
-- `reset_process_cmd` and `init_process_cmd`.
unfoldable pub command : FsmState → ℕ → ℕ → Option Command
unfolding entry core_oid rf_oid nfcee_oid prop_oid
command state gid oid =
    if gid == gid_core
    then entry (core_oid state) oid
    else (if gid == gid_rf
        then entry (rf_oid state) oid
        else (if gid == gid_nfcee
            then entry (nfcee_oid state) oid
            else (if gid == gid_prop then entry (prop_oid state) oid else none)))

unfoldable pub run : Command → System → Buf → Buf → Result Reply
run semantic_error sys cmd rsp = ok (Common.semantic_error sys cmd rsp)
run core_reset sys cmd rsp = ok (Common.core_reset sys cmd rsp)
run core_init sys cmd rsp = ok (Common.core_init sys cmd rsp)
run core_set_config sys cmd rsp = Config.core_set_config sys cmd rsp
run rf_discover_map sys cmd rsp = ok (Common.rf_discover_map sys cmd rsp)
run rf_discover sys cmd rsp = Rf.rf_discover sys cmd rsp
run rf_discover_select sys cmd rsp = Rf.rf_discover_select sys cmd rsp
run rf_deactivate sys cmd rsp = Rf.rf_deactivate sys cmd rsp
run rf_t3t_polling sys cmd rsp = ok (Rf.rf_t3t_polling sys cmd rsp)
run nfcee_discover sys cmd rsp = ok (Common.nfcee_discover sys cmd rsp)
run accept sys cmd rsp = ok (Common.accept sys cmd rsp)
run get_build_info sys cmd rsp = ok (Common.get_build_info sys cmd rsp)
run get_patch_version sys cmd rsp = ok (Common.get_patch_version sys cmd rsp)

-- `assert(process)` and the call.
unfoldable pub run_entry : Option Command → System → Buf → Buf → Result Reply
run_entry none sys cmd rsp = fault assertion
run_entry (some c) sys cmd rsp = run c sys cmd rsp

unfoldable pub process_nci_cmd : System → Buf → Buf → Result Reply
process_nci_cmd sys cmd rsp =
    run_entry (command (sys.nfc.state) (pkt_gid cmd) (pkt_oid cmd)) sys cmd rsp

-- The endpoint after handling data, put back into the table.
abbrev pub put_back : List Re → Option ℕ → Re → List Re
put_back res none re = res
put_back res (some i) re = set res i re

unfoldable pub process_nci_dta : Host → System → Buf → Buf → Result Reply
process_nci_dta host sys dta rsp = do
  nfc ← Rf.rf_transition (sys.nfc) 0x30 (sys.nfc.rf_state)
  re ← endpoint sys.res nfc.active_re
  p ← process_data host sys.tags sys.file_sel re sys.events dta rsp
  ok record {
    sys = record sys {
      nfc = nfc;
      res = put_back sys.res nfc.active_re p.re;
      file_sel = p.file_sel;
      events = p.events;
    };
    rsp = p.rsp;
    len = p.len;
    cb = none;
  }

-- `nfc_process_nci_msg`; anything but commands and data is ignored.
unfoldable pub process_nci_msg : Host → System → Buf → Buf → Result Reply
unfolding process_nci_dta process_nci_cmd run_entry command
process_nci_msg host sys pkt rsp =
    if pkt_mt pkt == mt_dta
    then process_nci_dta host sys pkt rsp
    else (if pkt_mt pkt == mt_cmd
        then process_nci_cmd sys pkt rsp
        else ok (record { sys = sys; rsp = rsp; len = 0; cb = none }))
