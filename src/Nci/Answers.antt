-- ===== src/Nci/Answers.antt =====
-- The header of the response to an NCI command.
use e2f77dee9c9d8e2bfbcafc.Base.{
  ℕ, ◌+◌, ◌≡◌, arith, none, some, Keeps, Option, List, [], ◌∷◌, >>=-Keeps_any, if-Keeps, map, ◌>>=◌,
  ok, fault, assertion, not, ◌||◌, ◌==◌, get_elem?,
}
use e2f77dee9c9d8e2bfbcafc.Memory.{Buf}
use e2f77dee9c9d8e2bfbcafc.Packet.{
  pkt_mt, pkt_gid, pkt_oid, pkt_len, mt_rsp, status_ok, status_rejected,
}
use e2f77dee9c9d8e2bfbcafc.Rf.{protocol_code, discovery, w4_host_select}
use e2f77dee9c9d8e2bfbcafc.Device.{Device, find_rf_by_protocol_and_mode}
use e2f77dee9c9d8e2bfbcafc.Re.{Re, get_re_by_id}
use e2f77dee9c9d8e2bfbcafc.System.{System, Reply}
use e2f77dee9c9d8e2bfbcafc.Nci.Common
use e2f77dee9c9d8e2bfbcafc.Nci.Config
use e2f77dee9c9d8e2bfbcafc.Nci.Rf
use e2f77dee9c9d8e2bfbcafc.Nci.Tables.{
  Command, semantic_error, core_reset, core_init, core_set_config, rf_discover_map, rf_discover,
  rf_discover_select, rf_deactivate, rf_t3t_polling, nfcee_discover, accept, get_build_info,
  get_patch_version, run, run_entry, process_nci_cmd,
}

-- The response is one to `cmd`: it is a response packet with the command's group and opcode, and
-- the length that is returned is the header and what its length byte says.
abbrev pub Answers : Buf → Reply → Type 0
Answers cmd r =
    (pkt_mt r.rsp ≡ mt_rsp)
    × (pkt_gid r.rsp ≡ pkt_gid cmd)
    × (pkt_oid r.rsp ≡ pkt_oid cmd)
    × (r.len ≡ 3 + pkt_len r.rsp)

status_reply-Answers :
    (sys : System) (cmd rsp : Buf) (status : ℕ)
    → Answers cmd (Common.status_reply sys cmd rsp status)
unfolding Common.status_reply
status_reply-Answers sys cmd rsp status = ground arith

payload_reply-Answers :
    (sys : System) (cmd rsp : Buf) (bytes : List ℕ)
    → Answers cmd (Common.payload_reply sys cmd rsp bytes)
unfolding Common.payload_reply
payload_reply-Answers sys cmd rsp bytes = ground arith

core_set_config-Answers :
    (sys : System) (cmd rsp : Buf) → Keeps (Config.core_set_config sys cmd rsp) (Answers cmd)
unfolding Config.core_set_config
core_set_config-Answers sys cmd rsp =
    >>=-Keeps_any (Config.set_params (cmd 3) sys cmd 0) _ (Answers cmd)
      (λ sys'. payload_reply-Answers sys' cmd rsp (status_ok ∷ 0 ∷ []))

rf_discover-Answers :
    (sys : System) (cmd rsp : Buf) → Keeps (Rf.rf_discover sys cmd rsp) (Answers cmd)
unfolding Rf.rf_discover
rf_discover-Answers sys cmd rsp =
    >>=-Keeps_any (Rf.rf_transition sys.nfc Rf.idle_bit discovery) _ (Answers cmd)
      (λ nfc. status_reply-Answers (record sys { nfc = nfc }) cmd rsp status_ok)

select_endpoint-Answers :
    (sys : System) (cmd rsp : Buf) (i : ℕ) (re : Re)
    → Keeps (Rf.select_endpoint sys cmd rsp i re) (Answers cmd)
unfolding Rf.select_endpoint
select_endpoint-Answers sys cmd rsp i re =
    if-Keeps (not (cmd 4 == protocol_code re.rfproto)) _ _ (Answers cmd)
      (status_reply-Answers sys cmd rsp status_rejected)
      (>>=-Keeps_any (find_rf_by_protocol_and_mode sys.nfc re.rfproto re.mode) _ (Answers cmd)
        (λ o. at (record (sys.nfc) { active_rf = o }) o))
  where
    at :
        (nfc : Device) (o : Option ℕ)
        → Keeps
            (elim o [
              | none ↦ ok (Common.status_reply (record sys { nfc = nfc }) cmd rsp status_rejected)
              | some _ ↦ do
                nfc' ← Rf.rf_transition nfc Rf.w4_host_select_bit w4_host_select
                let nfc'' = record nfc' { active_re = some i }
                ok (Common.status_reply (record sys { nfc = nfc'' }) cmd rsp status_ok)
            ])
            (Answers cmd)
    at nfc none = status_reply-Answers (record sys { nfc = nfc }) cmd rsp status_rejected
    at nfc (some k) =
        >>=-Keeps_any (Rf.rf_transition nfc Rf.w4_host_select_bit w4_host_select) _ (Answers cmd)
          (λ nfc'.
            status_reply-Answers (record sys { nfc = record nfc' { active_re = some i } }) cmd rsp
              status_ok)

rf_discover_select-Answers :
    (sys : System) (cmd rsp : Buf) → Keeps (Rf.rf_discover_select sys cmd rsp) (Answers cmd)
unfolding Rf.rf_discover_select
rf_discover_select-Answers sys cmd rsp =
    if-Keeps (cmd 3 == 0 || cmd 3 == 255) _ _ (Answers cmd)
      (status_reply-Answers sys cmd rsp status_rejected)
      (>>=-Keeps_any (get_re_by_id sys.res (cmd 3)) _ (Answers cmd) elim [
        | none ↦ status_reply-Answers _ cmd rsp status_rejected
        | some i ↦ at i (get_elem? sys.res i)
      ])
  where
    at :
        (i : ℕ) (o : Option Re)
        → Keeps
            (elim o [ none ↦ fault assertion | some re ↦ Rf.select_endpoint sys cmd rsp i re ])
            (Answers cmd)
    at i none = tt
    at i (some re) = select_endpoint-Answers sys cmd rsp i re

rf_deactivate-Answers :
    (sys : System) (cmd rsp : Buf) → Keeps (Rf.rf_deactivate sys cmd rsp) (Answers cmd)
unfolding Rf.rf_deactivate
rf_deactivate-Answers sys cmd rsp =
    >>=-Keeps_any (Rf.deactivation (cmd 3) sys.nfc.rf_state) _ (Answers cmd) λ d.
      >>=-Keeps_any (Rf.rf_transition sys.nfc d.0 d.1) _ (Answers cmd) λ nfc.
        status_reply-Answers
          (record sys {
            nfc = record nfc { active_re = none; active_rf = none };
            res = map Rf.forget_id sys.res;
          })
          cmd rsp status_ok

run-Answers : (c : Command) (sys : System) (cmd rsp : Buf) → Keeps (run c sys cmd rsp) (Answers cmd)
unfolding run
run-Answers semantic_error sys cmd rsp = unfold Common.semantic_error in ground arith
run-Answers core_reset sys cmd rsp = unfold Common.core_reset in ground arith
run-Answers core_init sys cmd rsp = unfold Common.core_init in ground arith
run-Answers core_set_config sys cmd rsp = core_set_config-Answers sys cmd rsp
run-Answers rf_discover_map sys cmd rsp = unfold Common.rf_discover_map in ground arith
run-Answers rf_discover sys cmd rsp = rf_discover-Answers sys cmd rsp
run-Answers rf_discover_select sys cmd rsp = rf_discover_select-Answers sys cmd rsp
run-Answers rf_deactivate sys cmd rsp = rf_deactivate-Answers sys cmd rsp
run-Answers rf_t3t_polling sys cmd rsp =
    unfold Rf.rf_t3t_polling in status_reply-Answers sys cmd rsp _
run-Answers nfcee_discover sys cmd rsp = unfold Common.nfcee_discover in ground arith
run-Answers accept sys cmd rsp = unfold Common.accept in ground arith
run-Answers get_build_info sys cmd rsp = unfold Common.get_build_info in ground arith
run-Answers get_patch_version sys cmd rsp = unfold Common.get_patch_version in ground arith

run_entry-Answers :
    (c : Option Command) (sys : System) (cmd rsp : Buf)
    → Keeps (run_entry c sys cmd rsp) (Answers cmd)
unfolding run_entry
run_entry-Answers none sys cmd rsp = tt
run_entry-Answers (some c) sys cmd rsp = run-Answers c sys cmd rsp

-- In every state, a command that is handled without a fault is answered by a response packet with
-- the group and the opcode of the command, whose length byte agrees with the length returned.
pub process_nci_cmd-Answers :
    (sys : System) (cmd rsp : Buf) → Keeps (process_nci_cmd sys cmd rsp) (Answers cmd)
unfolding process_nci_cmd
process_nci_cmd-Answers sys cmd rsp = run_entry-Answers _ sys cmd rsp
