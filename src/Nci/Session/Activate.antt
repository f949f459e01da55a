-- ===== src/Nci/Session/Activate.antt =====
-- From a discovery to an active tag: the host tells the controller to discover (src/nfc-nci.c), and the
-- console brings a tag into the field (src/cmdline.c).
use e2f77dee9c9d8e2bfbcafc.Base.{
  ℕ, ◌≡◌, refl, ◌∙◌, inl, inr, Bool-cases, ◌==◌, true, none, some, get_elem?, set, ok, ◌>>=◌,
  Returns, >>=-Returns,
}
use e2f77dee9c9d8e2bfbcafc.Memory.{Buf}
use e2f77dee9c9d8e2bfbcafc.Packet.{pkt_mt, pkt_gid, pkt_oid, mt_cmd, gid_rf, status_ok}
use e2f77dee9c9d8e2bfbcafc.Rf.{Rf, Rfst}
use e2f77dee9c9d8e2bfbcafc.Device.{
  Device, FsmState, rf_table, find_rf_by_protocol_and_mode, device_incr_id,
}
use e2f77dee9c9d8e2bfbcafc.Re.{Re, Host, clear_re}
use e2f77dee9c9d8e2bfbcafc.System.{System}
use e2f77dee9c9d8e2bfbcafc.Nci.Common.{status_reply}
use e2f77dee9c9d8e2bfbcafc.Nci.Rf.{rf_transition, rf_discover}
use e2f77dee9c9d8e2bfbcafc.Nci.Tables.{process_nci_msg, command, run, Command}
use e2f77dee9c9d8e2bfbcafc.Nci.Activated.{using, activate_first}
use e2f77dee9c9d8e2bfbcafc.Nci.Notify.{
  activation_step, activate_re, identified, create_rf_intf_activated_ntf,
}
use e2f77dee9c9d8e2bfbcafc.Console.Commands.{Memory}
use e2f77dee9c9d8e2bfbcafc.Console.{negsuc}
use e2f77dee9c9d8e2bfbcafc.Console.Notify.{choose_rf, rf_intf_activated_ntf_cb}
use e2f77dee9c9d8e2bfbcafc.Nci.Session.Entry.{IsTag, tag_entry}
use e2f77dee9c9d8e2bfbcafc.Nci.Session.{Serves, get_elem?-set_self}

identified_keeps :
    (nfc : Device) (re : Re)
    → ((identified nfc re).0.rf_state ≡ nfc.rf_state)
      × ((identified nfc re).0.active_re ≡ nfc.active_re)
      × ((identified nfc re).1.rfproto ≡ re.rfproto)
      × ((identified nfc re).1.tag ≡ re.tag)
unfolding device_incr_id
identified_keeps nfc re = elim (Bool-cases (re.id == 0)) [
  | inl e ↦ rw e (refl, refl, refl, refl)
  | inr e ↦ rw e (refl, refl, refl, refl)
]

to_poll_active :
    (nfc : Device) (step : ℕ × Rfst)
    → nfc.rf_state ≡ Rfst.discovery
    → step ≡ (0x0a, Rfst.poll_active)
    → Returns
        (rf_transition nfc step.0 step.1)
        λ nfc'. (nfc'.rf_state ≡ Rfst.poll_active) × (nfc'.active_re ≡ nfc.active_re)
unfolding rf_transition
to_poll_active nfc step h e = rw (e, h) (refl, refl)

-- The notification makes an endpoint the active one, if none is.
activated_ntf-Serves :
    (sys : System) (i k t : ℕ) (re : Re) (rf : Rf) (ntf : Buf)
    → sys.nfc.rf_state ≡ Rfst.discovery
    → sys.nfc.active_re ≡ none
    → get_elem? sys.nfc.rf k ≡ some rf
    → activation_step rf.mode ≡ (0x0a, Rfst.poll_active)
    → get_elem? sys.res i ≡ some re
    → re.tag ≡ some t
    → Returns
        (create_rf_intf_activated_ntf (using sys k) i ntf)
        λ r. Serves r.0 re.rfproto t × (r.0.tags ≡ sys.tags)
unfolding create_rf_intf_activated_ntf
activated_ntf-Serves sys i k t re rf ntf hs ha hr step there tag =
    let nfc = (using sys k).nfc in
    let (s, a, proto, tagged) = identified_keeps nfc re in
    rw (there, hr)
      (>>=-Returns
        (rf_transition (identified nfc re).0 (activation_step rf.mode).0
          (activation_step rf.mode).1)
        _ _ _ (to_poll_active (identified nfc re).0 (activation_step rf.mode) (s ∙ hs) step)
        (λ nfc' (e, f).
          >>=-Returns (activate_re nfc'.active_re i) _ _ _
            (activate_first nfc'.active_re i (f ∙ (a ∙ ha)))
            (λ active g. (
              record {
                index = i;
                re = (identified nfc re).1;
                passes = inl e;
                active = g;
                found = get_elem?-set_self sys.res i re (identified nfc re).1 there;
                speaks = proto;
                tagged = tagged ∙ tag;
              },
              refl,
            ))))

discover_command :
    (s : FsmState) (gid oid : ℕ)
    → s ≡ FsmState.initialized
    → gid ≡ gid_rf
    → oid ≡ 0x03
    → command s gid oid ≡ some Command.rf_discover
unfolding command
discover_command s gid oid e g o = rw (e, g, o) refl

-- The state that a discover command leaves.
abbrev discovering : System → System
discovering sys = record sys { nfc = record (sys.nfc) { rf_state = Rfst.discovery } }

to_discovery :
    (nfc : Device)
    → nfc.rf_state ≡ Rfst.idle
    → rf_transition nfc 0x01 Rfst.discovery ≡ ok (record nfc { rf_state = Rfst.discovery })
unfolding rf_transition
to_discovery nfc h = rw h refl

discovered :
    (host : Host) (sys : System) (cmd rsp : Buf)
    → sys.nfc.state ≡ FsmState.initialized
    → sys.nfc.rf_state ≡ Rfst.idle
    → pkt_mt cmd ≡ mt_cmd
    → pkt_gid cmd ≡ gid_rf
    → pkt_oid cmd ≡ 0x03
    → process_nci_msg host sys cmd rsp ≡ ok (status_reply (discovering sys) cmd rsp status_ok)
unfolding process_nci_msg rf_discover run
discovered host sys cmd rsp s h m g o =
    let entry = discover_command sys.nfc.state (pkt_gid cmd) (pkt_oid cmd) s g o in
    rw (m, entry, to_discovery sys.nfc h) refl

choose_found :
    (sys : System) (re : Re) (k : ℕ)
    → sys.nfc.active_rf ≡ none
    → find_rf_by_protocol_and_mode sys.nfc re.rfproto re.mode ≡ ok (some k)
    → choose_rf sys re (negsuc 0) ≡ ok (some k)
unfolding choose_rf
choose_found sys re k h at = rw (h, choose_rf) at

-- The console's notification for a tag whose RF interface is left to the controller.
activate_cb-Serves :
    (sys : System) (i t : ℕ) (re : Re) (memory : Memory)
    → sys.nfc.rf_state ≡ Rfst.discovery
    → sys.nfc.active_re ≡ none
    → sys.nfc.active_rf ≡ none
    → sys.nfc.rf ≡ rf_table
    → get_elem? sys.res i ≡ some re
    → re.tag ≡ some t
    → IsTag re.rfproto
    → Returns
        (rf_intf_activated_ntf_cb sys (some i) (negsuc 0) memory)
        λ d. (d.success ≡ true) × Serves d.sys re.rfproto t × (d.sys.tags ≡ sys.tags)
unfolding rf_intf_activated_ntf_cb
activate_cb-Serves sys i t re memory hs ha hf table there tag is =
    let sys₁ : System = record sys { res = set sys.res i (clear_re re) } in
    let (k, rf, at, row, step) = tag_entry sys.nfc re.rfproto re.mode table is in
    let chosen : choose_rf sys₁ (clear_re re) (negsuc 0) ≡ ok (some k) =
      choose_found sys₁ (clear_re re) k hf at in
    rw (there, chosen)
      (>>=-Returns (create_rf_intf_activated_ntf (using sys₁ k) i memory.packet) _ _ _
        (activated_ntf-Serves sys₁ i k t (clear_re re) rf memory.packet hs ha row step
          (get_elem?-set_self sys.res i re (clear_re re) there) tag)
        (λ r h. (refl, h.0, h.1)))

-- In an initialised device whose RF state is idle, with the RF table of the initialiser and nothing
-- active, the host's discover command and the console's activation of a tag both succeed. Then the RF
-- interface is active with that tag, which is the state in which the host can read it; the tags are
-- as they were.
pub discover_activate :
    (host : Host) (sys : System) (cmd rsp : Buf) (i t : ℕ) (re : Re) (memory : Memory)
    → sys.nfc.state ≡ FsmState.initialized
    → sys.nfc.rf_state ≡ Rfst.idle
    → sys.nfc.active_re ≡ none
    → sys.nfc.active_rf ≡ none
    → sys.nfc.rf ≡ rf_table
    → get_elem? sys.res i ≡ some re
    → re.tag ≡ some t
    → IsTag re.rfproto
    → pkt_mt cmd ≡ mt_cmd
    → pkt_gid cmd ≡ gid_rf
    → pkt_oid cmd ≡ 0x03
    → Returns
        (process_nci_msg host sys cmd rsp >>= λ a.
          rf_intf_activated_ntf_cb a.sys (some i) (negsuc 0) memory)
        λ d. (d.success ≡ true) × Serves d.sys re.rfproto t × (d.sys.tags ≡ sys.tags)
unfolding status_reply
discover_activate host sys cmd rsp i t re memory hs hr ha hf table there tag is m g o =
    rw (discovered host sys cmd rsp hs hr m g o)
      (activate_cb-Serves (discovering sys) i t re memory refl ha hf table there tag is)
