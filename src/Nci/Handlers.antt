-- ===== src/Nci/Handlers.antt =====
-- The commands that move the RF state machine or set parameters keep the invariant.
use e2f77dee9c9d8e2bfbcafc.Base.{
  ℕ, ◌≡◌, ◌<◌, inl, refl, sym, subst, Option, none, some, length, get_elem?, not, ◌||◌, ◌==◌, ok,
  fault, assertion, ◌>>=◌, Keeps, >>=-Keeps, if-Keeps,
}
use e2f77dee9c9d8e2bfbcafc.Memory.{Buf}
use e2f77dee9c9d8e2bfbcafc.Packet.{status_ok, status_rejected}
use e2f77dee9c9d8e2bfbcafc.Rf.{protocol_code, discovery, w4_host_select}
use e2f77dee9c9d8e2bfbcafc.Device.{FsmState, Device, find_rf_by_protocol_and_mode}
use e2f77dee9c9d8e2bfbcafc.Re.{Re, get_re_by_id}
use e2f77dee9c9d8e2bfbcafc.System.{System, Reply}
use e2f77dee9c9d8e2bfbcafc.Nci.Common
use e2f77dee9c9d8e2bfbcafc.Nci.Config
use e2f77dee9c9d8e2bfbcafc.Nci.Rf
use e2f77dee9c9d8e2bfbcafc.Nci.Machine.{
  InTable, DeviceIsValid, ValidIn, set_params-Valid, rf_transition-Valid, deactivation-Proper,
  found_re-InTable, found_rf-InTable,
}

-- The invariant after a reply in which the device's state is `s`.
abbrev pub Sound : FsmState → Reply → Type 0
Sound s r = ValidIn s r.sys

pub rf_discover-Sound :
    (s : FsmState) (sys : System) (cmd rsp : Buf)
    → ValidIn s sys
    → Keeps (Rf.rf_discover sys cmd rsp) (Sound s)
unfolding Rf.rf_discover Rf.is_rfst Common.status_reply
rf_discover-Sound s sys cmd rsp v =
    >>=-Keeps (Rf.rf_transition sys.nfc Rf.idle_bit discovery) _ _ (Sound s)
      (rf_transition-Valid (length sys.res) s sys.nfc Rf.idle_bit discovery (inl refl) v)
      (λ nfc v'. v')

pub core_set_config-Sound :
    (s : FsmState) (sys : System) (cmd rsp : Buf)
    → ValidIn s sys
    → Keeps (Config.core_set_config sys cmd rsp) (Sound s)
unfolding Config.core_set_config Common.payload_reply
core_set_config-Sound s sys cmd rsp v =
    >>=-Keeps (Config.set_params (cmd 3) sys cmd 0) _ (ValidIn s) (Sound s)
      (set_params-Valid (cmd 3) s sys cmd 0 v) (λ sys' v'. v')

with_rf-Sound :
    (s : FsmState) (sys : System) (cmd rsp : Buf) (i : ℕ) (o : Option ℕ)
    → ValidIn s sys
    → i < length sys.res
    → InTable (length sys.nfc.rf) o
    → (nfc : Device) → nfc ≡ record (sys.nfc) { active_rf = o }
    → Keeps
        (elim o [
          | none ↦ ok (Common.status_reply (record sys { nfc = nfc }) cmd rsp status_rejected)
          | some _ ↦ do
            nfc' ← Rf.rf_transition nfc Rf.w4_host_select_bit w4_host_select
            let nfc'' = record nfc' { active_re = some i }
            ok (Common.status_reply (record sys { nfc = nfc'' }) cmd rsp status_ok)
        ])
        (Sound s)
unfolding Rf.is_rfst Common.status_reply
with_rf-Sound s sys cmd rsp i none (e, v) hi ho nfc q =
    let (a, b, c, d, g, h) = v in
    subst (λ m. (m.state ≡ s) × DeviceIsValid (length sys.res) m) (sym q) (e, (a, b, c, d, g, ho))
with_rf-Sound s sys cmd rsp i (some k) (e, v) hi ho nfc q =
    let (a, b, c, d, g, h) = v in
    >>=-Keeps (Rf.rf_transition nfc Rf.w4_host_select_bit w4_host_select) _ _ (Sound s)
      (rf_transition-Valid (length sys.res) s nfc Rf.w4_host_select_bit w4_host_select (inl refl) (
        subst (λ m. (m.state ≡ s) × DeviceIsValid (length sys.res) m) (sym q)
          (e, (a, b, c, d, g, ho))))
      λ nfc' (e', v'). let (a', b', c', d', g', h') = v' in (e', (a', b', c', d', hi, h'))

select_endpoint-Sound :
    (s : FsmState) (sys : System) (cmd rsp : Buf) (i : ℕ) (re : Re)
    → ValidIn s sys
    → i < length sys.res
    → Keeps (Rf.select_endpoint sys cmd rsp i re) (Sound s)
unfolding Rf.select_endpoint Common.status_reply
select_endpoint-Sound s sys cmd rsp i re v hi =
    if-Keeps (not (cmd 4 == protocol_code re.rfproto)) _ _ (Sound s) v (
      >>=-Keeps (find_rf_by_protocol_and_mode sys.nfc re.rfproto re.mode) _ _ (Sound s)
        (found_rf-InTable sys.nfc re)
        (λ o ho. with_rf-Sound s sys cmd rsp i o v hi ho (record (sys.nfc) { active_rf = o }) refl))

pub rf_discover_select-Sound :
    (s : FsmState) (sys : System) (cmd rsp : Buf)
    → ValidIn s sys
    → Keeps (Rf.rf_discover_select sys cmd rsp) (Sound s)
unfolding Rf.rf_discover_select Common.status_reply
rf_discover_select-Sound s sys cmd rsp v =
    if-Keeps (cmd 3 == 0 || cmd 3 == 255) _ _ (Sound s) v
      (>>=-Keeps (get_re_by_id sys.res (cmd 3)) _ _ (Sound s) (found_re-InTable sys.res (cmd 3)) at)
  where
    found :
        (i : ℕ) (o : Option Re)
        → i < length sys.res
        → Keeps
            (elim o [ none ↦ fault assertion | some re ↦ Rf.select_endpoint sys cmd rsp i re ])
            (Sound s)
    found i none h = tt
    found i (some re) h = select_endpoint-Sound s sys cmd rsp i re v h

    at :
        (o : Option ℕ)
        → InTable (length sys.res) o
        → Keeps
            (elim o [
              | none ↦ ok (Common.status_reply sys cmd rsp status_rejected)
              | some i ↦ elim (get_elem? sys.res i) [
                | none ↦ fault assertion
                | some re ↦ Rf.select_endpoint sys cmd rsp i re
              ]
            ])
            (Sound s)
    at none h = v
    at (some i) h = found i (get_elem? sys.res i) h

pub rf_deactivate-Sound :
    (s : FsmState) (sys : System) (cmd rsp : Buf)
    → ValidIn s sys
    → Keeps (Rf.rf_deactivate sys cmd rsp) (Sound s)
unfolding Rf.rf_deactivate Common.status_reply
rf_deactivate-Sound s sys cmd rsp v =
    >>=-Keeps (Rf.deactivation (cmd 3) sys.nfc.rf_state) _ _ (Sound s)
      (deactivation-Proper (cmd 3) sys.nfc.rf_state)
      λ d p.
        >>=-Keeps (Rf.rf_transition sys.nfc d.0 d.1) _ _ (Sound s)
          (rf_transition-Valid (length sys.res) s sys.nfc d.0 d.1 p v)
          λ nfc (e, v'). let (a, b, c, d', g, h) = v' in (e, (a, b, c, d', tt, tt))
