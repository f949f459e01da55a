-- ===== src/Nci/Discovery.antt =====
-- The notifications and the data packets of the controller, next to the commands: what they do to
-- the invariant, and the states that a run can reach.
use e2f77dee9c9d8e2bfbcafc.Base.{
  ℕ, ◌≡◌, ◌<◌, inl, refl, sym, subst, arith, ltb, Option, none, some, List, length, get_elem?, set,
  length-set, ◌==◌, Result, ok, fault, assertion, deref, within, assert, ◌>>=◌, Keeps, >>=-Keeps,
  >>=-Keeps_any, if-Keeps, if_both,
}
use e2f77dee9c9d8e2bfbcafc.Memory.{Buf}
use e2f77dee9c9d8e2bfbcafc.Rf.{Rfst, TechMode}
use e2f77dee9c9d8e2bfbcafc.Device.{FsmState, Device, device_incr_id}
use e2f77dee9c9d8e2bfbcafc.Re.{Re, Host}
use e2f77dee9c9d8e2bfbcafc.Re.Data.{Processed, process_data}
use e2f77dee9c9d8e2bfbcafc.System.{System, endpoint}
use e2f77dee9c9d8e2bfbcafc.Nci.Rf
use e2f77dee9c9d8e2bfbcafc.Nci.Tables.{process_nci_dta, put_back}
use e2f77dee9c9d8e2bfbcafc.Nci.Notify.{
  discovery_step, create_rf_discovery_ntf, activation_step, activate_re,
  create_rf_intf_activated_ntf, create_dta, identified,
}
use e2f77dee9c9d8e2bfbcafc.Nci.Machine.{
  InTable, DeviceIsValid, ValidIn, IsValid, Proper, rf_transition-Valid,
}

discovery_step-Proper :
    (rfst : Rfst) (type : ℕ) → Keeps (discovery_step rfst type) (λ d. Proper d.1 d.2)
unfolding discovery_step Rf.is_rfst
discovery_step-Proper Rfst.idle type = ground arith
discovery_step-Proper Rfst.discovery type = ground arith
discovery_step-Proper Rfst.w4_all_discoveries type = ground arith
discovery_step-Proper Rfst.w4_host_select type = ground arith
discovery_step-Proper Rfst.poll_active type = ground arith
discovery_step-Proper Rfst.listen_active type = ground arith
discovery_step-Proper Rfst.listen_sleep type = ground arith
discovery_step-Proper Rfst.number_of_rfsts type = ground arith

-- The device with the next id.
abbrev next : Device → Device
next nfc = (device_incr_id nfc).0

next-Valid :
    (n : ℕ) (s : FsmState) (nfc : Device)
    → (nfc.state ≡ s) × DeviceIsValid n nfc
    → ((next nfc).state ≡ s) × DeviceIsValid n (next nfc)
unfolding device_incr_id
next-Valid n s nfc (e, v) = let (a, b, c, d, g, h) = v in (e, (a, b, c, omega arith, g, h))

set-Valid :
    (sys : System) (nfc : Device) (i : ℕ) (re : Re)
    → DeviceIsValid (length sys.res) nfc
    → DeviceIsValid (length (set sys.res i re)) nfc
set-Valid sys nfc i re v = subst (λ n. DeviceIsValid n nfc) (sym (length-set sys.res i re)) v

-- A discovery notification keeps the invariant and the state of the device.
pub create_rf_discovery_ntf-Valid :
    (sys : System) (i type : ℕ) (ntf : Buf)
    → IsValid sys
    → Keeps (create_rf_discovery_ntf sys i type ntf) (λ r. ValidIn sys.nfc.state r.0)
unfolding create_rf_discovery_ntf
create_rf_discovery_ntf-Valid sys i type ntf v =
    >>=-Keeps_any (within (get_elem? sys.res i)) _ _ λ re.
      >>=-Keeps_any (assert (ltb type 3)) _ _ λ _.
        if-Keeps (re.id == 0) _ _ _
          (>>=-Keeps_any (within (get_elem? (next sys.nfc).rf 0)) _ _ λ rf₀.
            >>=-Keeps (discovery_step (next sys.nfc).rf_state type) _ _ _
              (discovery_step-Proper (next sys.nfc).rf_state type)
              λ d p.
                >>=-Keeps (Rf.rf_transition (next sys.nfc) d.1 d.2) _ _ _
                  (rf_transition-Valid (length sys.res) sys.nfc.state (next sys.nfc) d.1 d.2 p
                    (next-Valid (length sys.res) sys.nfc.state sys.nfc (refl, v)))
                  λ nfc' (e, v'). (e, set-Valid sys nfc' i _ v'))
          (refl, v)

activation_step-Proper :
    (mode : TechMode) → Proper (activation_step mode).0 (activation_step mode).1
unfolding activation_step Rf.is_rfst
activation_step-Proper TechMode.a_passive_poll = inl refl
activation_step-Proper TechMode.b_passive_poll = inl refl
activation_step-Proper TechMode.f_passive_poll = inl refl
activation_step-Proper TechMode.a_passive_listen = inl refl
activation_step-Proper TechMode.b_passive_listen = inl refl
activation_step-Proper TechMode.f_passive_listen = inl refl

activate_re-InTable : (n : ℕ) (o : Option ℕ) (i : ℕ) → i < n → Keeps (activate_re o i) (InTable n)
unfolding activate_re
activate_re-InTable n none i h = h
activate_re-InTable n (some j) i h = ground arith

identified-Valid :
    (n : ℕ) (s : FsmState) (nfc : Device) (re : Re)
    → (nfc.state ≡ s) × DeviceIsValid n nfc
    → ((identified nfc re).0.state ≡ s) × DeviceIsValid n (identified nfc re).0
identified-Valid n s nfc re v =
    if_both {A = Device × Re} (re.id == 0) _ _ (λ p. (p.0.state ≡ s) × DeviceIsValid n p.0)
      (next-Valid n s nfc v) v

active_rf-Keeps :
    {A : Type 0} (o : Option ℕ) (f : ℕ → Result A) (P : A → Type 0)
    → ((k : ℕ) → Keeps (f k) P)
    → Keeps ((elim o [ none ↦ fault assertion | some k ↦ ok k ]) >>= f) P
active_rf-Keeps none f P h = tt
active_rf-Keeps (some k) f P h = h k

-- So does the notification of an activated interface, for an endpoint of the table.
pub create_rf_intf_activated_ntf-Valid :
    (sys : System) (i : ℕ) (ntf : Buf)
    → IsValid sys
    → i < length sys.res
    → Keeps (create_rf_intf_activated_ntf sys i ntf) (λ r. ValidIn sys.nfc.state r.0)
unfolding create_rf_intf_activated_ntf
create_rf_intf_activated_ntf-Valid sys i ntf v hi =
    >>=-Keeps_any (within (get_elem? sys.res i)) _ _ λ re₀.
      active_rf-Keeps sys.nfc.active_rf _ _ λ k.
        >>=-Keeps_any (within (get_elem? sys.nfc.rf k)) _ _ λ rf.
          let (nfc, re) = identified sys.nfc re₀ in
          >>=-Keeps (Rf.rf_transition nfc (activation_step rf.mode).0 (activation_step rf.mode).1) _
            _ _
            (rf_transition-Valid (length sys.res) sys.nfc.state nfc _ _
              (activation_step-Proper rf.mode)
              (identified-Valid (length sys.res) sys.nfc.state sys.nfc re₀ (refl, v)))
            λ nfc' (e, v').
              >>=-Keeps (activate_re nfc'.active_re i) _ (InTable (length sys.res)) _
                (activate_re-InTable (length sys.res) nfc'.active_re i hi)
                λ o ho.
                  let (a, b, c, d, g, h) = v' in
                  (e, set-Valid sys (record nfc' { active_re = o }) i re (a, b, c, d, ho, h))

-- Handling a data packet of the host.
pub process_nci_dta-Valid :
    (host : Host) (sys : System) (dta rsp : Buf)
    → IsValid sys
    → Keeps (process_nci_dta host sys dta rsp) (λ r. ValidIn sys.nfc.state r.sys)
unfolding process_nci_dta
process_nci_dta-Valid host sys dta rsp v =
    >>=-Keeps (Rf.rf_transition sys.nfc 0x30 sys.nfc.rf_state) _ _ _
      (rf_transition-Valid (length sys.res) sys.nfc.state sys.nfc 0x30 sys.nfc.rf_state (inl v.0)
        (refl, v))
      λ nfc (e, v'). >>=-Keeps_any (endpoint sys.res nfc.active_re) _ _ λ re.
        >>=-Keeps_any (process_data host sys.tags sys.file_sel re sys.events dta rsp) _ _
          λ p. (e, put nfc nfc.active_re p v')
  where
    put :
        (nfc : Device) (o : Option ℕ) (p : Processed)
        → DeviceIsValid (length sys.res) nfc
        → DeviceIsValid (length (put_back sys.res o p.re)) nfc
    put nfc none p w = w
    put nfc (some i) p w = set-Valid sys nfc i p.re w

-- Sending a data packet to the host.
pub create_dta-Valid :
    (sys : System) (bytes : List ℕ) (nci : Buf)
    → IsValid sys
    → Keeps (create_dta sys bytes nci) (λ r. ValidIn sys.nfc.state r.0)
unfolding create_dta
create_dta-Valid sys bytes nci v =
    >>=-Keeps (Rf.rf_transition sys.nfc 0x30 sys.nfc.rf_state) _ _ _
      (rf_transition-Valid (length sys.res) sys.nfc.state sys.nfc 0x30 sys.nfc.rf_state (inl v.0)
        (refl, v))
      λ nfc (e, v').
        >>=-Keeps_any (deref nfc.active_re) _ _
          λ i. >>=-Keeps_any (within (get_elem? sys.res i)) _ _ λ re. (e, set-Valid sys nfc i _ v')
