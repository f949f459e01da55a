-- ===== src/Nci/Notify.antt =====
-- The notifications and the unasked data packets of src/nfc-nci.c.
use e2f77dee9c9d8e2bfbcafc.Base.{
  ℕ, ◌+◌, ◌%◌, ltb, ◌==◌, if◌then◌else◌, Option, none, some, List, [], ◌∷◌, ◌++◌, get_elem?, set,
  Result, ok, fault, assertion, null, deref, within, ◌>>=◌, ◌>>◌, assert,
}
use e2f77dee9c9d8e2bfbcafc.Memory.{Buf, write, poke}
use e2f77dee9c9d8e2bfbcafc.Packet.{create_nci_ntf, create_nci_dta, gid_rf}
use e2f77dee9c9d8e2bfbcafc.Rf.{
  Rfst, TechMode, mode_code, interface_code, protocol_code, discovery, w4_all_discoveries,
  w4_host_select, poll_active, listen_active, a_passive_poll, b_passive_poll, f_passive_poll,
  a_passive_listen, b_passive_listen, f_passive_listen,
}
use e2f77dee9c9d8e2bfbcafc.Device.{Device, device_incr_id}
use e2f77dee9c9d8e2bfbcafc.Re.{Re}
use e2f77dee9c9d8e2bfbcafc.Re.Activation.{
  create_rf_intf_activated_ntf_tech, create_rf_intf_activated_ntf_act, create_dta_act,
}
use e2f77dee9c9d8e2bfbcafc.System.{System, Delivery, deactivate, t3t_polling}
use e2f77dee9c9d8e2bfbcafc.Nci.Rf.{rf_transition}

-- `NCI_MORE_NOTIFICATIONS`
abbrev pub more_notifications : ℕ
more_notifications = 2

-- The `switch` of the discovery notification: the byte behind the parameters, the allowed states
-- and the new one. Outside discovery no state is allowed.
unfoldable pub discovery_step : Rfst → ℕ → Result (ℕ × ℕ × Rfst)
discovery_step discovery type = do
  assert (type == more_notifications)
  ok (more_notifications, 0x02, w4_all_discoveries)
discovery_step w4_all_discoveries type =
    ok (type, 0x04, (if type == more_notifications then w4_all_discoveries else w4_host_select))
discovery_step rfst type = ok (0, 0, Rfst.idle)

-- The state, the packet and its length for the endpoint at index `i`.
unfoldable pub create_rf_discovery_ntf : System → ℕ → ℕ → Buf → Result (System × Buf × ℕ)
unfolding device_incr_id discovery_step mode_code protocol_code create_nci_ntf
create_rf_discovery_ntf sys i type ntf = do
  re ← within (get_elem? sys.res i)
  assert (ltb type 3)
  let (nfc, id) = device_incr_id (sys.nfc)
  if re.id == 0
      then (do
        rf₀ ← within (get_elem? nfc.rf 0)
        (end, bits, rfst) ← discovery_step (nfc.rf_state) type
        nfc' ← rf_transition nfc bits rfst
        let payload = id ∷ protocol_code re.rfproto ∷ mode_code rf₀.mode ∷ 0 ∷ end ∷ []
        let (packet, len) = create_nci_ntf (write ntf 3 payload) gid_rf 0x03 5
        let res = set sys.res i (record re { id = id })
        ok (record sys { nfc = nfc'; res = res }, packet, len))
      else ok (sys, ntf, 0)

-- The `switch` over the mode of the active RF interface.
unfoldable pub activation_step : TechMode → ℕ × Rfst
activation_step a_passive_poll = (0x0a, poll_active)
activation_step b_passive_poll = (0x0a, poll_active)
activation_step f_passive_poll = (0x0a, poll_active)
activation_step a_passive_listen = (0x42, listen_active)
activation_step b_passive_listen = (0x42, listen_active)
activation_step f_passive_listen = (0x42, listen_active)

-- `if (!nfc->active_re) nfc->active_re = re; assert(nfc->active_re == re);`
unfoldable pub activate_re : Option ℕ → ℕ → Result (Option ℕ)
activate_re none i = ok (some i)
activate_re (some j) i = do assert (j == i); ok (some j)

-- The endpoint's id, handed out if it has none.
abbrev pub identified : Device → Re → Device × Re
identified nfc re =
    let (nfc', id) = device_incr_id nfc in
    if re.id == 0 then (nfc', record re { id = id }) else (nfc, re)

unfoldable pub create_rf_intf_activated_ntf : System → ℕ → Buf → Result (System × Buf × ℕ)
unfolding device_incr_id activation_step activate_re mode_code interface_code protocol_code
    create_nci_ntf
create_rf_intf_activated_ntf sys i ntf = do
  re₀ ← within (get_elem? sys.res i)
  k ← (elim (sys.nfc.active_rf) [ none ↦ fault assertion | some k ↦ ok k ])
  rf ← within (get_elem? (sys.nfc.rf) k)
  let (nfc, re) = identified (sys.nfc) re₀
  let (b₁, nparams) = create_rf_intf_activated_ntf_tech rf.mode re ntf 10
  let (b₂, nact) = create_rf_intf_activated_ntf_act re b₁ (10 + nparams % 256 + 4)
  let head =
      re.id
      ∷ interface_code rf.iface
      ∷ protocol_code re.rfproto
      ∷ mode_code rf.mode
      ∷ 255
      ∷ 0xff
      ∷ nparams
      ∷ []
  let tail = mode_code re.mode ∷ 0x01 ∷ 0x01 ∷ nact ∷ []
  let b₃ = write (write b₂ 3 head) (10 + nparams % 256) tail
  let (bits, rfst) = activation_step rf.mode
  nfc' ← rf_transition nfc bits rfst
  active_re ← activate_re nfc'.active_re i
  let (packet, len) = create_nci_ntf b₃ gid_rf 0x05 (7 + nparams % 256 + 4 + nact % 256)
  ok (
    record sys { nfc = record nfc' { active_re = active_re }; res = set sys.res i re },
    packet,
    len,
  )

unfoldable pub create_deactivate_ntf : ℕ → ℕ → Buf → Buf × ℕ
unfolding create_nci_ntf
create_deactivate_ntf type reason ntf =
    create_nci_ntf (write ntf 3 (type ∷ reason ∷ [])) gid_rf 0x06 2

-- The length is that of the two header bytes alone, without the response behind them.
unfoldable pub create_t3t_polling_ntf : Re → Buf → Buf × ℕ
unfolding create_nci_ntf
create_t3t_polling_ntf re ntf =
    let res = re.nfcid2 ++ (0xff ∷ 0xff ∷ 0 ∷ 0 ∷ 0 ∷ 0x01 ∷ 0x43 ∷ 0 ∷ []) in
    create_nci_ntf (poke (write (write ntf 3 (0x00 ∷ 1 ∷ [])) 6 res) 5 16) gid_rf 0x08 2

unfoldable pub create_rf_field_info_ntf : Buf → Buf × ℕ
unfolding create_nci_ntf
create_rf_field_info_ntf ntf = create_nci_ntf (poke ntf 3 0) gid_rf 0x07 1

-- The delivery callbacks of the deactivate and the polling command.
unfoldable pub deliver : System → Delivery → Buf → Result (Buf × ℕ)
unfolding create_deactivate_ntf create_t3t_polling_ntf
deliver sys (deactivate type reason) ntf = ok (create_deactivate_ntf type reason ntf)
deliver sys (t3t_polling none) ntf = fault null
deliver sys (t3t_polling (some i)) ntf = do
  re ← within (get_elem? sys.res i)
  ok (create_t3t_polling_ntf re ntf)

-- `nfc_create_dta`, for the bytes that `data` points to.
unfoldable pub create_dta : System → List ℕ → Buf → Result (System × Buf × ℕ)
unfolding create_nci_dta create_dta_act
create_dta sys bytes nci = do
  nfc ← rf_transition (sys.nfc) 0x30 (sys.nfc.rf_state)
  i ← deref nfc.active_re
  re ← within (get_elem? sys.res i)
  let (re', b, len) = create_dta_act re bytes nci 3
  let (packet, size) = create_nci_dta b re'.connid len
  ok (record sys { nfc = nfc; res = set sys.res i re' }, packet, size)
