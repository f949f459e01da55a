-- ===== src/Nci/Rf.antt =====
-- The RF management commands of the initialised device: src/nfc-nci.c.
use e2f77dee9c9d8e2bfbcafc.Base.{
  ℕ, Bool, true, false, ◌||◌, not, none, some, map, get_elem?, ◌==◌, if◌then◌else◌, Result, ok,
  fault, assertion, ◌>>=◌, ◌>>◌, assert,
}
use e2f77dee9c9d8e2bfbcafc.Memory.{Buf}
use e2f77dee9c9d8e2bfbcafc.Packet.{status_ok, status_rejected}
use e2f77dee9c9d8e2bfbcafc.Rf.{
  Rfst, protocol_code, state_transition, number_of_rfsts, idle, discovery, w4_all_discoveries,
  w4_host_select, poll_active, listen_active, listen_sleep,
}
use e2f77dee9c9d8e2bfbcafc.Device.{Device, find_rf_by_protocol_and_mode}
use e2f77dee9c9d8e2bfbcafc.Re.{Re, get_re_by_id}
use e2f77dee9c9d8e2bfbcafc.System.{System, Reply, deactivate, t3t_polling}
use e2f77dee9c9d8e2bfbcafc.Nci.Common.{status_reply}

-- `rfst != NUMBER_OF_NFC_RFSTS`
unfoldable pub is_rfst : Rfst → Bool
is_rfst number_of_rfsts = false
is_rfst _ = true

-- `nfc_rf_state_transition(&nfc->rf_state, bits, state)` and the assertion on its result.
unfoldable pub rf_transition : Device → ℕ → Rfst → Result Device
unfolding state_transition is_rfst
rf_transition nfc bits state = do
  let (rf_state, rfst) = state_transition (nfc.rf_state) bits state
  assert (is_rfst rfst)
  ok (record nfc { rf_state = rf_state })

-- The state bits that the callers pass.
abbrev pub idle_bit : ℕ
idle_bit = 0x01

abbrev pub discovery_bit : ℕ
discovery_bit = 0x02

abbrev pub w4_all_discoveries_bit : ℕ
w4_all_discoveries_bit = 0x04

abbrev pub w4_host_select_bit : ℕ
w4_host_select_bit = 0x08

abbrev pub poll_active_bit : ℕ
poll_active_bit = 0x10

abbrev pub listen_active_bit : ℕ
listen_active_bit = 0x20

abbrev pub listen_sleep_bit : ℕ
listen_sleep_bit = 0x40

unfoldable pub rf_discover : System → Buf → Buf → Result Reply
rf_discover sys cmd rsp = do
  nfc ← rf_transition (sys.nfc) idle_bit discovery
  ok (status_reply (record sys { nfc = nfc }) cmd rsp status_ok)

-- The endpoint's part of the select command, after its id was found at index `i`.
unfoldable pub select_endpoint : System → Buf → Buf → ℕ → Re → Result Reply
unfolding protocol_code
select_endpoint sys cmd rsp i re =
    if not (cmd 4 == protocol_code re.rfproto)
    then ok (status_reply sys cmd rsp status_rejected)
    else (do
      active_rf ← find_rf_by_protocol_and_mode (sys.nfc) re.rfproto re.mode
      let nfc = record (sys.nfc) { active_rf = active_rf }
      elim active_rf [
        | none ↦ ok (status_reply (record sys { nfc = nfc }) cmd rsp status_rejected)
        | some _ ↦ do
          nfc' ← rf_transition nfc w4_host_select_bit w4_host_select
          let nfc'' = record nfc' { active_re = some i }
          ok (status_reply (record sys { nfc = nfc'' }) cmd rsp status_ok)
      ])

unfoldable pub rf_discover_select : System → Buf → Buf → Result Reply
unfolding select_endpoint
rf_discover_select sys cmd rsp =
    if cmd 3 == 0 || cmd 3 == 255 then ok (status_reply sys cmd rsp status_rejected) else (do
      found ← get_re_by_id sys.res (cmd 3)
      elim found [
        | none ↦ ok (status_reply sys cmd rsp status_rejected)
        | some i ↦ elim (get_elem? sys.res i) [
          | none ↦ fault assertion
          | some re ↦ select_endpoint sys cmd rsp i re
        ]
      ])

-- The first `switch` of the deactivate command: the allowed states and the new one.
unfoldable pub deactivation : ℕ → Rfst → Result (ℕ × Rfst)
deactivation type rf_state =
    if type == 0x00
    then ok (0x7e, idle)
    else (if type == 0x01 || type == 0x02
        then elim rf_state [
          | poll_active ↦ ok (0x30, w4_host_select)
          | listen_active ↦ ok (0x30, listen_sleep)
          | _ ↦ fault assertion
        ]
        else (if type == 0x03 then ok (0x30, discovery) else ok (0, number_of_rfsts)))

-- The second one: whether a notification is to be sent.
unfoldable pub sends_ntf : ℕ → Rfst → Bool
sends_ntf type discovery = not (type == 0x00)
sends_ntf type w4_all_discoveries = not (type == 0x00)
sends_ntf type w4_host_select = not (type == 0x00)
sends_ntf type listen_sleep = not (type == 0x00)
sends_ntf type _ = true

abbrev pub forget_id : Re → Re
forget_id re = record re { id = 0 }

unfoldable pub rf_deactivate : System → Buf → Buf → Result Reply
unfolding deactivation sends_ntf
rf_deactivate sys cmd rsp = do
  let type = cmd 3
  (bits, rfst) ← deactivation type (sys.nfc.rf_state)
  let send_ntf = sends_ntf type (sys.nfc.rf_state)
  nfc ← rf_transition (sys.nfc) bits rfst
  let nfc' = record nfc { active_re = none; active_rf = none }
  let sys' = record sys { nfc = nfc'; res = map forget_id sys.res }
  let reply = status_reply sys' cmd rsp status_ok
  ok (record reply { cb = if send_ntf then some (deactivate type 0x00) else none })

unfoldable pub rf_t3t_polling : System → Buf → Buf → Reply
rf_t3t_polling sys cmd rsp =
    let reply = status_reply sys cmd rsp status_ok in
    record reply { cb = some (t3t_polling (sys.nfc.active_re)) }
