-- ===== src/Nci/Sequence.antt =====
-- What is left of a discovery after the host has deactivated the RF interface.
use e2f77dee9c9d8e2bfbcafc.Base.{
  ℕ, ◌+◌, ◌<◌, ◌≡◌, ◌≢◌, refl, arith, true, none, List, [], ◌∷◌, map, All, ok, Returns,
}
use e2f77dee9c9d8e2bfbcafc.Memory.{Buf}
use e2f77dee9c9d8e2bfbcafc.Packet.{status_ok, status_rejected}
use e2f77dee9c9d8e2bfbcafc.Rf.{Rfst, rfst_bit, state_transition}
use e2f77dee9c9d8e2bfbcafc.Device.{Device}
use e2f77dee9c9d8e2bfbcafc.Re.{Re, find_re, get_re_by_id}
use e2f77dee9c9d8e2bfbcafc.System.{System}
use e2f77dee9c9d8e2bfbcafc.Nci.Common
use e2f77dee9c9d8e2bfbcafc.Nci.Rf

-- No endpoint has an id.
abbrev pub Unnamed : List Re → Type 0
Unnamed res = All (λ re. re.id ≡ 0) res

map-Unnamed : (res : List Re) → Unnamed (map Rf.forget_id res)
map-Unnamed [] = tt
map-Unnamed (re ∷ res) = (refl, map-Unnamed res)

find_re-Unnamed : (res : List Re) (i id : ℕ) → Unnamed res → id ≢ 0 → find_re res i id ≡ none
unfolding find_re
find_re-Unnamed [] i id h n = refl
find_re-Unnamed (re ∷ res) i id h n = ground (arith, find_re-Unnamed res (i + 1) id h.1 n, h.0)

step_to_idle :
    (s : Rfst)
    → s ≢ Rfst.idle
    → Rf.is_rfst s ≡ true
    → state_transition s 0x7e Rfst.idle ≡ (Rfst.idle, s)
unfolding state_transition rfst_bit Rf.is_rfst
step_to_idle Rfst.idle n v = absurd (n refl)
step_to_idle Rfst.discovery n v = refl
step_to_idle Rfst.w4_all_discoveries n v = refl
step_to_idle Rfst.w4_host_select n v = refl
step_to_idle Rfst.poll_active n v = refl
step_to_idle Rfst.listen_active n v = refl
step_to_idle Rfst.listen_sleep n v = refl
step_to_idle Rfst.number_of_rfsts n v = absurd (cc (v))

to_idle :
    (nfc : Device)
    → nfc.rf_state ≢ Rfst.idle
    → Rf.is_rfst nfc.rf_state ≡ true
    → Rf.rf_transition nfc 0x7e Rfst.idle ≡ ok (record nfc { rf_state = Rfst.idle })
unfolding Rf.rf_transition
to_idle nfc n v = rw (step_to_idle nfc.rf_state n v, v) refl

-- Deactivation to the idle mode is possible in every RF state but idle. Then the RF state is idle,
-- no endpoint and no RF entry is active, no endpoint has an id, and the answer is STATUS_OK.
pub rf_deactivate_to_idle :
    (sys : System) (cmd rsp : Buf)
    → cmd 3 ≡ 0
    → sys.nfc.rf_state ≢ Rfst.idle
    → Rf.is_rfst sys.nfc.rf_state ≡ true
    → Returns (Rf.rf_deactivate sys cmd rsp) λ r.
      (r.sys.nfc.rf_state ≡ Rfst.idle)
      × (r.sys.nfc.active_re ≡ none)
      × (r.sys.nfc.active_rf ≡ none)
      × Unnamed r.sys.res
      × (r.rsp 3 ≡ status_ok)
unfolding Rf.rf_deactivate Rf.deactivation Common.status_reply
rf_deactivate_to_idle sys cmd rsp h n v =
    rw (h, to_idle sys.nfc n v) (refl, refl, refl, map-Unnamed sys.res, ground arith)

-- As long as no endpoint has an id, the host cannot select one: whatever id it names, the answer is
-- STATUS_REJECTED and the state stays as it is. So it is after a deactivation.
pub rf_discover_select-Unnamed :
    (sys : System) (cmd rsp : Buf)
    → Unnamed sys.res
    → cmd 3 < 256
    → Returns
        (Rf.rf_discover_select sys cmd rsp)
        λ r. (r.sys ≡ sys) × (r.rsp 3 ≡ status_rejected) × (r.len ≡ 4)
unfolding Rf.rf_discover_select get_re_by_id Common.status_reply
rf_discover_select-Unnamed sys cmd rsp h b = ground (arith, find_re-Unnamed sys.res 0 (cmd 3) h)
