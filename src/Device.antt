-- ===== src/Device.antt =====
-- `struct nfc_device` and its operations: src/nfc.c, src/nfc.h.
-- A pointer into `rf` or into the table of remote endpoints is an index, and NULL is `none`.
pub mod Config
pub mod Ids
pub mod Find
use e2f77dee9c9d8e2bfbcafc.Base.{
  ℕ, ◌+◌, ◌%◌, Bool, true, false, ◌&&◌, Option, none, some, List, [], ◌∷◌, length, splice, slice,
  replicate, ltb, if◌then◌else◌, Result, ok, fault, assertion, ◌>>=◌, ◌>>◌, assert,
}
use e2f77dee9c9d8e2bfbcafc.Rf.{
  Rf, Rfst, RfInterface, RfProtocol, TechMode, rf_init, t1t, t2t, t3t, frame, a_passive_poll,
  b_passive_poll, f_passive_poll, a_passive_listen, b_passive_listen, f_passive_listen,
}

-- `enum nfc_fsm_state`
pub data FsmState : Type 0 where
  idle reset initialized : FsmState

pub record Device : Type 0 where
  pub state : FsmState
  pub rf_state : Rfst
  pub rf : List Rf
  pub id : ℕ
  pub active_re : Option ℕ
  pub active_rf : Option ℕ
  pub config_id_value : List ℕ

abbrev pub config_size : ℕ
config_size = 128

-- The eight entries that `nfc_device_init` fills in.
abbrev pub rf_table : List Rf
unfolding rf_init
rf_table =
    rf_init RfInterface.nfc_dep a_passive_poll
    ∷ rf_init RfInterface.nfc_dep f_passive_poll
    ∷ rf_init frame a_passive_poll
    ∷ rf_init frame b_passive_poll
    ∷ rf_init frame f_passive_poll
    ∷ rf_init RfInterface.iso_dep a_passive_poll
    ∷ rf_init RfInterface.iso_dep b_passive_poll
    ∷ rf_init RfInterface.iso_dep f_passive_poll
    ∷ []

unfoldable pub device_init : Device
unfolding rf_init
device_init = record {
  state = FsmState.idle;
  rf_state = Rfst.idle;
  rf = rf_table;
  id = 0;
  active_re = none;
  active_rf = none;
  config_id_value = replicate config_size 0;
}

-- `len` is the number of bytes behind `value`.
unfoldable pub device_set : Device → ℕ → List ℕ → Result Device
device_set nfc off value = do
  assert (ltb (off + length value) config_size)
  ok (record nfc { config_id_value = splice nfc.config_id_value off value })

unfoldable pub device_get : Device → ℕ → ℕ → Result (List ℕ)
device_get nfc off len = do
  assert (ltb (off + len) config_size)
  ok (slice nfc.config_id_value off len)

-- Returns the device and the new id; `id` is a `uint8_t`, and 254 + 1 does not wrap.
unfoldable pub device_incr_id : Device → Device × ℕ
device_incr_id nfc = let id = nfc.id % 254 + 1 in (record nfc { id = id }, id)

-- The two `switch` statements of `nfc_find_rf_by_protocol_and_mode`.
unfoldable pub protocol_interface : RfProtocol → Result RfInterface
protocol_interface t1t = ok frame
protocol_interface t2t = ok frame
protocol_interface t3t = ok frame
protocol_interface RfProtocol.iso_dep = ok RfInterface.iso_dep
protocol_interface RfProtocol.nfc_dep = ok RfInterface.nfc_dep
protocol_interface RfProtocol.undetermined = fault assertion

unfoldable pub poll_mode : TechMode → TechMode
poll_mode a_passive_poll = a_passive_poll
poll_mode a_passive_listen = a_passive_poll
poll_mode b_passive_poll = b_passive_poll
poll_mode b_passive_listen = b_passive_poll
poll_mode f_passive_poll = f_passive_poll
poll_mode f_passive_listen = f_passive_poll

-- `==` on the two enumerations.
unfoldable pub iface_eq : RfInterface → RfInterface → Bool
iface_eq RfInterface.nfcee RfInterface.nfcee = true
iface_eq RfInterface.frame RfInterface.frame = true
iface_eq RfInterface.iso_dep RfInterface.iso_dep = true
iface_eq RfInterface.nfc_dep RfInterface.nfc_dep = true
iface_eq _ _ = false

unfoldable pub mode_eq : TechMode → TechMode → Bool
mode_eq a_passive_poll a_passive_poll = true
mode_eq b_passive_poll b_passive_poll = true
mode_eq f_passive_poll f_passive_poll = true
mode_eq a_passive_listen a_passive_listen = true
mode_eq b_passive_listen b_passive_listen = true
mode_eq f_passive_listen f_passive_listen = true
mode_eq _ _ = false

-- The search loop, from index `i` on.
unfoldable pub find_rf : List Rf → ℕ → RfInterface → TechMode → Option ℕ
unfolding iface_eq mode_eq
find_rf [] i iface mode = none
find_rf (r ∷ rs) i iface mode =
    let rest = find_rf rs (i + 1) iface mode in
    if iface_eq r.iface iface && mode_eq r.mode mode then some i else rest

unfoldable pub find_rf_by_protocol_and_mode : Device → RfProtocol → TechMode → Result (Option ℕ)
unfolding protocol_interface poll_mode find_rf
find_rf_by_protocol_and_mode nfc proto mode = do
  rf_iface ← protocol_interface proto
  ok (find_rf nfc.rf 0 rf_iface (poll_mode mode))
