-- ===== src/System.antt =====
-- The whole state that the NCI functions work on: the device, the table of remote endpoints
-- (`nfc_res`), the tags, the file that is selected on the type-4 tag, and the calls made into the
-- host, newest first.
use e2f77dee9c9d8e2bfbcafc.Base.{ℕ, Option, none, List, [], get_elem?, Result, fault, assertion, ok}
use e2f77dee9c9d8e2bfbcafc.Memory.{Buf}
use e2f77dee9c9d8e2bfbcafc.Device.{Device, device_init}
use e2f77dee9c9d8e2bfbcafc.Tag.{Tag, nfc_tags}
use e2f77dee9c9d8e2bfbcafc.Tag.T4.{FileSelect}
use e2f77dee9c9d8e2bfbcafc.Re.{Re, Event, nfc_res}

pub record System : Type 0 where
  pub nfc : Device
  pub res : List Re
  pub tags : List Tag
  pub file_sel : FileSelect
  pub events : List Event

unfoldable pub boot : System
unfolding device_init nfc_res nfc_tags
boot = record {
  nfc = device_init;
  res = nfc_res;
  tags = nfc_tags;
  file_sel = FileSelect.none;
  events = [];
}

-- The endpoint behind an index, where the code asserts that the pointer is not null.
abbrev pub endpoint : List Re → Option ℕ → Result Re
endpoint res Option.none = fault assertion
endpoint res (Option.some i) = elim (get_elem? res i) [
  | Option.none ↦ fault assertion
  | Option.some re ↦ ok re
]

-- What `nfc_delivery_cb_setup` stores: a notification to be built later.
pub data Delivery : Type 0 where
  deactivate : ℕ → ℕ → Delivery
  t3t_polling : Option ℕ → Delivery

-- The outcome of handling a message: the state, the response buffer, the response's length, and the
-- delivery callback if one was set up.
pub record Reply : Type 0 where
  pub sys : System
  pub rsp : Buf
  pub len : ℕ
  pub cb : Option Delivery

abbrev pub plain : System → Buf × ℕ → Reply
plain sys (rsp, len) = record { sys = sys; rsp = rsp; len = len; cb = none }
