-- ===== src/Re/Data.antt =====
-- `nfc_re_process_data` of src/nfc-re.c: a data packet of the host goes to the protocol of the
-- endpoint.
pub mod Answer
pub mod Peer
pub mod Put
use e2f77dee9c9d8e2bfbcafc.Base.{
  ℕ, ◌+◌, Option, none, some, List, get_elem?, ◌==◌, if◌then◌else◌, Result, ok, fault, assertion,
  indeterminate, deref, within, ◌>>=◌,
}
use e2f77dee9c9d8e2bfbcafc.Memory.{Buf}
use e2f77dee9c9d8e2bfbcafc.Packet.{pkt_connid, pkt_len, create_nci_dta}
use e2f77dee9c9d8e2bfbcafc.Rf.{RfProtocol}
use e2f77dee9c9d8e2bfbcafc.Tag.{Tag, Response}
use e2f77dee9c9d8e2bfbcafc.Tag.T12.{process_t1t, process_t2t}
use e2f77dee9c9d8e2bfbcafc.Tag.T3.{process_t3t}
use e2f77dee9c9d8e2bfbcafc.Tag.T4.{FileSelect, process_t4t}
use e2f77dee9c9d8e2bfbcafc.Re.{Re, Event, Host, re_write_sbuf}
use e2f77dee9c9d8e2bfbcafc.Re.Link.{process_llcp, size_sub}

-- The state that handling data may change, and the answer.
pub record Processed : Type 0 where
  pub re : Re
  pub file_sel : FileSelect
  pub events : List Event
  pub rsp : Buf
  pub len : ℕ

-- What a protocol leaves, before the common end of the function.
record Raw : Type 0 where
  re : Re
  file_sel : FileSelect
  events : List Event
  rsp : Buf
  consumed : Option ℕ
  len : ℕ

tag_mem : List Tag → Re → Result (List ℕ)
tag_mem tags re = do i ← deref re.tag; t ← within (get_elem? tags i); ok t.mem

from_tag : Re → FileSelect → List Event → Response → Raw
from_tag re sel events r = record {
  re = re;
  file_sel = sel;
  events = events;
  rsp = r.rsp;
  consumed = r.consumed;
  len = r.len;
}

-- The `switch` over the endpoint's protocol. The payload of a packet stands at offset 3.
dispatch : RfProtocol → Host → List Tag → FileSelect → Re → List Event → Buf → Buf → Result Raw
unfolding tag_mem from_tag
dispatch RfProtocol.nfc_dep host tags sel re events dta rsp = do
  (h, events') ← process_llcp host re events dta 3 (pkt_len dta) rsp 3
  ok record {
    re = h.re;
    file_sel = sel;
    events = events';
    rsp = h.rsp;
    consumed = some (h.consumed);
    len = h.len;
  }
dispatch RfProtocol.t1t host tags sel re events dta rsp = do
  mem ← tag_mem tags re
  r ← process_t1t mem dta 3 rsp 3
  ok (from_tag re sel events r)
dispatch RfProtocol.t2t host tags sel re events dta rsp = do
  mem ← tag_mem tags re
  r ← process_t2t mem dta 3 rsp 3
  ok (from_tag re sel events r)
dispatch RfProtocol.t3t host tags sel re events dta rsp = do
  mem ← tag_mem tags re
  r ← process_t3t mem dta 3 (pkt_len dta) rsp 3
  ok (from_tag re sel events r)
dispatch RfProtocol.iso_dep host tags sel re events dta rsp = do
  mem ← tag_mem tags re
  (sel', r) ← process_t4t sel mem dta 3 rsp 3
  ok (from_tag re sel' events r)
dispatch RfProtocol.undetermined host tags sel re events dta rsp = fault assertion

-- An offset that no handler set is read all the same.
offset_of : Option ℕ → Result ℕ
offset_of none = fault indeterminate
offset_of (some off) = ok off

unfoldable pub process_data :
    Host → List Tag → FileSelect → Re → List Event → Buf → Buf → Result Processed
unfolding dispatch offset_of re_write_sbuf create_nci_dta
process_data host tags sel re events dta rsp = do
  raw ← dispatch re.rfproto host tags sel (record re { connid = pkt_connid dta }) events dta rsp
  let re' = raw.re
  let (packet, size) = create_nci_dta (raw.rsp) (re'.connid) (raw.len)
  off ← offset_of raw.consumed
  let (re'', _) = re_write_sbuf re' (size_sub (pkt_len dta) off) dta (3 + off)
  ok record {
    re = re'';
    file_sel = raw.file_sel;
    events = raw.events;
    rsp = if raw.len == 0 then raw.rsp else packet;
    len = if raw.len == 0 then 0 else size;
  }
