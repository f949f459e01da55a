-- ===== src/Re/Send.antt =====
-- What the console makes an endpoint send: src/nfc-re.c, `send_pdu_from_re` and the functions that
-- use it. A callback that creates a PDU at offset `p` of a buffer is a function of the endpoint, and
-- `none` is its result -1. The host calls what `cb.send_dta` is given once, on a packet of its own,
-- before it returns; `dta` is the memory of that packet. What `malloc` returns for the k-th PDU buffer
-- holds the bytes `fresh k`.
pub mod Steps
use e2f77dee9c9d8e2bfbcafc.Base.{
  ℕ, ◌+◌, ◌-◌, ◌%◌, Bool, true, false, ◌&&◌, Option, none, some, List, [], ◌∷◌, ◌++◌, ltb,
  if◌then◌else◌, Result, ok, fault, bounds, deref, assert, ◌>>=◌, ◌>>◌,
}
use e2f77dee9c9d8e2bfbcafc.Memory.{Buf, read}
use e2f77dee9c9d8e2bfbcafc.Packet
use e2f77dee9c9d8e2bfbcafc.Rf.{RfProtocol}
use e2f77dee9c9d8e2bfbcafc.Llcp.{
  DataLink, LinkStatus, disconnected, connecting, connected, disconnecting, create_pdu,
  create_pdu_i, ptype_connect,
}
use e2f77dee9c9d8e2bfbcafc.Re.{Re, Event, send_dta, del_timeout, set_link}

-- `param->create`, with the endpoint that it may change.
abbrev pub Create : Type 0
Create = Re → Buf → ℕ → Result (Re × Buf × Option ℕ)

-- A `ssize_t` as an `unsigned char`: -1 is 255.
abbrev pub len_byte : Option ℕ → ℕ
len_byte none = 255
len_byte (some n) = n % 256

-- What sending leaves: the endpoint, the events, newest first, and the packet that the host got with
-- its length, if there was one.
pub record Sent : Type 0 where
  pub re : Re
  pub events : List Event
  pub packet : Option (Buf × ℕ)

-- `re->llcp_dl[dsap] + ssap`
unfoldable pub link_at : Re → ℕ → ℕ → Result DataLink
link_at re dsap ssap =
    if ltb dsap 64 && ltb ssap 64 then ok (re.llcp_dl dsap ssap) else fault bounds

-- The helper that wraps a PDU in an NCI packet.
unfoldable pub create_nci_dta : Create → Re → Buf → Result (Re × Buf × ℕ)
unfolding Packet.create_nci_dta
create_nci_dta create re dta = do
  (re', b, len) ← create re dta 3
  let (b', size) = Packet.create_nci_dta b re'.connid (len_byte len)
  ok (re', b', size)

-- `buf->len = create(...)` on a new buffer: the endpoint, and the bytes that the queue then holds.
unfoldable pub create_queued : Create → Re → Buf → Result (Re × List ℕ)
create_queued create re memory = do
  (re', b, len) ← create re memory 0
  ok (re', read b 0 (len_byte len))

unfoldable pub send_pdu_from_re : Create → Re → List Event → Buf → Buf → Result Sent
unfolding create_nci_dta create_queued
send_pdu_from_re create re events dta memory =
    if re.xmit_next
    then (do
      (re', b, size) ← create_nci_dta create re dta
      let sent = send_dta ∷ events
      ok (record {
        re = record re' { xmit_next = false };
        events = elim (re'.xmit_timeout) [ none ↦ sent | some t ↦ del_timeout t ∷ sent ];
        packet = some (b, size);
      }))
    else (do
      (re', pdu) ← create_queued create re memory
      ok (record {
        re = record re' { xmit_q = re'.xmit_q ++ (pdu ∷ []) };
        events = events;
        packet = none;
      }))

unfoldable pub is_disconnected : LinkStatus → Bool
is_disconnected disconnected = true
is_disconnected _ = false

unfoldable pub create_connect_dta : ℕ → ℕ → Create
unfolding link_at is_disconnected create_pdu
create_connect_dta dsap ssap re b p = do
  dl ← link_at re dsap ssap
  assert (is_disconnected dl.status)
  let re' = set_link re dsap ssap (record dl { status = connecting })
  let (b', len) = create_pdu b p dsap ptype_connect ssap
  ok (re', b', some len)

-- Both SAPs are `unsigned char` here.
unfoldable pub re_send_llcp_connect : Re → List Event → ℕ → ℕ → Buf → Buf → Result Sent
unfolding send_pdu_from_re create_connect_dta
re_send_llcp_connect re events dsap ssap dta memory =
    send_pdu_from_re (create_connect_dta dsap ssap) re events dta memory

-- `create_snep` is given the room and the place of the message.
abbrev pub CreateSnep : Type 0
CreateSnep = ℕ → Buf → ℕ → Result (Buf × Option ℕ)

-- `llcp->info` stands two bytes behind the PDU's start.
unfoldable pub create_i_pdu : CreateSnep → ℕ → ℕ → Create
unfolding link_at create_pdu_i
create_i_pdu create_snep dsap ssap re b p = do
  dl ← link_at re dsap ssap
  let (b₁, len) = create_pdu_i b p dsap ssap dl.v_s dl.v_r
  (b₂, res) ← create_snep (200 - len) b₁ (p + 2 + (len - 2))
  ok (elim res [
    | none ↦ (re, b₂, none)
    | some n ↦ (set_link re dsap ssap (record dl { v_s = (dl.v_s + 1) % 16 }), b₂, some (len + n))
  ])

-- The I PDU goes to the end of the link's own queue, through its tail pointer.
unfoldable pub enqueue_i_pdu : CreateSnep → Re → ℕ → ℕ → Buf → Result Re
unfolding create_queued create_i_pdu link_at
enqueue_i_pdu create_snep re dsap ssap memory = do
  (re', pdu) ← create_queued (create_i_pdu create_snep dsap ssap) re memory
  dl ← link_at re' dsap ssap
  q ← deref dl.xmit_q
  ok (set_link re' dsap ssap (record dl { xmit_q = some (q ++ (pdu ∷ [])) }))

-- The branches of `send_snep_over_llcp`, by the status of the link.
unfoldable pub send_snep_by :
    LinkStatus → CreateSnep → Re → List Event → ℕ → ℕ → Buf → (ℕ → Buf) → Result Sent
unfolding enqueue_i_pdu send_pdu_from_re create_connect_dta create_i_pdu
send_snep_by disconnected create_snep re events dsap ssap dta fresh = do
  re' ← enqueue_i_pdu create_snep re dsap ssap (fresh 0)
  send_pdu_from_re (create_connect_dta dsap ssap) re' events dta (fresh 1)
send_snep_by connecting create_snep re events dsap ssap dta fresh = do
  re' ← enqueue_i_pdu create_snep re dsap ssap (fresh 0)
  ok (record { re = re'; events = events; packet = none })
send_snep_by connected create_snep re events dsap ssap dta fresh =
    send_pdu_from_re (create_i_pdu create_snep dsap ssap) re events dta (fresh 0)
send_snep_by disconnecting create_snep re events dsap ssap dta fresh =
    ok (record { re = re; events = events; packet = none })

unfoldable pub send_snep_over_llcp :
    CreateSnep → Re → List Event → ℕ → ℕ → Buf → (ℕ → Buf) → Result Sent
unfolding link_at send_snep_by
send_snep_over_llcp create_snep re events dsap ssap dta fresh = do
  dl ← link_at re dsap ssap
  send_snep_by dl.status create_snep re events dsap ssap dta fresh

unfoldable pub is_nfc_dep : RfProtocol → Bool
is_nfc_dep RfProtocol.nfc_dep = true
is_nfc_dep _ = false

-- `none` is the result -1 for an endpoint of another protocol.
unfoldable pub re_send_snep_put :
    CreateSnep → Re → List Event → ℕ → ℕ → Buf → (ℕ → Buf) → Result (Option Sent)
unfolding send_snep_over_llcp is_nfc_dep
re_send_snep_put create_snep re events dsap ssap dta fresh =
    if is_nfc_dep re.rfproto
    then (do sent ← send_snep_over_llcp create_snep re events dsap ssap dta fresh; ok (some sent))
    else ok none

unfoldable pub is_connected : LinkStatus → Bool
is_connected connected = true
is_connected _ = false

-- `process` reads the link's buffer.
unfoldable pub recv_snep_over_llcp : {A : Type 0} → (ℕ → List ℕ → Result A) → Re → ℕ → ℕ → Result A
unfolding link_at is_connected
recv_snep_over_llcp process re dsap ssap = do
  dl ← link_at re dsap ssap
  assert (is_connected dl.status)
  process dl.rlen dl.rbuf

-- `refused` stands for the result -1 for an endpoint of another protocol.
unfoldable pub re_recv_snep_put : {A : Type 0} → (ℕ → List ℕ → Result A) → A → Re → ℕ → ℕ → Result A
unfolding recv_snep_over_llcp is_nfc_dep
re_recv_snep_put process refused re dsap ssap =
    if is_nfc_dep re.rfproto then recv_snep_over_llcp process re dsap ssap else ok refused
