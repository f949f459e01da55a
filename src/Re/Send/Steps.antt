-- ===== src/Re/Send/Steps.antt =====
-- The steps of a SNEP message that is put on a data link: src/nfc-re.c.
use e2f77dee9c9d8e2bfbcafc.Base.{
  ℕ, ◌+◌, ◌%◌, ◌<◌, ◌≡◌, refl, ap, arith, true, false, none, some, List, [], ◌∷◌, ◌++◌, ltb, ok,
}
use e2f77dee9c9d8e2bfbcafc.Memory.{Buf, read}
use e2f77dee9c9d8e2bfbcafc.Packet
use e2f77dee9c9d8e2bfbcafc.Llcp.{
  DataLink, disconnected, connecting, connected, create_pdu, create_pdu_i, pdu_dsap, pdu_ssap,
  pdu_ptype, ptype_connect, clear_data_link, queued, emptied,
}
use e2f77dee9c9d8e2bfbcafc.Re.{Re, Event, send_dta, del_timeout, set_link, update_last_saps}
use e2f77dee9c9d8e2bfbcafc.Re.Link.{process_ptype_cc, Handled}
use e2f77dee9c9d8e2bfbcafc.Re.Send.{
  CreateSnep, Sent, link_at, create_i_pdu, create_queued, enqueue_i_pdu, create_connect_dta,
  send_pdu_from_re,
}

-- The buffer in which `create_snep` finds the header of the I PDU.
abbrev pub headed : Re → ℕ → ℕ → Buf → Buf
unfolding create_pdu_i
headed re i j memory = (create_pdu_i memory 0 i j (re.llcp_dl i j).v_s (re.llcp_dl i j).v_r).0

pub link_at_lem : (re : Re) (i j : ℕ) → i < 64 → j < 64 → link_at re i j ≡ ok (re.llcp_dl i j)
unfolding link_at
link_at_lem re i j hi hj = ground arith

pub set_link_self : (re : Re) (i j : ℕ) (dl : DataLink) → (set_link re i j dl).llcp_dl i j ≡ dl
set_link_self re i j dl = ground arith

-- The link with an I PDU put on it.
abbrev pended : DataLink → List (List ℕ) → List ℕ → DataLink
pended dl q pdu = record dl { v_s = (dl.v_s + 1) % 16; xmit_q = some (q ++ (pdu ∷ [])) }

module _ (create_snep : CreateSnep) (re : Re) (i j : ℕ) (hi : i < 64) (hj : j < 64)
    (memory b' : Buf) (n : ℕ) (made : create_snep 197 (headed re i j memory) 3 ≡ ok (b', some n))
    (short : n < 253) where
  create_queued_lem :
      create_queued (create_i_pdu create_snep i j) re memory
      ≡ ok (
        set_link re i j (record (re.llcp_dl i j) { v_s = ((re.llcp_dl i j).v_s + 1) % 16 }),
        read b' 0 (3 + n),
      )
  unfolding create_queued create_i_pdu create_pdu_i
  create_queued_lem =
      let l : (3 + n) % 256 ≡ 3 + n = omega arith in rw (link_at_lem re i j hi hj, made, l) refl

  pub enqueue_i_pdu_lem :
      (q : List (List ℕ))
      → (re.llcp_dl i j).xmit_q ≡ some q
      → (re' : Re) × (enqueue_i_pdu create_snep re i j memory ≡ ok re')
        × (re'.llcp_dl i j ≡ pended (re.llcp_dl i j) q (read b' 0 (3 + n)))
        × (re'.xmit_next ≡ re.xmit_next)
        × (re'.xmit_q ≡ re.xmit_q)
        × (re'.connid ≡ re.connid)
  unfolding enqueue_i_pdu
  enqueue_i_pdu_lem q held =
      let re₁ =
        set_link re i j (record (re.llcp_dl i j) { v_s = ((re.llcp_dl i j).v_s + 1) % 16 }) in
      let self =
        set_link_self re i j (record (re.llcp_dl i j) { v_s = ((re.llcp_dl i j).v_s + 1) % 16 }) in
      (
        set_link re₁ i j
            (record (re₁.llcp_dl i j) { xmit_q = some (q ++ (read b' 0 (3 + n) ∷ [])) }),
        rw (create_queued_lem) (rw (link_at_lem re₁ i j hi hj, ap (λ x. x.xmit_q) self, held) refl),
        ground arith,
        refl,
        refl,
        refl,
      )

-- The CONNECT PDU of a disconnected link, when it is the endpoint's turn.
pub connect_lem :
    (re : Re) (events : List Event) (i j : ℕ) (dta memory : Buf)
    → i < 64
    → j < 64
    → re.xmit_next ≡ true
    → (re.llcp_dl i j).status ≡ disconnected
    → (sent : Sent) × (pk : Buf) × (send_pdu_from_re (create_connect_dta i j) re events dta memory
        ≡ ok sent)
      × (sent.packet ≡ some (pk, 5))
      × (pdu_ptype pk 3 ≡ ptype_connect)
      × (pdu_dsap pk 3 ≡ i)
      × (pdu_ssap pk 3 ≡ j)
      × (sent.re.xmit_next ≡ false)
      × (sent.re.xmit_q ≡ re.xmit_q)
      × (sent.re.llcp_dl i j ≡ record (re.llcp_dl i j) { status = connecting })
unfolding send_pdu_from_re create_connect_dta create_pdu pdu_dsap pdu_ssap pdu_ptype
connect_lem re events i j dta memory hi hj turn status =
    let re' = set_link re i j (record (re.llcp_dl i j) { status = connecting }) in
    let pk : Buf = Packet.header (create_pdu dta 3 i ptype_connect j).0 0 re.connid 0 2 in
    (
      record {
        re = record re' { xmit_next = false };
        events = elim (re.xmit_timeout) [
          | none ↦ send_dta ∷ events
          | some t ↦ del_timeout t ∷ send_dta ∷ events
        ];
        packet = some (pk, 5);
      },
      pk,
      rw (turn, link_at_lem re i j hi hj, status) refl,
      refl,
      ground arith,
      ground arith,
      ground arith,
      refl,
      refl,
      ground arith,
    )

-- A CC PDU on a connecting link: what was pending joins the endpoint's queue, in order.
pub cc_lem :
    (re : Re) (i j : ℕ) (b : Buf) (p : ℕ) (rsp : Buf)
    → i < 64
    → j < 64
    → pdu_ssap b p ≡ i
    → pdu_dsap b p ≡ j
    → (re.llcp_dl i j).status ≡ connecting
    → (h : Handled) × (process_ptype_cc re b p rsp ≡ ok h)
      × (h.re.xmit_q ≡ re.xmit_q ++ queued (re.llcp_dl i j).xmit_q)
      × ((h.re.llcp_dl i j).status ≡ connected)
      × ((h.re.llcp_dl i j).v_s ≡ 0)
unfolding process_ptype_cc clear_data_link update_last_saps
cc_lem re i j b p rsp hi hj s d status =
    let ti : ltb i 64 ≡ true = ground arith in
    let tj : ltb j 64 ≡ true = ground arith in
    let dl = record (clear_data_link (re.llcp_dl i j)) {
      status = connected;
      xmit_q = emptied (re.llcp_dl i j).xmit_q;
    } in
    let moved = record (set_link re i j dl) {
      xmit_q = re.xmit_q ++ queued (re.llcp_dl i j).xmit_q;
    } in
    (
      record {
        re = record moved { last_dsap = i; last_ssap = j };
        rsp = rsp;
        consumed = 3;
        len = 0;
      },
      rw (s, d, status, ti, tj) refl,
      refl,
      ground arith,
      ground arith,
    )
