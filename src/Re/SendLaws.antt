-- ===== src/Re/SendLaws.antt =====
-- What becomes of the SNEP messages that the console puts on a data link.
use e2f77dee9c9d8e2bfbcafc.Base.{
  ℕ, suc, ◌+◌, ◌/◌, ◌%◌, ◌<◌, ◌≡◌, refl, sym, ap, ◌∙◌, arith, true, false, some, List, [], ◌∷◌,
  ◌++◌, map, length, ◌==◌, Result, ok, deref, ◌>>=◌, Returns, Returns_map, subst,
}
use e2f77dee9c9d8e2bfbcafc.Memory.{Buf, IsByte, read, write, length-read, read-write}
use e2f77dee9c9d8e2bfbcafc.Rf.{RfProtocol}
use e2f77dee9c9d8e2bfbcafc.Llcp.{
  disconnected, connected, create_pdu_i, pdu_dsap, pdu_ssap, pdu_ptype, ptype_connect, ptype_i,
  queued,
}
use e2f77dee9c9d8e2bfbcafc.Re.{Re, Event}
use e2f77dee9c9d8e2bfbcafc.Re.Link.{process_ptype_cc, Handled}
use e2f77dee9c9d8e2bfbcafc.Re.Transmit.{xmit_pdu_or_symm_from_re}
use e2f77dee9c9d8e2bfbcafc.Re.Send.Steps.{
  link_at_lem, connect_lem, cc_lem, enqueue_i_pdu_lem, headed,
}
use e2f77dee9c9d8e2bfbcafc.Re.Send.{
  CreateSnep, Sent, enqueue_i_pdu, re_send_snep_put, create_connect_dta, send_pdu_from_re,
  send_snep_by, send_snep_over_llcp, is_nfc_dep,
}

over_llcp :
    (create_snep : CreateSnep) (re : Re) (events : List Event) (i j : ℕ) (dta : Buf)
    (fresh : ℕ → Buf)
    → i < 64
    → j < 64
    → send_snep_over_llcp create_snep re events i j dta fresh
      ≡ send_snep_by (re.llcp_dl i j).status create_snep re events i j dta fresh
unfolding send_snep_over_llcp
over_llcp create_snep re events i j dta fresh hi hj = rw (link_at_lem re i j hi hj) refl

-- A put on a peer is what the status of the link says.
pub put_by_status :
    (create_snep : CreateSnep) (re : Re) (events : List Event) (i j : ℕ) (dta : Buf)
    (fresh : ℕ → Buf)
    → i < 64
    → j < 64
    → re.rfproto ≡ RfProtocol.nfc_dep
    → re_send_snep_put create_snep re events i j dta fresh ≡ (
        send_snep_by (re.llcp_dl i j).status create_snep re events i j dta fresh >>= λ sent.
        ok (some sent))
unfolding re_send_snep_put
put_by_status create_snep re events i j dta fresh hi hj proto =
    let kind : is_nfc_dep re.rfproto ≡ true = ap is_nfc_dep proto ∙ (unfold is_nfc_dep in refl) in
    rw kind
      (ap (λ m. m >>= λ sent. ok (some sent)) (over_llcp create_snep re events i j dta fresh hi hj))

by_disconnected :
    (create_snep : CreateSnep) (re : Re) (events : List Event) (i j : ℕ) (dta : Buf)
    (fresh : ℕ → Buf)
    → send_snep_by disconnected create_snep re events i j dta fresh ≡ (
        enqueue_i_pdu create_snep re i j (fresh 0) >>= λ re'.
        send_pdu_from_re (create_connect_dta i j) re' events dta (fresh 1))
unfolding send_snep_by
by_disconnected create_snep re events i j dta fresh = refl

put_disconnected :
    (create_snep : CreateSnep) (re : Re) (events : List Event) (i j : ℕ) (dta : Buf)
    (fresh : ℕ → Buf)
    → i < 64
    → j < 64
    → re.rfproto ≡ RfProtocol.nfc_dep
    → (re.llcp_dl i j).status ≡ disconnected
    → re_send_snep_put create_snep re events i j dta fresh ≡ (
        (enqueue_i_pdu create_snep re i j (fresh 0) >>= λ re'.
        send_pdu_from_re (create_connect_dta i j) re' events dta (fresh 1))
        >>= λ sent. ok (some sent))
put_disconnected create_snep re events i j dta fresh hi hj proto status =
    put_by_status create_snep re events i j dta fresh hi hj proto
    ∙ ap (λ m. m >>= λ sent. ok (some sent))
        (ap (λ st. send_snep_by st create_snep re events i j dta fresh) status
          ∙ by_disconnected create_snep re events i j dta fresh)

xmit_lem :
    (re : Re) (pdu : List ℕ) (b : Buf) (p : ℕ)
    → re.xmit_q ≡ pdu ∷ []
    → 0 < length pdu
    → ((xmit_pdu_or_symm_from_re re b p).1 ≡ write b p pdu)
      × ((xmit_pdu_or_symm_from_re re b p).2 ≡ length pdu)
unfolding xmit_pdu_or_symm_from_re
xmit_lem re pdu b p e h =
    let long : (length pdu == 0) ≡ false = ground arith in (rw (e, long) refl, rw (e, long) refl)

-- The three bytes of an I PDU's header, found where a whole PDU was read.
numbered :
    (b h x : Buf) (q n : ℕ)
    → ((k : ℕ) → k < 3 → b k ≡ h k)
    → ((k : ℕ) → k < 3 → IsByte (h k))
    → read x q (suc (suc (suc n))) ≡ map (λ v. v % 256) (read b 0 (suc (suc (suc n))))
    → (x q ≡ h 0) × (x (q + 1) ≡ h 1) × (x (q + 2) ≡ h 2)
numbered b h x q n f y e = ground (
  arith,
  f 0 (omega arith),
  f 1 (omega arith),
  f 2 (omega arith),
  y 0 (omega arith),
  y 1 (omega arith),
  y 2 (omega arith),
)

headed_bytes : (re : Re) (i j : ℕ) (memory : Buf) (k : ℕ) → k < 3 → IsByte (headed re i j memory k)
unfolding create_pdu_i
headed_bytes re i j memory k h = ground arith

headed_fields :
    (re : Re) (i j : ℕ) (memory x : Buf) (q : ℕ)
    → i < 64
    → j < 64
    → (x q ≡ headed re i j memory 0)
      × (x (q + 1) ≡ headed re i j memory 1)
      × (x (q + 2) ≡ headed re i j memory 2)
    → (pdu_ptype x q ≡ ptype_i)
      × (pdu_dsap x q ≡ i)
      × (pdu_ssap x q ≡ j)
      × (x (q + 2) / 16 ≡ (re.llcp_dl i j).v_s % 16)
unfolding create_pdu_i pdu_ptype pdu_dsap pdu_ssap
headed_fields re i j memory x q hi hj (a, b, c) = ground arith

-- A put, and the CC PDU at offset `p` of `b` that answers its CONNECT PDU.
abbrev pub put_cc :
    CreateSnep → Re → List Event → ℕ → ℕ → Buf → (ℕ → Buf) → Buf → ℕ → Buf → Result (Sent × Handled)
put_cc create_snep re events i j dta fresh b p rsp = do
  put ← re_send_snep_put create_snep re events i j dta fresh
  sent ← deref put
  h ← process_ptype_cc sent.re b p rsp
  ok (sent, h)

module _ (create_snep : CreateSnep) (re : Re) (events : List Event) (i j : ℕ) (dta : Buf)
    (fresh : ℕ → Buf) (b' : Buf) (n : ℕ) (b : Buf) (p : ℕ) (rsp : Buf)
    (proto : re.rfproto ≡ RfProtocol.nfc_dep) (turn : re.xmit_next ≡ true) (hi : i < 64)
    (hj : j < 64) (status : (re.llcp_dl i j).status ≡ disconnected)
    (made : create_snep 197 (headed re i j (fresh 0)) 3 ≡ ok (b', some n)) (short : n < 253)
    (s : pdu_ssap b p ≡ i) (d : pdu_dsap b p ≡ j) where
  put_cc_lem :
      (q : List (List ℕ))
      → (re.llcp_dl i j).xmit_q ≡ some q
      → Returns (put_cc create_snep re events i j dta fresh b p rsp) λ r.
        (pk : Buf) × (r.0.packet ≡ some (pk, 5))
        × (pdu_ptype pk 3 ≡ ptype_connect)
        × (pdu_dsap pk 3 ≡ i)
        × (pdu_ssap pk 3 ≡ j)
        × ((r.1.re.llcp_dl i j).status ≡ connected)
        × ((r.1.re.llcp_dl i j).v_s ≡ 0)
        × (r.1.re.xmit_q ≡ re.xmit_q ++ (q ++ (read b' 0 (3 + n) ∷ [])))
  unfolding queued
  put_cc_lem q held =
      let (re₁, e₁, dl₁, next₁, q₁, _) =
        enqueue_i_pdu_lem create_snep re i j hi hj (fresh 0) b' n made short q held in
      let (sent, pk, e₂, packet, t, ds, ss, _, q₂, dl₂) =
        connect_lem re₁ events i j dta (fresh 1) hi hj (next₁ ∙ turn)
          (ap (λ x. x.status) dl₁ ∙ status) in
      let (h, e₃, q₃, conn, vs) = cc_lem sent.re i j b p rsp hi hj s d (ap (λ x. x.status) dl₂) in
      rw (put_disconnected create_snep re events i j dta fresh hi hj proto status, e₁, e₂, e₃)
        (
          pk,
          packet,
          t,
          ds,
          ss,
          conn,
          vs,
          q₃
              ∙ ap (λ x. x ++ queued (sent.re.llcp_dl i j).xmit_q) (q₂ ∙ q₁)
              ∙ ap (λ x. re.xmit_q ++ queued x) (ap (λ x. x.xmit_q) dl₂ ∙ ap (λ x. x.xmit_q) dl₁),
        )

  -- A SNEP message of fewer than 253 bytes is put on a disconnected link, which has been initialised,
  -- of an endpoint whose turn it is, and both queues are empty; then a CC PDU for the link arrives.
  -- The host has been sent a CONNECT PDU of two bytes for the SAPs, the link is connected, and what
  -- the endpoint transmits next is the I PDU with the message, under the sequence number that the link had. The link's
  -- sequence number is 0 afterwards, whatever it was.
  pub put_cc-delivers :
      (out : Buf) (q : ℕ)
      → re.xmit_q ≡ []
      → (re.llcp_dl i j).xmit_q ≡ some []
      → ((k : ℕ) → k < 3 → b' k ≡ headed re i j (fresh 0) k)
      → Returns (put_cc create_snep re events i j dta fresh b p rsp) λ r.
        let next = xmit_pdu_or_symm_from_re r.1.re out q in
        (pk : Buf) × (r.0.packet ≡ some (pk, 5))
        × (pdu_ptype pk 3 ≡ ptype_connect)
        × (pdu_dsap pk 3 ≡ i)
        × (pdu_ssap pk 3 ≡ j)
        × ((r.1.re.llcp_dl i j).status ≡ connected)
        × (next.2 ≡ 3 + n)
        × (read next.1 q (3 + n) ≡ map (λ v. v % 256) (read b' 0 (3 + n)))
        × (pdu_ptype next.1 q ≡ ptype_i)
        × (pdu_dsap next.1 q ≡ i)
        × (pdu_ssap next.1 q ≡ j)
        × (next.1 (q + 2) / 16 ≡ (re.llcp_dl i j).v_s % 16)
        × ((r.1.re.llcp_dl i j).v_s ≡ 0)
  put_cc-delivers out q e₁ e₂ keep =
      Returns_map (put_cc create_snep re events i j dta fresh b p rsp) _ _ (put_cc_lem [] e₂)
        λ r (pk, packet, t, ds, ss, conn, vs, queue).
          let pdu = read b' 0 (3 + n) in
          let len = length-read b' 0 (3 + n) in
          let (x, l) = xmit_lem r.1.re pdu out q (queue ∙ rw e₁ refl) (omega (arith, len)) in
          let bytes : read (xmit_pdu_or_symm_from_re r.1.re out q).1 q (3 + n)
              ≡ map (λ v. v % 256) pdu =
            ap (λ y. read y q (3 + n)) x
            ∙ ap (λ m. read (write out q pdu) q m) (sym len)
            ∙ read-write out q pdu in
          let f = headed_fields re i j (fresh 0) (xmit_pdu_or_symm_from_re r.1.re out q).1 q hi hj (
            numbered b' (headed re i j (fresh 0)) (xmit_pdu_or_symm_from_re r.1.re out q).1 q n keep
              (headed_bytes re i j (fresh 0))
              (subst
                (λ m.
                  read (xmit_pdu_or_symm_from_re r.1.re out q).1 q m
                  ≡ map (λ v. v % 256) (read b' 0 m))
                {y = suc (suc (suc n))} (omega arith) bytes)) in
          (pk, packet, t, ds, ss, conn, l ∙ len, bytes, f.0, f.1, f.2, f.3, vs)
