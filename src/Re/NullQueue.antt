-- ===== src/Re/NullQueue.antt =====
-- Data links that were never initialised: src/nfc-re.c, `send_snep_over_llcp`.
use e2f77dee9c9d8e2bfbcafc.Base.{
  ℕ, ◌+◌, ◌%◌, ◌<◌, ◌≡◌, ◌⊎◌, inl, inr, refl, ap, ◌∙◌, Option, none, some, List, fault, null, ok,
  ◌>>=◌,
}
use e2f77dee9c9d8e2bfbcafc.Memory.{Buf}
use e2f77dee9c9d8e2bfbcafc.Rf.{RfProtocol}
use e2f77dee9c9d8e2bfbcafc.Llcp.{LinkStatus, disconnected, connecting, create_pdu_i}
use e2f77dee9c9d8e2bfbcafc.Re.{Re, Event, set_link}
use e2f77dee9c9d8e2bfbcafc.Re.Send.Steps.{link_at_lem, set_link_self, headed}
use e2f77dee9c9d8e2bfbcafc.Re.SendLaws.{put_by_status}
use e2f77dee9c9d8e2bfbcafc.Re.Send.{
  CreateSnep, create_i_pdu, create_queued, enqueue_i_pdu, re_send_snep_put, send_snep_by,
}

-- The insertion goes through a NULL pointer, whether the message was created or not.
enqueue_null :
    (create_snep : CreateSnep) (re : Re) (i j : ℕ) (memory b' : Buf) (res : Option ℕ)
    → i < 64
    → j < 64
    → create_snep 197 (headed re i j memory) 3 ≡ ok (b', res)
    → (re.llcp_dl i j).xmit_q ≡ none
    → enqueue_i_pdu create_snep re i j memory ≡ fault null
unfolding enqueue_i_pdu create_queued create_i_pdu create_pdu_i
enqueue_null create_snep re i j memory b' none hi hj made zeroed =
    rw (link_at_lem re i j hi hj, made) (rw (link_at_lem re i j hi hj, zeroed) refl)
enqueue_null create_snep re i j memory b' (some n) hi hj made zeroed =
    let dl = record (re.llcp_dl i j) { v_s = ((re.llcp_dl i j).v_s + 1) % 16 } in
    rw (link_at_lem re i j hi hj, made)
      (rw
        (
          link_at_lem (set_link re i j dl) i j hi hj,
          ap (λ x. x.xmit_q) (set_link_self re i j dl),
          zeroed,
        )
        refl)

by_status_null :
    (status : LinkStatus) (create_snep : CreateSnep) (re : Re) (events : List Event) (i j : ℕ)
    (dta : Buf) (fresh : ℕ → Buf)
    → (status ≡ disconnected) ⊎ (status ≡ connecting)
    → enqueue_i_pdu create_snep re i j (fresh 0) ≡ fault null
    → send_snep_by status create_snep re events i j dta fresh ≡ fault null
unfolding send_snep_by
by_status_null status create_snep re events i j dta fresh (inl s) e = rw s (rw e refl)
by_status_null status create_snep re events i j dta fresh (inr s) e = rw s (rw e refl)

-- A put on a disconnected or connecting link of a peer whose queue head is still zeroed goes through
-- a NULL pointer, whatever the message is, and whether or not it was created.
pub re_send_snep_put-null :
    (create_snep : CreateSnep) (re : Re) (events : List Event) (i j : ℕ) (dta : Buf)
    (fresh : ℕ → Buf) (b' : Buf) (res : Option ℕ)
    → re.rfproto ≡ RfProtocol.nfc_dep
    → i < 64
    → j < 64
    → ((re.llcp_dl i j).status ≡ disconnected) ⊎ ((re.llcp_dl i j).status ≡ connecting)
    → create_snep 197 (headed re i j (fresh 0)) 3 ≡ ok (b', res)
    → (re.llcp_dl i j).xmit_q ≡ none
    → re_send_snep_put create_snep re events i j dta fresh ≡ fault null
re_send_snep_put-null create_snep re events i j dta fresh b' res proto hi hj st made zeroed =
    put_by_status create_snep re events i j dta fresh hi hj proto
    ∙ ap (λ m. m >>= λ sent. ok (some sent))
        (by_status_null (re.llcp_dl i j).status create_snep re events i j dta fresh st
          (enqueue_null create_snep re i j (fresh 0) b' res hi hj made zeroed))
