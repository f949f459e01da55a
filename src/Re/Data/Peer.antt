-- ===== src/Re/Data/Peer.antt =====
-- What the host gets for a data packet while the endpoint is a peer.
use e2f77dee9c9d8e2bfbcafc.Base.{
  ℕ, ◌<◌, ◌≤◌, ◌≡◌, ◌==◌, true, false, refl, ap, ◌∙◌, arith, List, ◌∷◌, Option, some, none, ok,
  Returns, >>=-Returns,
}
use e2f77dee9c9d8e2bfbcafc.Memory.{Buf, read}
use e2f77dee9c9d8e2bfbcafc.Packet.{pkt_connid, pkt_len, mt_dta, read_payload}
use e2f77dee9c9d8e2bfbcafc.Rf.{RfProtocol}
use e2f77dee9c9d8e2bfbcafc.Tag.{Tag}
use e2f77dee9c9d8e2bfbcafc.Tag.T4.{FileSelect}
use e2f77dee9c9d8e2bfbcafc.Llcp.{pdu_ptype}
use e2f77dee9c9d8e2bfbcafc.Re.{Re, Event, new_timeout, Host}
use e2f77dee9c9d8e2bfbcafc.Re.Link.{Handled, process_ptype, process_llcp, prepare_xmit_timeout}
use e2f77dee9c9d8e2bfbcafc.Re.Data.{dispatch, process_data}
use e2f77dee9c9d8e2bfbcafc.Re.Data.Answer.{Carries, header-Carries}

-- Every request for a timeout is met.
abbrev pub GivesTimeouts : Host → Type 0
GivesTimeouts host = (events : List Event) → (t : ℕ) × (host.new_timeout_result events ≡ some t)

-- The timeout is all that the preparation changes of an endpoint.
prepare_lem :
    (host : Host) (re : Re) (events : List Event)
    → GivesTimeouts host
    → Returns
        (prepare_xmit_timeout host re events)
        λ r. (o : Option ℕ) × (r.0 ≡ record re { xmit_timeout = o })
unfolding prepare_xmit_timeout
prepare_lem host re events gives = by_timeout re.xmit_timeout refl
  where
    by_timeout :
        (x : Option ℕ)
        → re.xmit_timeout ≡ x
        → Returns
            (prepare_xmit_timeout host re events)
            λ r. (o : Option ℕ) × (r.0 ≡ record re { xmit_timeout = o })
    by_timeout (some u) e = rw e (some u, refl)
    by_timeout none e =
        let (t, given) = gives (new_timeout ∷ events) in
        rw (e, prepare_xmit_timeout, given) (some t, refl)

module _ (host : Host) (tags : List Tag) (sel : FileSelect) (re : Re) (events : List Event)
    (dta rsp : Buf) (h : Handled) (gives : GivesTimeouts host)
    (done : process_ptype (pdu_ptype dta 3) re dta 3 (pkt_len dta) rsp 3 ≡ ok h) where
  process_llcp_lem : Returns (process_llcp host re events dta 3 (pkt_len dta) rsp 3) λ r.
      (o : Option ℕ) × (r.0
        ≡ record h { re = record (h.re) { xmit_next = true; xmit_timeout = o } })
  unfolding process_llcp
  process_llcp_lem = rw done (
      >>=-Returns (prepare_xmit_timeout host (record (h.re) { xmit_next = true }) events) _ _ _
        (prepare_lem host (record (h.re) { xmit_next = true }) events gives)
        (λ r (o, e). (o, ap (λ x. record h { re = x }) e)))

  dispatch_peer :
      (proto : RfProtocol)
      → proto ≡ RfProtocol.nfc_dep
      → Returns (dispatch proto host tags sel re events dta rsp) λ raw.
        (o : Option ℕ) × (raw.re ≡ record (h.re) { xmit_next = true; xmit_timeout = o })
        × (raw.rsp ≡ h.rsp)
        × (raw.consumed ≡ some h.consumed)
        × (raw.len ≡ h.len)
        × (raw.file_sel ≡ sel)
  unfolding dispatch
  dispatch_peer proto e = rw e (
      >>=-Returns (process_llcp host re events dta 3 (pkt_len dta) rsp 3) _ _ _ process_llcp_lem
        (λ r (o, q). (
          o,
          ap (λ x. x.re) q,
          ap (λ x. x.rsp) q,
          ap (λ x. some x.consumed) q,
          ap (λ x. x.len) q,
          refl,
        )))

-- What the endpoint keeps of the handler's result.
abbrev pub Follows : Re → Re → Type 0
Follows re old =
    (re.rfproto ≡ old.rfproto)
    × (re.llcp_dl ≡ old.llcp_dl)
    × (re.last_dsap ≡ old.last_dsap)
    × (re.last_ssap ≡ old.last_ssap)

pub process_data-Follows :
    (host : Host) (tags : List Tag) (sel : FileSelect) (re : Re) (events : List Event)
    (dta rsp : Buf) (h : Handled)
    → GivesTimeouts host
    → re.rfproto ≡ RfProtocol.nfc_dep
    → process_ptype
        (pdu_ptype dta 3)
        (record re { connid = pkt_connid dta })
        dta
        3
        (pkt_len dta)
        rsp
        3
      ≡ ok h
    → h.re.connid ≡ pkt_connid dta
    → 0 < h.len
    → h.len < 256
    → Returns (process_data host tags sel re events dta rsp) λ p.
      Follows p.re h.re
      × Carries p.rsp p.len (pkt_connid dta) (read h.rsp 3 h.len)
      × ((at n : ℕ) → 3 ≤ at → read p.rsp at n ≡ read h.rsp at n)
unfolding process_data
process_data-Follows host tags sel re events dta rsp h gives proto done conn pos small =
    let n : (h.len == 0) ≡ false = ground arith in
    >>=-Returns
      (dispatch re.rfproto host tags sel (record re { connid = pkt_connid dta }) events dta rsp) _ _
      _
      (dispatch_peer host tags sel (record re { connid = pkt_connid dta }) events dta rsp h gives
        done re.rfproto proto)
      (λ raw (o, e, f, c, l, s).
        let i : raw.re.connid ≡ pkt_connid dta = ap (λ x. x.connid) e ∙ conn in
        rw (c, l, n, f, i)
          (
            (
              ap (λ x. x.rfproto) e,
              ap (λ x. x.llcp_dl) e,
              ap (λ x. x.last_dsap) e,
              ap (λ x. x.last_ssap) e,
            ),
            header-Carries h.rsp (pkt_connid dta) h.len (omega arith) small,
            λ at k b. read_payload h.rsp mt_dta (pkt_connid dta) 0 h.len at k b,
          ))
