-- ===== src/Nci/Session/Faces.antt =====
-- The peer that the host faces, and the data packets between them: src/nfc-nci.c and src/nfc-re.c.
use e2f77dee9c9d8e2bfbcafc.Base.{
  ℕ, ◌+◌, ◌<◌, ◌≤◌, ◌≡◌, ap, ◌∙◌, arith, ◌⊎◌, get_elem?, some, ok, Returns, >>=-Returns,
}
use e2f77dee9c9d8e2bfbcafc.Memory.{Buf, read, length-read}
use e2f77dee9c9d8e2bfbcafc.Packet.{pkt_mt, pkt_connid, pkt_len, mt_dta}
use e2f77dee9c9d8e2bfbcafc.Rf.{Rfst, RfProtocol}
use e2f77dee9c9d8e2bfbcafc.Llcp.{pdu_dsap, pdu_ssap, pdu_ptype}
use e2f77dee9c9d8e2bfbcafc.Re.{Re, Host}
use e2f77dee9c9d8e2bfbcafc.Re.Link.{Handled, process_ptype}
use e2f77dee9c9d8e2bfbcafc.Re.Data.{process_data}
use e2f77dee9c9d8e2bfbcafc.Re.Data.Answer.{Carries}
use e2f77dee9c9d8e2bfbcafc.Re.Data.Peer.{GivesTimeouts, Follows, process_data-Follows}
use e2f77dee9c9d8e2bfbcafc.System.{System}
use e2f77dee9c9d8e2bfbcafc.Nci.Tables.{process_nci_msg}
use e2f77dee9c9d8e2bfbcafc.Nci.Session.{data_transition, endpoint_found, put_back_found}

-- The RF interface is active, and its endpoint is the peer `re`, at index `at` of the table.
pub record Faces (sys : System) (at : ℕ) (re : Re) : Type 0 where
  pub passes : (sys.nfc.rf_state ≡ Rfst.poll_active) ⊎ (sys.nfc.rf_state ≡ Rfst.listen_active)
  pub active : sys.nfc.active_re ≡ some at
  pub found : get_elem? sys.res at ≡ some re
  pub speaks : re.rfproto ≡ RfProtocol.nfc_dep

-- A data packet whose PDU a handler answers is answered by a data packet with that PDU.
pub peer_step :
    (host : Host) (sys : System) (dta rsp : Buf) (at : ℕ) (re : Re) (h : Handled)
    → GivesTimeouts host
    → Faces sys at re
    → pkt_mt dta ≡ mt_dta
    → process_ptype
        (pdu_ptype dta 3)
        (record re { connid = pkt_connid dta })
        dta
        3
        (pkt_len dta)
        rsp
        3
      ≡ ok h
    → h.re.rfproto ≡ re.rfproto
    → h.re.connid ≡ pkt_connid dta
    → 0 < h.len
    → h.len < 256
    → Returns (process_nci_msg host sys dta rsp) λ a.
      (re' : Re) × Faces a.sys at re'
      × Follows re' h.re
      × Carries a.rsp a.len (pkt_connid dta) (read h.rsp 3 h.len)
      × ((at n : ℕ) → 3 ≤ at → read a.rsp at n ≡ read h.rsp at n)
unfolding process_nci_msg
peer_step host sys dta rsp at re h gives v hm done proto conn pos small =
    rw
      (
        hm,
        data_transition sys.nfc v.passes,
        endpoint_found sys.res sys.nfc.active_re at re v.active v.found,
      )
      (>>=-Returns (process_data host sys.tags sys.file_sel re sys.events dta rsp) _ _ _
        (process_data-Follows host sys.tags sys.file_sel re sys.events dta rsp h gives v.speaks done
          conn pos small)
        (λ p (f, c, r). (
          p.re,
          record {
            passes = v.passes;
            active = v.active;
            found = put_back_found sys.res sys.nfc.active_re at re p.re v.active v.found;
            speaks = f.0 ∙ (proto ∙ v.speaks);
          },
          f,
          c,
          r,
        )))

-- Three bytes that agree.
same_bytes :
    (x y : Buf) (at : ℕ)
    → read x at 3 ≡ read y at 3
    → (x at ≡ y at) × (x (at + 1) ≡ y (at + 1)) × (x (at + 1 + 1) ≡ y (at + 1 + 1))
same_bytes x y at e = (cc, cc, cc)

-- A data packet with a PDU of `n` bytes.
abbrev pub CarriesPdu : Buf → ℕ → ℕ → ℕ → ℕ → ℕ → ℕ → Type 0
CarriesPdu rsp len connid ptype dsap ssap n =
    (pkt_mt rsp ≡ mt_dta)
    × (pkt_connid rsp ≡ connid)
    × (pkt_len rsp ≡ n)
    × (len ≡ 3 + n)
    × (pdu_ptype rsp 3 ≡ ptype)
    × (pdu_dsap rsp 3 ≡ dsap)
    × (pdu_ssap rsp 3 ≡ ssap)

-- The packet that carries a PDU, from the handler's buffer.
pub carried :
    (x y : Buf) (len connid ptype dsap ssap n : ℕ)
    → Carries x len connid (read y 3 n)
    → ((at k : ℕ) → 3 ≤ at → read x at k ≡ read y at k)
    → pdu_ptype y 3 ≡ ptype
    → pdu_dsap y 3 ≡ dsap
    → pdu_ssap y 3 ≡ ssap
    → CarriesPdu x len connid ptype dsap ssap n × (x 5 ≡ y 5)
unfolding pdu_ptype pdu_dsap pdu_ssap
carried x y len connid ptype dsap ssap n (m, c, l, s, p) r t d f =
    let (a, b, e) = same_bytes x y 3 (r 3 3 (omega arith)) in
    let k = length-read y 3 n in rw (a, b) ((m, c, l ∙ k, s ∙ ap (λ z. 3 + z) k, t, d, f), e)
