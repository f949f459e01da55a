-- ===== src/Re/Data/Answer.antt =====
-- What the host gets for a data packet while the endpoint is a tag.
use e2f77dee9c9d8e2bfbcafc.Base.{
  ℕ, ◌+◌, ◌%◌, ◌<◌, ◌≡◌, ◌==◌, false, refl, ◌∙◌, arith, List, length, get_elem?, some, Result, ok,
  fault, assertion, ◌>>=◌, Returns,
}
use e2f77dee9c9d8e2bfbcafc.Memory.{Buf, read, length-read, read_behind}
use e2f77dee9c9d8e2bfbcafc.Packet.{pkt_mt, pkt_connid, pkt_len, mt_dta, header}
use e2f77dee9c9d8e2bfbcafc.Rf.{RfProtocol}
use e2f77dee9c9d8e2bfbcafc.Tag.{Tag, Response}
use e2f77dee9c9d8e2bfbcafc.Tag.T12.{process_t1t, process_t2t}
use e2f77dee9c9d8e2bfbcafc.Tag.T3.{process_t3t}
use e2f77dee9c9d8e2bfbcafc.Tag.T4.{FileSelect, process_t4t}
use e2f77dee9c9d8e2bfbcafc.Re.{Re, Event, Host}
use e2f77dee9c9d8e2bfbcafc.Re.Data.{process_data, dispatch, from_tag}

-- The command of a data packet at a tag of each protocol.
abbrev pub answer : RfProtocol → FileSelect → List ℕ → Buf → Buf → Result (FileSelect × Response)
answer RfProtocol.t1t sel mem dta rsp = do r ← process_t1t mem dta 3 rsp 3; ok (sel, r)
answer RfProtocol.t2t sel mem dta rsp = do r ← process_t2t mem dta 3 rsp 3; ok (sel, r)
answer RfProtocol.t3t sel mem dta rsp = do
  r ← process_t3t mem dta 3 (pkt_len dta) rsp 3
  ok (sel, r)
answer RfProtocol.iso_dep sel mem dta rsp = process_t4t sel mem dta 3 rsp 3
answer RfProtocol.nfc_dep sel mem dta rsp = fault assertion
answer RfProtocol.undetermined sel mem dta rsp = fault assertion

-- A data packet with this connection and payload.
abbrev pub Carries : Buf → ℕ → ℕ → List ℕ → Type 0
Carries rsp len connid payload =
    (pkt_mt rsp ≡ mt_dta)
    × (pkt_connid rsp ≡ connid)
    × (pkt_len rsp ≡ length payload)
    × (len ≡ 3 + length payload)
    × (read rsp 3 (length payload) ≡ payload)

pub header-Carries :
    (b : Buf) (connid l : ℕ)
    → connid < 16
    → l < 256
    → Carries (header b mt_dta connid 0 l) (3 + l % 256) connid (read b 3 l)
header-Carries b connid l hc hl =
    let n : length (read b 3 l) ≡ l = length-read b 3 l in
    rw n (
      omega arith,
      omega arith,
      omega arith,
      omega arith,
      read_behind _ 2 l 3 l (omega arith)
          ∙ (read_behind _ 1 0 3 l (omega arith) ∙ read_behind b 0 _ 3 l (omega arith)),
    )

answered_ok :
    (sel : FileSelect) (m : Result Response) {sel' : FileSelect} {r : Response}
    → ◌>>=◌ {Y = FileSelect × Response} m (λ r. ok (sel, r)) ≡ ok (sel', r)
    → (sel ≡ sel') × (m ≡ ok r)
answered_ok sel (ok a) e = (cc, cc)
answered_ok sel (fault why) e = absurd (cc)

module _ (host : Host) (tags : List Tag) (sel : FileSelect) (re : Re) (events : List Event)
    (dta rsp : Buf) {t : ℕ} {tag : Tag} {sel' : FileSelect} {r : Response}
    (tagged : re.tag ≡ some t) (held : get_elem? tags t ≡ some tag) where
  dispatch-answer :
      (proto : RfProtocol)
      → answer proto sel tag.mem dta rsp ≡ ok (sel', r)
      → dispatch proto host tags sel re events dta rsp ≡ ok (from_tag re sel' events r)
  unfolding dispatch
  dispatch-answer RfProtocol.t1t e =
      let a = answered_ok sel (process_t1t tag.mem dta 3 rsp 3) e in
      rw (tagged, held, a.1, a.0) refl
  dispatch-answer RfProtocol.t2t e =
      let a = answered_ok sel (process_t2t tag.mem dta 3 rsp 3) e in
      rw (tagged, held, a.1, a.0) refl
  dispatch-answer RfProtocol.t3t e =
      let a = answered_ok sel (process_t3t tag.mem dta 3 (pkt_len dta) rsp 3) e in
      rw (tagged, held, a.1, a.0) refl
  dispatch-answer RfProtocol.iso_dep e = rw (tagged, held, e) refl
  dispatch-answer RfProtocol.nfc_dep e = absurd (cc)
  dispatch-answer RfProtocol.undetermined e = absurd (cc)

pub process_data-answer :
    (host : Host) (tags : List Tag) (sel : FileSelect) (re : Re) (events : List Event)
    (dta rsp : Buf) {t : ℕ} {tag : Tag} {sel' : FileSelect} {r : Response} {c : ℕ}
    → re.tag ≡ some t
    → get_elem? tags t ≡ some tag
    → answer re.rfproto sel tag.mem dta rsp ≡ ok (sel', r)
    → r.consumed ≡ some c
    → 0 < r.len
    → r.len < 256
    → Returns (process_data host tags sel re events dta rsp) λ p.
      (p.re.rfproto ≡ re.rfproto)
      × (p.re.tag ≡ re.tag)
      × (p.file_sel ≡ sel')
      × Carries p.rsp p.len (pkt_connid dta) (read r.rsp 3 r.len)
unfolding process_data
process_data-answer host tags sel re events dta rsp {r = r} tagged held e hc pos small =
    let re' : Re = record re { connid = pkt_connid dta } in
    let n : (r.len == 0) ≡ false = ground arith in
    rw (dispatch-answer host tags sel re' events dta rsp tagged held re.rfproto e, hc, n)
      (refl, refl, refl, header-Carries r.rsp (pkt_connid dta) r.len (omega arith) small)
