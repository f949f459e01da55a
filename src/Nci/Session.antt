-- ===== src/Nci/Session.antt =====
-- What the host reads of the active tag by data packets: src/nfc-nci.c, src/nfc-re.c and
-- src/nfc-tag.c together.
pub mod Entry
pub mod Activate
pub mod StartUp
pub mod Store
pub mod T3
pub mod T4
pub mod T12
pub mod Faces
pub mod Peer
use e2f77dee9c9d8e2bfbcafc.Base.{
  ℕ, ◌<◌, ◌≡◌, refl, sym, ◌∙◌, ap, ◌⊎◌, inl, inr, List, [], ◌∷◌, get_elem?, set, Option, some, zero,
  suc, ok, Returns, ◌>>=◌, >>=-Returns,
}
use e2f77dee9c9d8e2bfbcafc.Memory.{Buf, read}
use e2f77dee9c9d8e2bfbcafc.Packet.{pkt_mt, pkt_connid, mt_dta}
use e2f77dee9c9d8e2bfbcafc.Rf.{Rfst, RfProtocol, state_transition, rfst_bit}
use e2f77dee9c9d8e2bfbcafc.Device.{Device}
use e2f77dee9c9d8e2bfbcafc.Tag.{Tag, Response}
use e2f77dee9c9d8e2bfbcafc.Tag.T4.{FileSelect}
use e2f77dee9c9d8e2bfbcafc.Re.{Re, Host}
use e2f77dee9c9d8e2bfbcafc.Re.Data.{process_data}
use e2f77dee9c9d8e2bfbcafc.Re.Data.Answer.{answer, Carries, process_data-answer}
use e2f77dee9c9d8e2bfbcafc.System.{System, endpoint}
use e2f77dee9c9d8e2bfbcafc.Nci.Rf
use e2f77dee9c9d8e2bfbcafc.Nci.Tables.{process_nci_msg, put_back}

-- The RF interface is active, and its endpoint is tag `t`, which `proto` speaks.
pub record Serves (sys : System) (proto : RfProtocol) (t : ℕ) : Type 0 where
  pub index : ℕ
  pub re : Re
  pub passes : (sys.nfc.rf_state ≡ Rfst.poll_active) ⊎ (sys.nfc.rf_state ≡ Rfst.listen_active)
  pub active : sys.nfc.active_re ≡ some index
  pub found : get_elem? sys.res index ≡ some re
  pub speaks : re.rfproto ≡ proto
  pub tagged : re.tag ≡ some t

-- Data may pass in the two active states, and leaves them as they are.
pub data_transition :
    (nfc : Device)
    → (nfc.rf_state ≡ Rfst.poll_active) ⊎ (nfc.rf_state ≡ Rfst.listen_active)
    → Rf.rf_transition nfc 0x30 nfc.rf_state ≡ ok nfc
unfolding Rf.rf_transition
data_transition nfc (inl e) = rw e refl
data_transition nfc (inr e) = rw e refl

pub get_elem?-set_self :
    (res : List Re) (i : ℕ) (old new : Re)
    → get_elem? res i ≡ some old
    → get_elem? (set res i new) i ≡ some new
get_elem?-set_self [] i old new h = absurd (cc)
get_elem?-set_self (re ∷ res) zero old new h = refl
get_elem?-set_self (re ∷ res) (suc i) old new h = get_elem?-set_self res i old new h

pub endpoint_found :
    (res : List Re) (at : Option ℕ) (i : ℕ) (re : Re)
    → at ≡ some i
    → get_elem? res i ≡ some re
    → endpoint res at ≡ ok re
endpoint_found res at i re e f = rw (e, f, endpoint) refl

pub put_back_found :
    (res : List Re) (at : Option ℕ) (i : ℕ) (old new : Re)
    → at ≡ some i
    → get_elem? res i ≡ some old
    → get_elem? (put_back res at new) i ≡ some new
put_back_found res at i old new e f = rw e (get_elem?-set_self res i old new f)

-- A data packet for the tag is answered by a data packet with what the tag answers, and the tag
-- stays active.
pub session_step :
    (host : Host) (sys : System) (dta rsp : Buf) (proto : RfProtocol) (t : ℕ) (tag : Tag)
    (sel : FileSelect) (r : Response) (c : ℕ)
    → Serves sys proto t
    → get_elem? sys.tags t ≡ some tag
    → pkt_mt dta ≡ mt_dta
    → answer proto sys.file_sel tag.mem dta rsp ≡ ok (sel, r)
    → r.consumed ≡ some c
    → 0 < r.len
    → r.len < 256
    → Returns (process_nci_msg host sys dta rsp) λ a.
      Serves a.sys proto t
      × (a.sys.tags ≡ sys.tags)
      × (a.sys.file_sel ≡ sel)
      × Carries a.rsp a.len (pkt_connid dta) (read r.rsp 3 r.len)
unfolding process_nci_msg
session_step host sys dta rsp proto t tag sel r c v held hm e hc pos small =
    rw
      (
        hm,
        data_transition sys.nfc v.passes,
        endpoint_found sys.res sys.nfc.active_re v.index v.re v.active v.found,
      )
      (>>=-Returns (process_data host sys.tags sys.file_sel v.re sys.events dta rsp) _ _ _
        (process_data-answer host sys.tags sys.file_sel v.re sys.events dta rsp v.tagged held
          (rw v.speaks e) hc pos small)
        (λ p h. (
          record {
            index = v.index;
            re = p.re;
            passes = v.passes;
            active = v.active;
            found = put_back_found sys.res sys.nfc.active_re v.index v.re p.re v.active v.found;
            speaks = h.0 ∙ v.speaks;
            tagged = h.1 ∙ v.tagged;
          },
          refl,
          h.2,
          h.3,
        )))
