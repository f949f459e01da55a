-- ===== src/Nci/Session/Store.antt =====
-- The console stores a message in a tag (src/cmdline.c, src/nfc-tag.c), and the host sends the tag one
-- data packet.
use e2f77dee9c9d8e2bfbcafc.Base.{
  ℕ, zero, suc, ◌<◌, ◌≡◌, refl, sym, Option, some, List, [], ◌∷◌, get_elem?, set, Result, ok, ◌>>=◌,
  Returns, Returns_map, subst,
}
use e2f77dee9c9d8e2bfbcafc.Memory.{Buf, read}
use e2f77dee9c9d8e2bfbcafc.Packet.{pkt_mt, pkt_connid, mt_dta}
use e2f77dee9c9d8e2bfbcafc.Rf.{RfProtocol}
use e2f77dee9c9d8e2bfbcafc.Tag.{Tag, TagType, Response}
use e2f77dee9c9d8e2bfbcafc.Tag.Store.{tag_set_data, set_data_of}
use e2f77dee9c9d8e2bfbcafc.Tag.T4.{FileSelect}
use e2f77dee9c9d8e2bfbcafc.Re.{Host}
use e2f77dee9c9d8e2bfbcafc.Re.Data.Answer.{answer, Carries}
use e2f77dee9c9d8e2bfbcafc.System.{System}
use e2f77dee9c9d8e2bfbcafc.Console.Commands.{Done, finished}
use e2f77dee9c9d8e2bfbcafc.Console.Tags.{with_tag}
use e2f77dee9c9d8e2bfbcafc.Nci.Tables.{process_nci_msg}
use e2f77dee9c9d8e2bfbcafc.Nci.Session.{Serves, session_step}

-- The console stores `msg` in tag `t`.
abbrev pub store : System → ℕ → List ℕ → Result Done
store sys t msg = with_tag sys (some t) (λ tag. tag_set_data tag msg)

pub get_elem?-set_same :
    (tags : List Tag) (i : ℕ) (old new : Tag)
    → get_elem? tags i ≡ some old
    → get_elem? (set tags i new) i ≡ some new
get_elem?-set_same [] i old new h = absurd (cc)
get_elem?-set_same (re ∷ tags) zero old new h = refl
get_elem?-set_same (re ∷ tags) (suc i) old new h = get_elem?-set_same tags i old new h

-- The tag with its new memory.
abbrev pub filled : System → ℕ → Tag → List ℕ → System
filled sys t tag m = record sys { tags = set sys.tags t (record tag { mem = m }) }

-- A memory that the tag's type gives the message is what the table of tags then holds.
pub store_lem :
    (sys : System) (t : ℕ) (tag : Tag) (msg m : List ℕ) (ty : TagType)
    → get_elem? sys.tags t ≡ some tag
    → tag.type ≡ ty
    → set_data_of ty tag.mem msg ≡ ok m
    → store sys t msg ≡ ok (finished (filled sys t tag m) Option.none)
unfolding with_tag tag_set_data
store_lem sys t tag msg m ty h k e =
    let at : set_data_of tag.type tag.mem msg ≡ ok m =
      subst (λ x. set_data_of x tag.mem msg ≡ ok m) (sym k) e in
    rw (h, at) refl

pub filled-Serves :
    (sys : System) (proto : RfProtocol) (t : ℕ) (tag : Tag) (m : List ℕ)
    → Serves sys proto t
    → Serves (filled sys t tag m) proto t
filled-Serves sys proto t tag m v = record {
  index = v.index;
  re = v.re;
  passes = v.passes;
  active = v.active;
  found = v.found;
  speaks = v.speaks;
  tagged = v.tagged;
}

-- The console stores a message, and the host sends one data packet for the tag: what the tag answers
-- with its new memory is what the host gets.
pub stored_session :
    (host : Host) (sys : System) (t : ℕ) (tag : Tag) (msg m : List ℕ) (ty : TagType)
    (proto : RfProtocol) (d rsp : Buf) (payload : List ℕ) (sel : FileSelect) (r : Response) (c : ℕ)
    → get_elem? sys.tags t ≡ some tag
    → tag.type ≡ ty
    → set_data_of ty tag.mem msg ≡ ok m
    → Serves sys proto t
    → pkt_mt d ≡ mt_dta
    → answer proto sys.file_sel m d rsp ≡ ok (sel, r)
    → r.consumed ≡ some c
    → 0 < r.len
    → r.len < 256
    → read r.rsp 3 r.len ≡ payload
    → Returns
        (store sys t msg >>= λ x. process_nci_msg host x.sys d rsp)
        λ a. Carries a.rsp a.len (pkt_connid d) payload
stored_session host sys t tag msg m ty proto d rsp payload sel r c held k e v hm ans hc pos small
      out =
    let new : Tag = record tag { mem = m } in
    let sys₁ = filled sys t tag m in
    rw (store_lem sys t tag msg m ty held k e) (
      Returns_map (process_nci_msg host sys₁ d rsp) _ _
        (session_step host sys₁ d rsp proto t new sel r c (filled-Serves sys proto t tag m v)
          (get_elem?-set_same sys.tags t tag new held) hm ans hc pos small)
        (λ a h. subst (Carries a.rsp a.len (pkt_connid d)) out h.3))
