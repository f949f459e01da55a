-- ===== src/Console/Refusals.antt =====
-- What the console commands do where an endpoint or a SAP does not fit.
use e2f77dee9c9d8e2bfbcafc.Base.{
  ℕ, ◌<◌, ◌≡◌, refl, arith, ◌%◌, false, ◌&&◌, ltb, ◌==◌, Bool-cases, inl, inr, none, some, List, [],
  ◌++◌, ◌∙◌, get_elem?, Result, ok, fault, bounds, null,
}
use e2f77dee9c9d8e2bfbcafc.Memory.{Buf}
use e2f77dee9c9d8e2bfbcafc.Re.{Re, Event}
use e2f77dee9c9d8e2bfbcafc.Re.Send.{re_send_llcp_connect}
use e2f77dee9c9d8e2bfbcafc.Tag.{Tag}
use e2f77dee9c9d8e2bfbcafc.Tag.Store.{tag_set_data, tag_format}
use e2f77dee9c9d8e2bfbcafc.System.{System}
use e2f77dee9c9d8e2bfbcafc.Console.{Args, codes, strsep, pos, negsuc}
use e2f77dee9c9d8e2bfbcafc.Console.Parse.{parse_re_index}
use e2f77dee9c9d8e2bfbcafc.Console.Commands.{Memory, failed, str_eq}
use e2f77dee9c9d8e2bfbcafc.Console.Links.{llcp_connect_cb}
use e2f77dee9c9d8e2bfbcafc.Console.Tags.{cmd_tag, cmd_tag_set, cmd_tag_change, with_tag}

-- The operation is taken off the line.
tag_operations :
    (args : List ℕ) (sys : System) (memory : Memory)
    → (cmd_tag (some (codes "set " ++ args)) sys memory ≡ cmd_tag_set (some args) sys memory)
      × (cmd_tag (some (codes "clear " ++ args)) sys memory
          ≡ cmd_tag_change (some args) sys (λ t. tag_set_data t []))
      × (cmd_tag (some (codes "format " ++ args)) sys memory
          ≡ cmd_tag_change (some args) sys tag_format)
unfolding cmd_tag strsep str_eq
tag_operations args sys memory = (refl, refl, refl)

change-no_tag :
    (args : Args) (sys : System) (change : Tag → Result Tag) (i : ℕ) (rest : Args) (re : Re)
    → parse_re_index args 6 ≡ some (i, rest)
    → get_elem? sys.res i ≡ some re
    → re.tag ≡ none
    → cmd_tag_change args sys change ≡ fault null
unfolding cmd_tag_change with_tag
change-no_tag args sys change i rest re parsed found tag =
    rw (parsed, cmd_tag_change) (rw (found) (rw (tag) refl))

-- Where the index of the arguments names an endpoint that is not a tag, the command that sets a
-- message is refused and changes nothing, and the commands that clear and format a tag access a null
-- pointer.
pub cmd_tag-no_tag :
    (args : List ℕ) (sys : System) (memory : Memory) (i : ℕ) (rest : Args) (re : Re)
    → parse_re_index (some args) 6 ≡ some (i, rest)
    → get_elem? sys.res i ≡ some re
    → re.tag ≡ none
    → (cmd_tag (some (codes "set " ++ args)) sys memory ≡ ok (failed sys))
      × (cmd_tag (some (codes "clear " ++ args)) sys memory ≡ fault null)
      × (cmd_tag (some (codes "format " ++ args)) sys memory ≡ fault null)
unfolding cmd_tag_set
cmd_tag-no_tag args sys memory i rest re parsed found tag =
    let (a, b, c) = tag_operations args sys memory in
    (
      a ∙ rw (parsed, cmd_tag_set) (rw (found) (rw (tag) refl)),
      b ∙ change-no_tag (some args) sys (λ t. tag_set_data t []) i rest re parsed found tag,
      c ∙ change-no_tag (some args) sys tag_format i rest re parsed found tag,
    )

link_out :
    (re : Re) (events : List Event) (d s : ℕ) (dta memory : Buf)
    → (ltb d 64 && ltb s 64) ≡ false
    → re_send_llcp_connect re events d s dta memory ≡ fault bounds
unfolding re_send_llcp_connect
link_out re events d s dta memory h = elim (Bool-cases re.xmit_next) [
  | inl e ↦ rw (e, h) refl
  | inr e ↦ rw (e, h) refl
]

-- With an active endpoint, a connection where one SAP is -1 and the other is from 1 to 63 leaves the
-- table of the data links.
pub llcp_connect_cb_out :
    (sys : System) (memory : Memory) (i n : ℕ) (re : Re)
    → sys.nfc.active_re ≡ some i
    → get_elem? sys.res i ≡ some re
    → 0 < n
    → n < 64
    → (llcp_connect_cb sys (negsuc 0) (pos n) memory ≡ fault bounds)
      × (llcp_connect_cb sys (pos n) (negsuc 0) memory ≡ fault bounds)
unfolding llcp_connect_cb
llcp_connect_cb_out sys memory i n re active found h k =
    let nonzero : (n == 0) ≡ false = ground arith in
    (
      rw (active, found, nonzero, llcp_connect_cb)
          (rw (link_out re sys.events 255 (n % 256) memory.packet (memory.fresh 0) refl) refl),
      rw (active, found, nonzero, llcp_connect_cb)
          (rw (link_out re sys.events (n % 256) 255 memory.packet (memory.fresh 0) (ground arith))
            refl),
    )
