-- ===== src/Console/Tags.antt =====
-- The commands that change a tag: `nfc_cmd_tag` of src/cmdline.c.
use e2f77dee9c9d8e2bfbcafc.Base.{
  ℕ, Option, none, some, List, [], get_elem?, set, if◌then◌else◌, Result, ok, deref, within, ◌>>=◌,
}
use e2f77dee9c9d8e2bfbcafc.Memory.{read}
use e2f77dee9c9d8e2bfbcafc.Tag.{Tag}
use e2f77dee9c9d8e2bfbcafc.Tag.Store.{tag_set_data, tag_format}
use e2f77dee9c9d8e2bfbcafc.System.{System}
use e2f77dee9c9d8e2bfbcafc.Console.{Args, codes, strsep}
use e2f77dee9c9d8e2bfbcafc.Console.Parse.{NdefParam, parse_ndef_msg, parse_re_index}
use e2f77dee9c9d8e2bfbcafc.Console.Message.{build_ndef_msg}
use e2f77dee9c9d8e2bfbcafc.Console.Commands.{Done, Memory, failed, finished, str_eq, operation}

-- The tag with its new content, or the access through a null pointer. The functions of the tag return
-- 0 whenever they return.
unfoldable pub with_tag : System → Option ℕ → (Tag → Result Tag) → Result Done
with_tag sys tag change = do
  t ← deref tag
  old ← within (get_elem? sys.tags t)
  new ← change old
  ok (finished (record sys { tags = set sys.tags t new }) none)

-- `tag set`: the message is built in an array of 1024 bytes.
unfoldable pub set_message : System → Option ℕ → List NdefParam → Memory → Result Done
unfolding build_ndef_msg tag_set_data with_tag
set_message sys tag params memory = do
  r ← build_ndef_msg params memory.array 0 1024
  elim r [
    | none ↦ ok (failed sys)
    | some (b, n) ↦ with_tag sys tag (λ t. tag_set_data t (read b 0 n))
  ]

unfoldable pub cmd_tag_set : Args → System → Memory → Result Done
unfolding parse_re_index parse_ndef_msg set_message
cmd_tag_set args sys memory = elim (parse_re_index args 6) [
  | none ↦ ok (failed sys)
  | some (i, rest) ↦ do
    re ← within (get_elem? sys.res i)
    elim (re.tag) [
      | none ↦ ok (failed sys)
      | some t ↦ elim (parse_ndef_msg rest 4) [
        | none ↦ ok (failed sys)
        | some params ↦ set_message sys (some t) params memory
      ]
    ]
]

-- `tag clear` and `tag format`, which do not ask whether the endpoint is a tag.
unfoldable pub cmd_tag_change : Args → System → (Tag → Result Tag) → Result Done
unfolding parse_re_index with_tag
cmd_tag_change args sys change = elim (parse_re_index args 6) [
  | none ↦ ok (failed sys)
  | some (i, rest) ↦ do re ← within (get_elem? sys.res i); with_tag sys re.tag change
]

-- Another operation is taken for a success.
unfoldable pub cmd_tag : Args → System → Memory → Result Done
unfolding strsep str_eq cmd_tag_set cmd_tag_change tag_set_data tag_format
cmd_tag none sys memory = ok (failed sys)
cmd_tag (some line) sys memory =
    let (p, args) = operation line in
    if str_eq p (codes "set")
    then cmd_tag_set args sys memory
    else (if str_eq p (codes "clear")
        then cmd_tag_change args sys (λ t. tag_set_data t [])
        else (if str_eq p (codes "format")
            then cmd_tag_change args sys tag_format
            else ok (finished sys none)))
