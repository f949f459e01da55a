-- ===== src/Tests/Console.antt =====
-- Runs of the console commands.
use e2f77dee9c9d8e2bfbcafc.Base.{
  ℕ, ◌%◌, ◌≡◌, refl, arith, true, none, some, List, [], ◌∷◌, ◌++◌, map, length, leb, if◌then◌else◌,
  bit_or, ok, fault, bounds, null,
}
use e2f77dee9c9d8e2bfbcafc.Memory.{Buf, read}
use e2f77dee9c9d8e2bfbcafc.Base64.{symbol, encode_base64}
use e2f77dee9c9d8e2bfbcafc.Ndef
use e2f77dee9c9d8e2bfbcafc.Re.{Re, init_re, nfcid_text}
use e2f77dee9c9d8e2bfbcafc.Rf.{RfProtocol, TechMode}
use e2f77dee9c9d8e2bfbcafc.System.{System, boot}
use e2f77dee9c9d8e2bfbcafc.Console.{codes, pos, negsuc, strtoul, is_empty}
use e2f77dee9c9d8e2bfbcafc.Console.Parse.{parse_re_index, parse_ndef_msg}
use e2f77dee9c9d8e2bfbcafc.Console.Message.{build_ndef_msg, process_ndef}
use e2f77dee9c9d8e2bfbcafc.Console.Commands.{Memory, failed}
use e2f77dee9c9d8e2bfbcafc.Console.Links.{llcp_connect_cb}
use e2f77dee9c9d8e2bfbcafc.Console.Tags.{cmd_tag}
use e2f77dee9c9d8e2bfbcafc.Console.Refusals.{cmd_tag-no_tag, llcp_connect_cb_out}
use e2f77dee9c9d8e2bfbcafc.Console.Printing.{process_ndef-fuel}
use e2f77dee9c9d8e2bfbcafc.Console.ReadBack.{flags_of}
use e2f77dee9c9d8e2bfbcafc.Console.BuildLaws.{IsEncoded, plain_record, build_ndef_msg_plain}
use e2f77dee9c9d8e2bfbcafc.Console.RecordText.{Entry, IsEntry, text, texts, parse_ndef_msg-text}
use e2f77dee9c9d8e2bfbcafc.Tests.{zeros}

-- "U" and "abc" in base64.
abbrev type_chars : List ℕ
type_chars = codes "VQ=="

abbrev payload_chars : List ℕ
payload_chars = codes "YWJj"

type_chars-IsEncoded : IsEncoded type_chars 0x55 []
unfolding encode_base64 symbol
type_chars-IsEncoded = record {
  room = 4;
  enough = omega arith;
  encoded = refl;
  whole = refl;
  byte = omega arith;
  bytes = omega arith;
}

payload_chars-IsEncoded : IsEncoded payload_chars 0x61 (0x62 ∷ 0x63 ∷ [])
unfolding encode_base64 symbol
payload_chars-IsEncoded = record {
  room = 4;
  enough = omega arith;
  encoded = refl;
  whole = refl;
  byte = omega arith;
  bytes = omega arith;
}

build_ndef_msg_plain_example :
    (b' : Buf) × (build_ndef_msg (plain_record true 1 type_chars payload_chars ∷ []) zeros 8 64
      ≡ ok (some (b', Ndef.rec_len b' 8)))
    × (b' 8 ≡ bit_or (flags_of true) 1 % 256)
    × (Ndef.type_len b' 8 ≡ 1)
    × (read b' (Ndef.rec_type b' 8) (Ndef.type_len b' 8) ≡ 0x55 ∷ [])
    × (Ndef.payload_len b' 8 ≡ 3)
    × (read b' (Ndef.payload b' 8) (Ndef.payload_len b' 8) ≡ 0x61 ∷ 0x62 ∷ 0x63 ∷ [])
    × (Ndef.id_len b' 8 ≡ 0)
build_ndef_msg_plain_example =
    build_ndef_msg_plain true 1 type_chars 0x55 [] payload_chars 0x61 (0x62 ∷ 0x63 ∷ []) zeros 8 64
      (omega arith) type_chars-IsEncoded payload_chars-IsEncoded (omega arith) (omega arith)
      (omega arith) (omega arith)

abbrev entry : Entry
entry = record {
  flags_text = codes "0x10";
  tnf_text = codes "1";
  param = plain_record true 1 type_chars payload_chars;
}

entry-IsEntry : IsEntry entry
unfolding strtoul is_empty
entry-IsEntry = record {
  flags_read = refl;
  flags_bits = refl;
  tnf_read = refl;
  tnf_small = omega arith;
  type_full = refl;
  payload_full = refl;
  flags_free = (refl, (refl, (refl, (refl, tt))));
  tnf_free = (refl, tt);
  type_free = (refl, (refl, (refl, (refl, tt))));
  id_free = tt;
  payload_free = (refl, (refl, (refl, (refl, tt))));
}

entry-text : text entry [] ≡ codes "[0x10,1,VQ==,,YWJj]"
entry-text = refl

parse_ndef_msg-text_example : parse_ndef_msg (some (texts (entry ∷ entry ∷ []))) 4 ≡ (
    if leb (length (entry ∷ entry ∷ [])) 4
    then some (map (λ e. e.param) (entry ∷ entry ∷ []))
    else none)
parse_ndef_msg-text_example =
    parse_ndef_msg-text (entry ∷ entry ∷ []) 4 (entry-IsEntry, (entry-IsEntry, tt))

abbrev memory : Memory
memory = record { packet = zeros; fresh = λ k. zeros; array = zeros; left = zeros; behind = zeros }

-- The first endpoint of the table, a peer.
abbrev peer : Re
unfolding init_re
peer =
    init_re RfProtocol.nfc_dep TechMode.f_passive_listen none (nfcid_text 0x30)
      (0x01 ∷ 0xfe ∷ 0 ∷ 0 ∷ 0 ∷ 0 ∷ 0 ∷ 0 ∷ [])

cmd_tag-no_tag_example :
    (cmd_tag (some (codes "set " ++ codes "0")) boot memory ≡ ok (failed boot))
    × (cmd_tag (some (codes "clear " ++ codes "0")) boot memory ≡ fault null)
    × (cmd_tag (some (codes "format " ++ codes "0")) boot memory ≡ fault null)
unfolding boot parse_re_index init_re
cmd_tag-no_tag_example = cmd_tag-no_tag (codes "0") boot memory 0 none peer refl refl refl

abbrev active : System
unfolding boot
active = record boot { nfc = record (boot.nfc) { active_re = some 0 } }

llcp_connect_cb_out_example :
    (llcp_connect_cb active (negsuc 0) (pos 4) memory ≡ fault bounds)
    × (llcp_connect_cb active (pos 4) (negsuc 0) memory ≡ fault bounds)
unfolding boot init_re
llcp_connect_cb_out_example =
    llcp_connect_cb_out active memory 0 4 peer refl refl (omega arith) (omega arith)

process_ndef-fuel_example : process_ndef 9 9 zeros 0 ≡ process_ndef 20 9 zeros 0
process_ndef-fuel_example = process_ndef-fuel 9 20 9 zeros 0 (omega arith) (omega arith)
