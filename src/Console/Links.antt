-- ===== src/Console/Links.antt =====
-- The commands for the data links: `nfc_cmd_llcp` and `nfc_cmd_snep` of src/cmdline.c.
use e2f77dee9c9d8e2bfbcafc.Base.{
  ℕ, ◌-◌, ◌%◌, ◌^◌, Bool, true, false, ◌||◌, Option, none, some, List, [], ◌∷◌, get_elem?, get_or,
  set, ◌==◌, if◌then◌else◌, Result, ok, within, ◌>>=◌,
}
use e2f77dee9c9d8e2bfbcafc.Re.{Re}
use e2f77dee9c9d8e2bfbcafc.Re.Send.{Sent, re_send_llcp_connect, re_send_snep_put, re_recv_snep_put}
use e2f77dee9c9d8e2bfbcafc.System.{System}
use e2f77dee9c9d8e2bfbcafc.Console.{Args, codes, strsep, ℤ, pos, negsuc}
use e2f77dee9c9d8e2bfbcafc.Console.Parse.{NdefParam, parse_sap, parse_ndef_msg}
use e2f77dee9c9d8e2bfbcafc.Console.Message.{create_snep_cp, recv_process_ndef}
use e2f77dee9c9d8e2bfbcafc.Console.Commands.{Done, Memory, failed, finished, str_eq, operation}

-- Both SAPs are -1: the last ones are taken.
unfoldable pub autodetect : Re → ℤ → ℤ → ℤ × ℤ
autodetect re (negsuc m) (negsuc n) = (pos re.last_dsap, pos re.last_ssap)
autodetect re dsap ssap = (dsap, ssap)

-- A `long` as an `unsigned char`, and as an `enum llcp_sap` of 32 bits.
abbrev pub to_uchar : ℤ → ℕ
to_uchar (pos n) = n % 256
to_uchar (negsuc n) = 255 - n % 256

abbrev pub to_enum : ℤ → ℕ
to_enum (pos n) = n % 2 ^ 32
to_enum (negsuc n) = 2 ^ 32 - 1 - n % 2 ^ 32

unfoldable pub is_zero : ℤ → Bool
is_zero (pos n) = n == 0
is_zero (negsuc n) = false

-- The endpoint with what sending has left.
abbrev pub with_sent : System → ℕ → Sent → System
with_sent sys i sent = record sys { res = set sys.res i sent.re; events = sent.events }

unfoldable pub llcp_connect_cb : System → ℤ → ℤ → Memory → Result Done
unfolding autodetect is_zero re_send_llcp_connect
llcp_connect_cb sys dsap ssap memory = elim (sys.nfc.active_re) [
  | none ↦ ok (failed sys)
  | some i ↦ do
    re ← within (get_elem? sys.res i)
    let (d, s) = autodetect re dsap ssap
    if is_zero d || is_zero s then ok (failed sys) else (do
      sent ←
          re_send_llcp_connect re sys.events (to_uchar d) (to_uchar s) memory.packet
            (memory.fresh 0)
      ok (finished (with_sent sys i sent) sent.packet))
]

-- The two SAPs of a command, each of which may be -1.
unfoldable pub parse_saps : Args → Option (ℤ × ℤ × Args)
unfolding parse_sap
parse_saps args = elim (parse_sap args true) [
  | none ↦ none
  | some (dsap, rest) ↦ elim (parse_sap rest true) [
    | none ↦ none
    | some (ssap, rest') ↦ some (dsap, ssap, rest')
  ]
]

unfoldable pub cmd_llcp : Args → System → Memory → Result Done
unfolding strsep str_eq parse_saps llcp_connect_cb
cmd_llcp none sys memory = ok (failed sys)
cmd_llcp (some line) sys memory =
    let (p, args) = operation line in
    if str_eq p (codes "connect")
    then elim (parse_saps args) [
      | none ↦ ok (failed sys)
      | some (dsap, ssap, rest) ↦ llcp_connect_cb sys dsap ssap memory
    ]
    else ok (failed sys)

unfoldable pub send_snep_put_cb : System → ℤ → ℤ → List NdefParam → Memory → Result Done
unfolding autodetect re_send_snep_put create_snep_cp
send_snep_put_cb sys dsap ssap params memory = elim (sys.nfc.active_re) [
  | none ↦ ok (failed sys)
  | some i ↦ do
    re ← within (get_elem? sys.res i)
    let (d, s) = autodetect re dsap ssap
    r ←
        re_send_snep_put (create_snep_cp params memory.left) re sys.events (to_enum d) (to_enum s)
          memory.packet memory.fresh
    ok (elim r [ none ↦ failed sys | some sent ↦ finished (with_sent sys i sent) sent.packet ])
]

-- `process` of `nfc_re_recv_snep_put` prints the link's buffer.
unfoldable pub recv_snep_put_cb : System → ℤ → ℤ → Memory → Result Done
unfolding autodetect re_recv_snep_put recv_process_ndef
recv_snep_put_cb sys dsap ssap memory = elim (sys.nfc.active_re) [
  | none ↦ ok (failed sys)
  | some i ↦ do
    re ← within (get_elem? sys.res i)
    let (d, s) = autodetect re dsap ssap
    (printed, success) ←
        re_recv_snep_put
          (λ len bytes. recv_process_ndef len (λ j. get_or bytes j (memory.behind j))) ([], false)
          re (to_enum d) (to_enum s)
    ok (record { sys = sys; packet = none; printed = printed; success = success })
]

-- With no record behind the SAPs the link's buffer is printed.
unfoldable pub cmd_snep : Args → System → Memory → Result Done
unfolding strsep str_eq parse_saps parse_ndef_msg send_snep_put_cb recv_snep_put_cb
cmd_snep none sys memory = ok (failed sys)
cmd_snep (some line) sys memory =
    let (p, args) = operation line in
    if str_eq p (codes "put")
    then elim (parse_saps args) [
      | none ↦ ok (failed sys)
      | some (dsap, ssap, rest) ↦ elim (parse_ndef_msg rest 4) [
        | none ↦ ok (failed sys)
        | some [] ↦ recv_snep_put_cb sys dsap ssap memory
        | some (param ∷ params) ↦ send_snep_put_cb sys dsap ssap (param ∷ params) memory
      ]
    ]
    else ok (failed sys)
