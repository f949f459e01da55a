-- ===== src/Console/Notify.antt =====
-- The commands that send notifications: `nfc_cmd_nci` of src/cmdline.c.
use e2f77dee9c9d8e2bfbcafc.Base.{
  ℕ, Option, none, some, get_elem?, set, if◌then◌else◌, Result, ok, within, ◌>>=◌,
}
use e2f77dee9c9d8e2bfbcafc.Device.{find_rf_by_protocol_and_mode}
use e2f77dee9c9d8e2bfbcafc.Re.{Re, clear_re}
use e2f77dee9c9d8e2bfbcafc.System.{System}
use e2f77dee9c9d8e2bfbcafc.Nci.Notify.{
  create_rf_discovery_ntf, create_rf_intf_activated_ntf, create_deactivate_ntf,
}
use e2f77dee9c9d8e2bfbcafc.Console.{Args, codes, strsep, ℤ, pos, negsuc}
use e2f77dee9c9d8e2bfbcafc.Console.Parse.{
  more, parse_re_index, parse_nci_ntf_type, parse_rf_index, parse_nci_deactivate_ntf_type,
  parse_nci_deactivate_ntf_reason,
}
use e2f77dee9c9d8e2bfbcafc.Console.Commands.{Done, Memory, failed, finished, str_eq, operation}

unfoldable pub rf_discovery_ntf_cb : System → ℕ → ℕ → Memory → Result Done
unfolding create_rf_discovery_ntf
rf_discovery_ntf_cb sys i type memory = do
  (sys', packet, len) ← create_rf_discovery_ntf sys i type memory.packet
  ok (finished sys' (some (packet, len)))

-- The active RF interface: the one there is, the one that fits the endpoint, or the one named.
unfoldable pub choose_rf : System → Re → ℤ → Result (Option ℕ)
unfolding find_rf_by_protocol_and_mode
choose_rf sys re rf = elim (sys.nfc.active_rf) [
  | some k ↦ ok (some k)
  | none ↦ elim rf [
    | negsuc n ↦ find_rf_by_protocol_and_mode sys.nfc re.rfproto re.mode
    | pos k ↦ ok (some k)
  ]
]

-- The endpoint that a command names, or the active one.
unfoldable pub target : Option ℕ → Option ℕ → Option ℕ
target (some i) active_re = some i
target none active_re = active_re

-- The endpoint is cleared before the choice, which may fail; `rf` is at least -1.
unfoldable pub rf_intf_activated_ntf_cb : System → Option ℕ → ℤ → Memory → Result Done
unfolding target clear_re choose_rf create_rf_intf_activated_ntf
rf_intf_activated_ntf_cb sys named rf memory = elim (target named sys.nfc.active_re) [
  | none ↦ ok (failed sys)
  | some i ↦ do
    re ← within (get_elem? sys.res i)
    let cleared = clear_re re
    let sys₁ = record sys { res = set sys.res i cleared }
    chosen ← choose_rf sys₁ cleared rf
    elim chosen [
      | none ↦ ok (failed sys₁)
      | some k ↦ do
        let nfc = record (sys₁.nfc) { active_rf = some k }
        (sys₂, packet, len) ←
            create_rf_intf_activated_ntf (record sys₁ { nfc = nfc }) i memory.packet
        ok (finished sys₂ (some (packet, len)))
    ]
]

unfoldable pub rf_intf_deactivate_ntf_cb : System → ℕ → ℕ → Memory → Done
unfolding create_deactivate_ntf
rf_intf_deactivate_ntf_cb sys type reason memory =
    finished sys (some (create_deactivate_ntf type reason memory.packet))

unfoldable pub cmd_discover : Args → System → Memory → Result Done
unfolding parse_re_index parse_nci_ntf_type rf_discovery_ntf_cb
cmd_discover args sys memory = elim (parse_re_index args 6) [
  | none ↦ ok (failed sys)
  | some (i, rest) ↦ elim (parse_nci_ntf_type rest) [
    | none ↦ ok (failed sys)
    | some (type, rest') ↦ rf_discovery_ntf_cb sys i type memory
  ]
]

-- -1 where no RF index is given.
unfoldable pub optional_rf : Args → Option ℤ
unfolding more parse_rf_index
optional_rf args =
    if more args
    then elim (parse_rf_index args) [ none ↦ none | some (rf, rest) ↦ some rf ]
    else some (negsuc 0)

unfoldable pub cmd_activate : Args → System → Memory → Result Done
unfolding more parse_re_index optional_rf rf_intf_activated_ntf_cb
cmd_activate args sys memory =
    if more args
    then elim (parse_re_index args 6) [
      | none ↦ ok (failed sys)
      | some (i, rest) ↦ elim (optional_rf rest) [
        | none ↦ ok (failed sys)
        | some rf ↦ rf_intf_activated_ntf_cb sys (some i) rf memory
      ]
    ]
    else rf_intf_activated_ntf_cb sys none (negsuc 0) memory

unfoldable pub cmd_deactivate : Args → System → Memory → Result Done
unfolding more parse_nci_deactivate_ntf_type parse_nci_deactivate_ntf_reason
    rf_intf_deactivate_ntf_cb
cmd_deactivate args sys memory =
    if more args
    then elim (parse_nci_deactivate_ntf_type args) [
      | none ↦ ok (failed sys)
      | some (type, rest) ↦ elim (parse_nci_deactivate_ntf_reason rest) [
        | none ↦ ok (failed sys)
        | some (reason, rest') ↦ ok (rf_intf_deactivate_ntf_cb sys type reason memory)
      ]
    ]
    else ok (rf_intf_deactivate_ntf_cb sys 0x03 0x02 memory)

unfoldable pub cmd_nci : Args → System → Memory → Result Done
unfolding strsep str_eq cmd_discover cmd_activate cmd_deactivate
cmd_nci none sys memory = ok (failed sys)
cmd_nci (some line) sys memory =
    let (p, args) = operation line in
    if str_eq p (codes "rf_discover_ntf")
    then cmd_discover args sys memory
    else (if str_eq p (codes "rf_intf_activated_ntf")
        then cmd_activate args sys memory
        else (if str_eq p (codes "rf_intf_deactivate_ntf")
            then cmd_deactivate args sys memory
            else ok (failed sys)))
