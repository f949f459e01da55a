-- ===== src/Console/Invariant.antt =====
-- What the console commands do to the invariant of the controller.
use e2f77dee9c9d8e2bfbcafc.Base.{
  ℕ, ◌<◌, refl, sym, subst, Option, none, some, List, [], length, get_elem?, set, length-set,
  Result, ok, within, deref, ◌>>=◌, Keeps, >>=-Keeps, >>=-Keeps_any, if-Keeps,
}
use e2f77dee9c9d8e2bfbcafc.Memory.{read}
use e2f77dee9c9d8e2bfbcafc.Rf.{rf_init}
use e2f77dee9c9d8e2bfbcafc.Re.{Re, clear_re}
use e2f77dee9c9d8e2bfbcafc.Tag.{Tag}
use e2f77dee9c9d8e2bfbcafc.System.{System}
use e2f77dee9c9d8e2bfbcafc.Nci.Machine.{InTable, ValidIn, IsValid, found_rf-InTable}
use e2f77dee9c9d8e2bfbcafc.Nci.Discovery.{
  create_rf_discovery_ntf-Valid, create_rf_intf_activated_ntf-Valid,
}
use e2f77dee9c9d8e2bfbcafc.Nci.Notify.{create_rf_discovery_ntf, create_rf_intf_activated_ntf}
use e2f77dee9c9d8e2bfbcafc.Console.{Args, codes, ℤ, pos, negsuc}
use e2f77dee9c9d8e2bfbcafc.Console.Parse.{
  NdefParam, more, parse_re_index, parse_nci_ntf_type, parse_ndef_msg,
  parse_nci_deactivate_ntf_type, parse_nci_deactivate_ntf_reason,
}
use e2f77dee9c9d8e2bfbcafc.Console.Message.{build_ndef_msg}
use e2f77dee9c9d8e2bfbcafc.Console.Commands.{Memory, failed, finished, str_eq, operation}
use e2f77dee9c9d8e2bfbcafc.Console.Notify.{
  choose_rf, target, rf_discovery_ntf_cb, rf_intf_activated_ntf_cb, cmd_discover, optional_rf,
  cmd_activate, cmd_deactivate, cmd_nci,
}
use e2f77dee9c9d8e2bfbcafc.Console.Ranges.{IsRf, optional_rf-Known}
use e2f77dee9c9d8e2bfbcafc.Console.Run.{Command, run_command}
use e2f77dee9c9d8e2bfbcafc.Tag.Store.{tag_set_data, tag_format}
use e2f77dee9c9d8e2bfbcafc.Console.Tags.{
  with_tag, set_message, cmd_tag_set, cmd_tag_change, cmd_tag,
}
use e2f77dee9c9d8e2bfbcafc.Console.Safe.{
  Safe, within-Keeps, option-Safe, Known-Safe, with_res-Valid, cmd_llcp-Safe, cmd_snep-Safe,
}

rf_discovery_ntf_cb-Safe :
    (sys : System) (i type : ℕ) (memory : Memory)
    → IsValid sys
    → Safe sys (rf_discovery_ntf_cb sys i type memory)
unfolding rf_discovery_ntf_cb
rf_discovery_ntf_cb-Safe sys i type memory v =
    >>=-Keeps (create_rf_discovery_ntf sys i type memory.packet) _ _ _
      (create_rf_discovery_ntf-Valid sys i type memory.packet v) λ r h. h

active_or-InTable :
    (n : ℕ) (o : Option ℕ) (rest : Result (Option ℕ))
    → InTable n o
    → Keeps rest (InTable n)
    → Keeps (elim o [ some k ↦ ok (some k) | none ↦ rest ]) (InTable n)
active_or-InTable n none rest h k = k
active_or-InTable n (some i) rest h k = h

choose_rf-InTable :
    (sys : System) (re : Re) (rf : ℤ)
    → IsValid sys
    → IsRf rf
    → Keeps (choose_rf sys re rf) (InTable (length sys.nfc.rf))
unfolding choose_rf rf_init
choose_rf-InTable sys re (pos k) v h =
    active_or-InTable (length sys.nfc.rf) sys.nfc.active_rf _ v.5
      (subst (λ t. k < length t) (sym (v.2)) h)
choose_rf-InTable sys re (negsuc n) v h =
    active_or-InTable (length sys.nfc.rf) sys.nfc.active_rf _ v.5 (found_rf-InTable sys.nfc re)

rf_intf_activated_ntf_cb-Safe :
    (sys : System) (named : Option ℕ) (rf : ℤ) (memory : Memory)
    → IsValid sys
    → IsRf rf
    → Safe sys (rf_intf_activated_ntf_cb sys named rf memory)
unfolding rf_intf_activated_ntf_cb
rf_intf_activated_ntf_cb-Safe sys named rf memory v h =
    option-Safe sys (target named sys.nfc.active_re) _ v λ i.
      >>=-Keeps (within (get_elem? sys.res i)) _ (λ _. i < length sys.res) _
        (within-Keeps sys.res i)
        λ re k.
          let sys₁ = record sys { res = set sys.res i (clear_re re) } in
          let v₁ : IsValid sys₁ = with_res-Valid sys i (clear_re re) v in
          let k₁ : i < length sys₁.res =
            subst (λ n. i < n) (sym (length-set sys.res i (clear_re re))) k in
          >>=-Keeps (choose_rf sys₁ (clear_re re) rf) _ (InTable (length sys.nfc.rf)) _
            (choose_rf-InTable sys₁ (clear_re re) rf v₁ h)
            λ o w. activated-Safe sys₁ i memory o v₁ k₁ w
  where
    activated-Safe :
        (sys₁ : System) (i : ℕ) (memory : Memory) (o : Option ℕ)
        → IsValid sys₁
        → i < length sys₁.res
        → InTable (length sys₁.nfc.rf) o
        → Safe sys₁ (elim o [
          | none ↦ ok (failed sys₁)
          | some k ↦
              create_rf_intf_activated_ntf
                (record sys₁ { nfc = record (sys₁.nfc) { active_rf = some k } })
                i
                memory.packet
              >>= λ r. ok (finished (r.0) (some (r.1, r.2)))
        ])
    activated-Safe sys₁ i memory none v k w = (refl, v)
    activated-Safe sys₁ i memory (some j) v k w =
        let sys₂ = record sys₁ { nfc = record (sys₁.nfc) { active_rf = some j } } in
        >>=-Keeps (create_rf_intf_activated_ntf sys₂ i memory.packet) _ _ _
          (create_rf_intf_activated_ntf-Valid sys₂ i memory.packet (v.0, v.1, v.2, v.3, v.4, w) k)
          λ r e. e

cmd_discover-Safe :
    (args : Args) (sys : System) (memory : Memory)
    → IsValid sys
    → Safe sys (cmd_discover args sys memory)
unfolding cmd_discover
cmd_discover-Safe args sys memory v = option-Safe sys (parse_re_index args 6) _ v λ x.
    option-Safe sys (parse_nci_ntf_type x.1) _ v λ y. rf_discovery_ntf_cb-Safe sys x.0 y.0 memory v

cmd_activate-Safe :
    (args : Args) (sys : System) (memory : Memory)
    → IsValid sys
    → Safe sys (cmd_activate args sys memory)
unfolding cmd_activate
cmd_activate-Safe args sys memory v =
    if-Keeps (more args) _ _ _
      (option-Safe sys (parse_re_index args 6) _ v λ x.
        Known-Safe sys IsRf (optional_rf x.1) _ v (optional_rf-Known x.1)
          λ rf h. rf_intf_activated_ntf_cb-Safe sys (some x.0) rf memory v h)
      (rf_intf_activated_ntf_cb-Safe sys none (negsuc 0) memory v tt)

cmd_deactivate-Safe :
    (args : Args) (sys : System) (memory : Memory)
    → IsValid sys
    → Safe sys (cmd_deactivate args sys memory)
unfolding cmd_deactivate
cmd_deactivate-Safe args sys memory v =
    if-Keeps (more args) _ _ _
      (option-Safe sys (parse_nci_deactivate_ntf_type args) _ v
        λ x. option-Safe sys (parse_nci_deactivate_ntf_reason x.1) _ v λ y. (refl, v))
      (refl, v)

cmd_nci-Safe :
    (args : Args) (sys : System) (memory : Memory)
    → IsValid sys
    → Safe sys (cmd_nci args sys memory)
unfolding cmd_nci
cmd_nci-Safe none sys memory v = (refl, v)
cmd_nci-Safe (some line) sys memory v =
    let (p, args) = operation line in
    if-Keeps (str_eq p (codes "rf_discover_ntf")) _ _ _ (cmd_discover-Safe args sys memory v) (
      if-Keeps (str_eq p (codes "rf_intf_activated_ntf")) _ _ _
        (cmd_activate-Safe args sys memory v)
        (if-Keeps (str_eq p (codes "rf_intf_deactivate_ntf")) _ _ _
          (cmd_deactivate-Safe args sys memory v) (refl, v)))

with_tag-Safe :
    (sys : System) (tag : Option ℕ) (change : Tag → Result Tag)
    → IsValid sys
    → Safe sys (with_tag sys tag change)
unfolding with_tag
with_tag-Safe sys tag change v = >>=-Keeps_any (deref tag) _ _ λ t.
    >>=-Keeps_any (within (get_elem? sys.tags t)) _ _
      λ old. >>=-Keeps_any (change old) _ _ λ new. (refl, v)

set_message-Safe :
    (sys : System) (tag : Option ℕ) (params : List NdefParam) (memory : Memory)
    → IsValid sys
    → Safe sys (set_message sys tag params memory)
unfolding set_message
set_message-Safe sys tag params memory v =
    >>=-Keeps_any (build_ndef_msg params memory.array 0 1024) _ _ λ r.
      option-Safe sys r _ v λ x. with_tag-Safe sys tag (λ t. tag_set_data t (read (x.0) 0 (x.1))) v

cmd_tag_change-Safe :
    (args : Args) (sys : System) (change : Tag → Result Tag)
    → IsValid sys
    → Safe sys (cmd_tag_change args sys change)
unfolding cmd_tag_change
cmd_tag_change-Safe args sys change v = option-Safe sys (parse_re_index args 6) _ v λ x.
    >>=-Keeps_any (within (get_elem? sys.res (x.0))) _ _ λ re. with_tag-Safe sys re.tag change v

cmd_tag_set-Safe :
    (args : Args) (sys : System) (memory : Memory)
    → IsValid sys
    → Safe sys (cmd_tag_set args sys memory)
unfolding cmd_tag_set
cmd_tag_set-Safe args sys memory v = option-Safe sys (parse_re_index args 6) _ v λ x.
    >>=-Keeps_any (within (get_elem? sys.res (x.0))) _ _ λ re. option-Safe sys re.tag _ v λ t.
      option-Safe sys (parse_ndef_msg (x.1) 4) _ v
        λ params. set_message-Safe sys (some t) params memory v

cmd_tag-Safe :
    (args : Args) (sys : System) (memory : Memory)
    → IsValid sys
    → Safe sys (cmd_tag args sys memory)
unfolding cmd_tag
cmd_tag-Safe none sys memory v = (refl, v)
cmd_tag-Safe (some line) sys memory v =
    let (p, args) = operation line in
    if-Keeps (str_eq p (codes "set")) _ _ _ (cmd_tag_set-Safe args sys memory v) (
      if-Keeps (str_eq p (codes "clear")) _ _ _
        (cmd_tag_change-Safe args sys (λ t. tag_set_data t []) v)
        (if-Keeps (str_eq p (codes "format")) _ _ _ (cmd_tag_change-Safe args sys tag_format v)
          (refl, v)))

-- Every console command that ends without a fault, whatever its line is, keeps the invariant and the
-- state of the device's machine.
pub run_command-Safe :
    (c : Command) (args : Args) (sys : System) (memory : Memory)
    → IsValid sys
    → Keeps (run_command c args sys memory) (λ d. ValidIn sys.nfc.state d.sys)
unfolding run_command
run_command-Safe Command.snep args sys memory v = cmd_snep-Safe args sys memory v
run_command-Safe Command.nci args sys memory v = cmd_nci-Safe args sys memory v
run_command-Safe Command.llcp args sys memory v = cmd_llcp-Safe args sys memory v
run_command-Safe Command.tag args sys memory v = cmd_tag-Safe args sys memory v
