-- ===== src/Console/Safe.antt =====
-- What the commands for the data links do to the invariant of the controller.
use e2f77dee9c9d8e2bfbcafc.Base.{
  ℕ, zero, suc, ◌<◌, refl, sym, subst, arith, Bool, Option, none, some, List, [], ◌∷◌, length,
  get_elem?, set, length-set, Result, ok, fault, within, ◌>>=◌, Keeps, >>=-Keeps_any, if-Keeps,
  ◌||◌,
}
use e2f77dee9c9d8e2bfbcafc.Re.{Re}
use e2f77dee9c9d8e2bfbcafc.Re.Send.{Sent, re_send_llcp_connect, re_send_snep_put}
use e2f77dee9c9d8e2bfbcafc.System.{System}
use e2f77dee9c9d8e2bfbcafc.Nci.Machine.{DeviceIsValid, ValidIn, IsValid}
use e2f77dee9c9d8e2bfbcafc.Console.{Args, codes, ℤ}
use e2f77dee9c9d8e2bfbcafc.Console.Parse.{NdefParam, parse_ndef_msg}
use e2f77dee9c9d8e2bfbcafc.Console.Message.{Printed, create_snep_cp}
use e2f77dee9c9d8e2bfbcafc.Console.Commands.{Done, Memory, failed, finished, str_eq, operation}
use e2f77dee9c9d8e2bfbcafc.Console.Links.{
  to_uchar, to_enum, with_sent, autodetect, is_zero, llcp_connect_cb, send_snep_put_cb,
  recv_snep_put_cb, parse_saps, cmd_llcp, cmd_snep,
}
use e2f77dee9c9d8e2bfbcafc.Console.Ranges.{Known}

-- A command that ends keeps the invariant and the state of the device's machine.
abbrev pub Safe : System → Result Done → Type 0
Safe sys m = Keeps m (λ d. ValidIn sys.nfc.state d.sys)

within_next :
    {A : Type 0} (o : Option A) (i n : ℕ)
    → Keeps (within o) (λ _. i < n)
    → Keeps (within o) (λ _. suc i < suc n)
within_next none i n h = tt
within_next (some a) i n h = omega arith

pub within-Keeps :
    {A : Type 0} (xs : List A) (i : ℕ) → Keeps (within (get_elem? xs i)) (λ _. i < length xs)
within-Keeps [] i = tt
within-Keeps (x ∷ xs) zero = omega arith
within-Keeps (x ∷ xs) (suc i) = within_next (get_elem? xs i) i (length xs) (within-Keeps xs i)

-- A value that may be missing: then the command fails at once.
pub option-Safe :
    {A : Type 0} (sys : System) (o : Option A) (f : A → Result Done)
    → IsValid sys
    → ((a : A) → Safe sys (f a))
    → Safe sys (elim o [ none ↦ ok (failed sys) | some a ↦ f a ])
option-Safe sys none f v h = (refl, v)
option-Safe sys (some a) f v h = h a

pub Known-Safe :
    {A : Type 0} (sys : System) (P : A → Type 0) (o : Option A) (f : A → Result Done)
    → IsValid sys
    → Known P o
    → ((a : A) → P a → Safe sys (f a))
    → Safe sys (elim o [ none ↦ ok (failed sys) | some a ↦ f a ])
Known-Safe sys P none f v h k = (refl, v)
Known-Safe sys P (some a) f v h k = k a h

pub with_res-Valid :
    (sys : System) (i : ℕ) (re : Re)
    → IsValid sys
    → DeviceIsValid (length (set sys.res i re)) sys.nfc
with_res-Valid sys i re v = subst (λ n. DeviceIsValid n sys.nfc) (sym (length-set sys.res i re)) v

llcp_connect_cb-Safe :
    (sys : System) (dsap ssap : ℤ) (memory : Memory)
    → IsValid sys
    → Safe sys (llcp_connect_cb sys dsap ssap memory)
unfolding llcp_connect_cb
llcp_connect_cb-Safe sys dsap ssap memory v = option-Safe sys sys.nfc.active_re _ v λ i.
    >>=-Keeps_any (within (get_elem? sys.res i)) _ _ λ re.
      let (d, s) = autodetect re dsap ssap in
      if-Keeps (is_zero d || is_zero s) _ _ _ (refl, v)
        (>>=-Keeps_any
          (re_send_llcp_connect re sys.events (to_uchar d) (to_uchar s) memory.packet
            (memory.fresh 0))
          _ _ λ sent. (refl, with_res-Valid sys i sent.re v))

pub cmd_llcp-Safe :
    (args : Args) (sys : System) (memory : Memory)
    → IsValid sys
    → Safe sys (cmd_llcp args sys memory)
unfolding cmd_llcp
cmd_llcp-Safe none sys memory v = (refl, v)
cmd_llcp-Safe (some line) sys memory v =
    let (p, args) = operation line in
    if-Keeps (str_eq p (codes "connect")) _ _ _
      (option-Safe sys (parse_saps args) _ v λ x. llcp_connect_cb-Safe sys x.0 x.1 memory v)
      (refl, v)

put_result-Safe :
    (sys : System) (i : ℕ) (r : Option Sent)
    → IsValid sys
    → ValidIn sys.nfc.state
        (elim r as (λ _. Done) [
          | none ↦ failed sys
          | some sent ↦ finished (with_sent sys i sent) sent.packet
        ]).sys
put_result-Safe sys i none v = (refl, v)
put_result-Safe sys i (some sent) v = (refl, with_res-Valid sys i sent.re v)

send_snep_put_cb-Safe :
    (sys : System) (dsap ssap : ℤ) (params : List NdefParam) (memory : Memory)
    → IsValid sys
    → Safe sys (send_snep_put_cb sys dsap ssap params memory)
unfolding send_snep_put_cb
send_snep_put_cb-Safe sys dsap ssap params memory v = option-Safe sys sys.nfc.active_re _ v λ i.
    >>=-Keeps_any (within (get_elem? sys.res i)) _ _ λ re.
      let (d, s) = autodetect re dsap ssap in
      >>=-Keeps_any
        (re_send_snep_put (create_snep_cp params memory.left) re sys.events (to_enum d) (to_enum s)
          memory.packet memory.fresh)
        _ _ (λ r. put_result-Safe sys i r v)

printed-Safe :
    (sys : System) (m : Result (List Printed × Bool))
    → IsValid sys
    → Safe sys (m >>= λ r. ok (record { sys = sys; packet = none; printed = r.0; success = r.1 }))
printed-Safe sys (ok r) v = (refl, v)
printed-Safe sys (fault e) v = tt

recv_snep_put_cb-Safe :
    (sys : System) (dsap ssap : ℤ) (memory : Memory)
    → IsValid sys
    → Safe sys (recv_snep_put_cb sys dsap ssap memory)
unfolding recv_snep_put_cb
recv_snep_put_cb-Safe sys dsap ssap memory v =
    option-Safe sys sys.nfc.active_re _ v
      λ i. >>=-Keeps_any (within (get_elem? sys.res i)) _ _ λ re. printed-Safe sys _ v

records-Safe :
    (sys : System) (dsap ssap : ℤ) (params : List NdefParam) (memory : Memory)
    → IsValid sys
    → Safe sys (elim params [
      | [] ↦ recv_snep_put_cb sys dsap ssap memory
      | param ∷ rest ↦ send_snep_put_cb sys dsap ssap (param ∷ rest) memory
    ])
records-Safe sys dsap ssap [] memory v = recv_snep_put_cb-Safe sys dsap ssap memory v
records-Safe sys dsap ssap (param ∷ rest) memory v =
    send_snep_put_cb-Safe sys dsap ssap (param ∷ rest) memory v

pub cmd_snep-Safe :
    (args : Args) (sys : System) (memory : Memory)
    → IsValid sys
    → Safe sys (cmd_snep args sys memory)
unfolding cmd_snep
cmd_snep-Safe none sys memory v = (refl, v)
cmd_snep-Safe (some line) sys memory v =
    let (p, args) = operation line in
    if-Keeps (str_eq p (codes "put")) _ _ _
      (option-Safe sys (parse_saps args) _ v λ x.
        option-Safe sys (parse_ndef_msg x.2 4) _ v
          λ params. records-Safe sys x.0 x.1 params memory v)
      (refl, v)
