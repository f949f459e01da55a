-- ===== src/Console/Commands.antt =====
-- What the console commands share: src/cmdline.c. The host calls the function that `cb.send_dta`,
-- `cb.send_ntf` or `cb.recv_dta` is given once, with the device, before it returns, and it returns a
-- negative number exactly if that function does.
use e2f77dee9c9d8e2bfbcafc.Base.{
  ℕ, Bool, true, false, ◌&&◌, Option, none, some, List, [], ◌∷◌, ◌==◌,
}
use e2f77dee9c9d8e2bfbcafc.Memory.{Buf}
use e2f77dee9c9d8e2bfbcafc.System.{System}
use e2f77dee9c9d8e2bfbcafc.Console.{Args, strsep, blank}
use e2f77dee9c9d8e2bfbcafc.Console.Message.{Printed}

-- What a command leaves: the state, the packet that the host got and what was printed of a message,
-- if any, and whether the result is 0 and not -1.
pub record Done : Type 0 where
  pub sys : System
  pub packet : Option (Buf × ℕ)
  pub printed : List Printed
  pub success : Bool

-- The memory that the code uses before it has stored anything there: the host's packet, the PDU
-- buffers that `malloc` returns, the array of `nfc_cmd_tag`, what a failed build leaves, and what lies
-- behind a link's receive buffer.
pub record Memory : Type 0 where
  pub packet : Buf
  pub fresh : ℕ → Buf
  pub array : Buf
  pub left : Buf
  pub behind : Buf

abbrev pub failed : System → Done
failed sys = record { sys = sys; packet = none; printed = []; success = false }

abbrev pub finished : System → Option (Buf × ℕ) → Done
finished sys packet = record { sys = sys; packet = packet; printed = []; success = true }

-- `!strcmp(p, q)`
unfoldable pub str_eq : List ℕ → List ℕ → Bool
str_eq [] [] = true
str_eq (x ∷ xs) (y ∷ ys) = x == y && str_eq xs ys
str_eq _ _ = false

-- The operation and its arguments; `args` is not null.
abbrev pub operation : List ℕ → List ℕ × Args
operation line = elim ((strsep blank (some line)).0) [
  | none ↦ ([], (strsep blank (some line)).1)
  | some p ↦ (p, (strsep blank (some line)).1)
]
