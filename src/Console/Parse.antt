-- ===== src/Console/Parse.antt =====
-- The arguments of the console commands: the `parse_*` functions of src/cmdline.c.
use e2f77dee9c9d8e2bfbcafc.Base.{
  ℕ, zero, suc, ◌-◌, Bool, true, false, not, ◌&&◌, Option, none, some, List, [], ◌∷◌, ltb, ◌==◌,
  if◌then◌else◌, bit_and,
}
use e2f77dee9c9d8e2bfbcafc.Console.{
  Args, ◌>>=◌, ◌>>◌, guard, strsep, blank, blank_or_comma, is_empty, ℤ, pos, negsuc, parse_token_l,
  parse_token_ul, parse_token_s,
}

-- A number from -1 to below `limit`.
unfoldable pub in_range : ℤ → ℕ → Bool
in_range (pos n) limit = ltb n limit
in_range (negsuc n) limit = n == 0

unfoldable pub is_minus_one : ℤ → Bool
is_minus_one (pos n) = false
is_minus_one (negsuc n) = n == 0

unfoldable pub parse_sap : Args → Bool → Option (ℤ × Args)
unfolding parse_token_l in_range is_minus_one
parse_sap args can_autodetect = do
  (sap, rest) ← parse_token_l blank args
  guard (not (is_minus_one sap && not can_autodetect) && in_range sap 64)
  some (sap, rest)

-- `struct nfc_ndef_record_param`
pub record NdefParam : Type 0 where
  pub flags : ℕ
  pub tnf : ℕ
  pub type : List ℕ
  pub id : List ℕ
  pub payload : List ℕ

-- `NDEF_FLAG_BITS` is 0xf8.
unfoldable pub parse_ndef_rec : Args → Option (NdefParam × Args)
unfolding strsep parse_token_ul parse_token_s
parse_ndef_rec args = do
  let (opening, rest) = strsep (λ c. c == 0x5b) args
  _ ← opening
  (flags, rest₁) ← parse_token_ul blank_or_comma rest
  guard (flags - bit_and flags 0xf8 == 0)
  (tnf, rest₂) ← parse_token_ul blank_or_comma rest₁
  guard (ltb tnf 8)
  (type, rest₃) ← parse_token_s blank_or_comma rest₂ false
  (id, rest₄) ← parse_token_s blank_or_comma rest₃ true
  (payload, rest₅) ← parse_token_s (λ c. c == 0x5d) rest₄ false
  some (record { flags = flags; tnf = tnf; type = type; id = id; payload = payload }, rest₅)

-- `*args && strlen(*args)`
unfoldable pub more : Args → Bool
unfolding is_empty
more none = false
more (some line) = not (is_empty line)

-- At most `nrecs` records, and nothing behind them.
unfoldable pub parse_ndef_msg : Args → ℕ → Option (List NdefParam)
unfolding more parse_ndef_rec
parse_ndef_msg args zero = do guard (not (more args)); some []
parse_ndef_msg args (suc nrecs) =
    if more args
    then (do
      (param, rest) ← parse_ndef_rec args
      params ← parse_ndef_msg rest nrecs
      some (param ∷ params))
    else some []

unfoldable pub below : ℕ → Args → Option (ℕ × Args)
unfolding parse_token_ul
below limit args = do
  (val, rest) ← parse_token_ul blank args
  guard (ltb val limit)
  some (val, rest)

unfoldable pub parse_re_index : Args → ℕ → Option (ℕ × Args)
unfolding below
parse_re_index args nres = below nres args

unfoldable pub parse_nci_ntf_type : Args → Option (ℕ × Args)
unfolding below
parse_nci_ntf_type args = below 3 args

-- One index for each of the eight RF interfaces, or -1.
unfoldable pub parse_rf_index : Args → Option (ℤ × Args)
unfolding parse_token_l in_range
parse_rf_index args = do
  (rf, rest) ← parse_token_l blank args
  guard (in_range rf 8)
  some (rf, rest)

unfoldable pub parse_nci_deactivate_ntf_type : Args → Option (ℕ × Args)
unfolding below
parse_nci_deactivate_ntf_type args = below 4 args

unfoldable pub parse_nci_deactivate_ntf_reason : Args → Option (ℕ × Args)
unfolding below
parse_nci_deactivate_ntf_reason args = below 4 args
