-- ===== src/Console/Ranges.antt =====
-- What the parsers of the console let pass.
use e2f77dee9c9d8e2bfbcafc.Base.{◌<◌, arith, Option, none, some, ltb, ◌==◌, Bool-cases, inl, inr}
use e2f77dee9c9d8e2bfbcafc.Console.{Args, ◌>>=◌, ◌>>◌, guard, ℤ, pos, negsuc, blank, parse_token_l}
use e2f77dee9c9d8e2bfbcafc.Console.Parse.{in_range, parse_rf_index, more}
use e2f77dee9c9d8e2bfbcafc.Console.Notify.{optional_rf}

-- A value that may be missing, of which something is known.
abbrev pub Known {ℓ} : {A : Type ℓ} → (A → Type 0) → Option A → Type 0
Known P none = Unit {0}
Known P (some a) = P a

-- An RF index of a command: -1, or one of the eight entries.
abbrev pub IsRf : ℤ → Type 0
IsRf (pos k) = k < 8
IsRf (negsuc n) = Unit {0}

guarded-Known :
    (o : Option (ℤ × Args))
    → Known (λ (x : ℤ × Args). IsRf x.0) (o >>= λ x. guard (in_range x.0 8) >> some (x.0, x.1))
unfolding in_range
guarded-Known none = tt
guarded-Known (some (pos k, rest)) = elim (Bool-cases (ltb k 8)) [
  | inl h ↦ rw h (ground arith)
  | inr h ↦ rw h tt
]
guarded-Known (some (negsuc n, rest)) = elim (Bool-cases (n == 0)) [
  | inl h ↦ rw h tt
  | inr h ↦ rw h tt
]

parse_rf_index-Known : (args : Args) → Known (λ (x : ℤ × Args). IsRf x.0) (parse_rf_index args)
unfolding parse_rf_index
parse_rf_index-Known args = guarded-Known (parse_token_l blank args)

value-Known :
    (o : Option (ℤ × Args))
    → Known (λ (x : ℤ × Args). IsRf x.0) o
    → Known IsRf (elim o [ none ↦ none | some (rf, rest) ↦ some rf ])
value-Known none h = tt
value-Known (some (rf, rest)) h = h

pub optional_rf-Known : (args : Args) → Known IsRf (optional_rf args)
unfolding optional_rf
optional_rf-Known args = elim (Bool-cases (more args)) [
  | inl h ↦ rw h (value-Known (parse_rf_index args) (parse_rf_index-Known args))
  | inr h ↦ rw h tt
]
