-- ===== src/Console/Printing.antt =====
-- The loop that prints a message always comes to its end.
use e2f77dee9c9d8e2bfbcafc.Base.{
  ℕ, zero, suc, ◌+◌, ◌-◌, ◌≤◌, ◌≡◌, refl, sym, ap, ◌∙◌, arith, true, false, List, [], ◌∷◌, ltb,
  Bool, Result, ok, ◌>>=◌,
}
use e2f77dee9c9d8e2bfbcafc.Memory.{Buf}
use e2f77dee9c9d8e2bfbcafc.Ndef.{rec_len}
use e2f77dee9c9d8e2bfbcafc.Console.Message.{Printed, print_record, process_ndef}

rec_len-ge : (b : Buf) (p : ℕ) → 3 ≤ rec_len b p
unfolding rec_len
rec_len-ge b p = ground arith

-- A round, with the rest of the loop as a function.
round : Buf → ℕ → ℕ → (ℕ → ℕ → Result (List Printed × Bool)) → Result (List Printed × Bool)
round b p remain rest = do
  printed ← print_record b p
  (more, done) ← (elim (ltb remain (rec_len b p)) [
    | true ↦ ok ([], false)
    | false ↦ rest (remain - rec_len b p) (p + rec_len b p)
  ])
  ok (printed ∷ more, done)

process_ndef-round :
    (fuel remain : ℕ) (b : Buf) (p : ℕ)
    → process_ndef (suc fuel) (suc remain) b p
      ≡ round b p (suc remain) (λ m q. process_ndef fuel m b q)
unfolding process_ndef round
process_ndef-round fuel remain b p = refl

round_same :
    (b : Buf) (p remain : ℕ) (f g : ℕ → ℕ → Result (List Printed × Bool))
    → f (remain - rec_len b p) (p + rec_len b p) ≡ g (remain - rec_len b p) (p + rec_len b p)
    → round b p remain f ≡ round b p remain g
unfolding round
round_same b p remain f g e =
    ap
      (λ (x : Result (List Printed × Bool)). print_record b p >>= λ printed.
        (elim (ltb remain (rec_len b p)) [ true ↦ ok ([], false) | false ↦ x ])
        >>= λ (r : List Printed × Bool). ok (printed ∷ r.0, r.1))
      e

process_ndef-zero : (fuel : ℕ) (b : Buf) (p : ℕ) → process_ndef fuel 0 b p ≡ ok ([], true)
unfolding process_ndef
process_ndef-zero zero b p = refl
process_ndef-zero (suc fuel) b p = refl

-- Whatever the bytes are, fuel for their number is enough to print them: any two amounts of fuel that
-- are at least that number print the same and have the same result.
pub process_ndef-fuel :
    (fuel other remain : ℕ) (b : Buf) (p : ℕ)
    → remain ≤ fuel
    → remain ≤ other
    → process_ndef fuel remain b p ≡ process_ndef other remain b p
process_ndef-fuel fuel other zero b p h k =
    process_ndef-zero fuel b p ∙ sym (process_ndef-zero other b p)
process_ndef-fuel (suc fuel) (suc other) (suc remain) b p h k =
    let n = rec_len b p in
    let low = rec_len-ge b p in
    process_ndef-round fuel remain b p
    ∙ round_same b p (suc remain) _ _ (
        process_ndef-fuel fuel other (suc remain - n) b (p + n) (omega (arith, low))
          (omega (arith, low)))
    ∙ sym (process_ndef-round other remain b p)
process_ndef-fuel zero other (suc remain) b p h k = absurd (omega arith)
process_ndef-fuel (suc fuel) zero (suc remain) b p h k = absurd (omega arith)
