-- ===== src/Llcp/Link.antt =====
-- The receive buffer of a data link.
use e2f77dee9c9d8e2bfbcafc.Base.{
  ℕ, zero, suc, ◌≤◌, ◌<◌, ◌≡◌, refl, ap, sym, ◌∙◌, Bool-cases, inl, inr, List, [], ◌∷◌, arith,
  length, take, splice, length-splice, ltb, lt→ltb, ok, Returns, if◌then◌else◌,
}
use e2f77dee9c9d8e2bfbcafc.Llcp.{DataLink, dl_write_rbuf, dl_read_rbuf}

pub take-splice {ℓ} :
    {A : Type ℓ} (old value : List A) (n : ℕ)
    → n ≤ length value
    → length value ≤ length old
    → take n (splice old 0 value) ≡ take n value
take-splice old value zero h k = refl
take-splice old [] (suc n) h k = absurd (omega arith)
take-splice [] (v ∷ vs) (suc n) h k = absurd (omega arith)
take-splice (x ∷ xs) (v ∷ vs) (suc n) h k =
    ap (λ l. v ∷ l) (take-splice xs vs n (omega arith) (omega arith))

pub take_long {ℓ} : {A : Type ℓ} (xs : List A) (n : ℕ) → length xs ≤ n → take n xs ≡ xs
take_long [] zero h = refl
take_long [] (suc n) h = refl
take_long (x ∷ xs) zero h = absurd (omega arith)
take_long (x ∷ xs) (suc n) h = ap (λ l. x ∷ l) (take_long xs n (omega arith))

-- A read is cut to what was written.
take_cut {ℓ} :
    {A : Type ℓ} (old value : List A) (n : ℕ)
    → length value ≤ length old
    → take (if ltb n (length value) then n else length value) (splice old 0 value) ≡ take n value
take_cut old value n h = elim (Bool-cases (ltb n (length value))) [
  | inl lt ↦ rw lt (take-splice old value n (ground arith) h)
  | inr ge ↦ rw ge (
      take-splice old value (length value) (omega arith) h
      ∙ take_long value (length value) (omega arith)
      ∙ sym (take_long value n (ground arith)))
]

-- A link with a receive buffer of 256 bytes takes any message of at most 255 bytes. Then a read of
-- at most 255 bytes gives the message cut to the length asked for, and all other parts of the link
-- are as before.
pub dl_read_rbuf-dl_write_rbuf :
    (dl : DataLink) (bytes : List ℕ) (len : ℕ)
    → length dl.rbuf ≡ 256
    → length bytes < 256
    → len < 256
    → Returns (dl_write_rbuf dl bytes) λ r.
      (r.1 ≡ length bytes)
      × (dl_read_rbuf r.0 len ≡ ok (take len bytes))
      × (length r.0.rbuf ≡ 256)
      × (r.0 ≡ record dl { rlen = length bytes; rbuf = r.0.rbuf })
unfolding dl_write_rbuf dl_read_rbuf
dl_read_rbuf-dl_write_rbuf dl bytes len hr hb hl =
    rw (lt→ltb _ _ hb, lt→ltb _ _ hl)
      (
        refl,
        ap ok (take_cut dl.rbuf bytes len (omega arith)),
        length-splice dl.rbuf 0 bytes ∙ hr,
        refl,
      )
