-- ===== src/Tag/Store/Checksum.antt =====
-- The header that writing a message leaves on a type-3 tag.
use e2f77dee9c9d8e2bfbcafc.Base.{
  ℕ, ◌+◌, ◌/◌, ◌%◌, ◌^◌, ◌<◌, ◌≡◌, sym, ap, ◌∙◌, inl, arith, lt→ltb, List, [], ◌∷◌, length, slice,
  splice, length-splice, slice-splice, slice-splice_outside, Returns, Keeps, >>=-Keeps,
  >>=-Keeps_any, if-Keeps, All, All-splice, leb, ltb, assert,
}
use e2f77dee9c9d8e2bfbcafc.Memory.{IsByte}
use e2f77dee9c9d8e2bfbcafc.Tag.{copy}
use e2f77dee9c9d8e2bfbcafc.Tag.Store.{checksum, set_t3t_data}
use e2f77dee9c9d8e2bfbcafc.Tag.Store.Laws.{copy_first}

abbrev pub sum : List ℕ → ℕ
sum [] = 0
sum (x ∷ xs) = x + sum xs

checksum-sum : (cs : ℕ) (xs : List ℕ) → cs < 2 ^ 16 → checksum cs xs ≡ (cs + sum xs) % 2 ^ 16
unfolding checksum
checksum-sum cs [] h = omega arith
checksum-sum cs (x ∷ xs) h = omega (arith, checksum-sum ((cs + x) % 2 ^ 16) xs (omega arith))

-- A message of fewer than 1008 bytes is stored in a type-3 tag behind its header. The header then
-- holds the length of the message in three bytes, and in two the sum of its other fourteen bytes
-- modulo 2^16, both in big endian.
pub set_t3t_data_lem :
    (mem msg : List ℕ)
    → length mem ≡ 1039
    → length msg < 1008
    → Returns (set_t3t_data mem msg) λ m.
      let n = length msg in
      let cs = sum (slice m 0 14) % 2 ^ 16 in
      (slice m 11 3 ≡ (n / 2 ^ 16 % 256) ∷ (n / 2 ^ 8 % 256) ∷ (n % 256) ∷ [])
      × (slice m 14 2 ≡ (cs / 2 ^ 8 % 256) ∷ (cs % 256) ∷ [])
      × (slice m 16 n ≡ msg)
      × (length m ≡ 1039)
unfolding set_t3t_data
set_t3t_data_lem mem msg hm h =
    let n = length msg in
    let ln : List ℕ = (n / 2 ^ 16 % 256) ∷ (n / 2 ^ 8 % 256) ∷ (n % 256) ∷ [] in
    let m₁ : List ℕ = splice mem 11 ln in
    let cs : ℕ = checksum 0 (slice m₁ 0 14) in
    let cb : List ℕ = (cs / 2 ^ 8 % 256) ∷ (cs % 256) ∷ [] in
    let m₂ : List ℕ = splice m₁ 14 cb in
    let m : List ℕ = splice m₂ 16 msg in
    let l₁ : length m₁ ≡ 1039 = length-splice mem 11 ln ∙ hm in
    let l₂ : length m₂ ≡ 1039 = length-splice m₁ 14 cb ∙ l₁ in
    let same : slice m 0 14 ≡ slice m₁ 0 14 =
      slice-splice_outside m₂ 16 msg 0 14 (inl (omega arith))
      ∙ slice-splice_outside m₁ 14 cb 0 14 (inl (omega arith)) in
    let total : cs ≡ sum (slice m 0 14) % 2 ^ 16 =
      checksum-sum 0 (slice m₁ 0 14) (omega arith)
      ∙ ap (λ l. (0 + sum l) % 2 ^ 16) (sym same)
      ∙ omega arith in
    rw
      (
        lt→ltb n 1008 h,
        copy_first mem 11 ln (omega arith),
        copy_first m₁ 14 cb (omega arith),
        copy_first m₂ 16 msg (omega arith),
      )
      (
        slice-splice_outside m₂ 16 msg 11 3 (inl (omega arith))
            ∙ slice-splice_outside m₁ 14 cb 11 3 (inl (omega arith))
            ∙ slice-splice mem 11 ln (omega arith),
        slice-splice_outside m₂ 16 msg 14 2 (inl (omega arith))
            ∙ slice-splice m₁ 14 cb (omega arith)
            ∙ ap (λ x. (x / 2 ^ 8 % 256) ∷ (x % 256) ∷ []) total,
        slice-splice m₂ 16 msg (omega arith),
        length-splice m₂ 16 msg ∙ l₂,
      )

copy-Keeps :
    (mem : List ℕ) (off : ℕ) (bytes : List ℕ)
    → All IsByte mem
    → All IsByte bytes
    → Keeps (copy mem off bytes) (All IsByte)
copy-Keeps mem off bytes h k =
    if-Keeps (leb (off + length bytes) (length mem)) _ _ (All IsByte)
      (All-splice IsByte mem off bytes h k) tt

-- A type-3 tag that holds bytes still does after bytes were stored.
pub set_t3t_data_bytes :
    (mem msg : List ℕ) → All IsByte mem → All IsByte msg → Keeps (set_t3t_data mem msg) (All IsByte)
unfolding set_t3t_data
set_t3t_data_bytes mem msg h k =
    let n = length msg in
    let ln : List ℕ = (n / 2 ^ 16 % 256) ∷ (n / 2 ^ 8 % 256) ∷ (n % 256) ∷ [] in
    let cs : List ℕ → ℕ = λ m. checksum 0 (slice m 0 14) in
    let cb : List ℕ → List ℕ = λ m. (cs m / 2 ^ 8 % 256) ∷ (cs m % 256) ∷ [] in
    >>=-Keeps_any (assert (ltb n 1008)) _ (All IsByte) λ _.
      >>=-Keeps (copy mem 11 ln) _ (All IsByte) (All IsByte) (copy-Keeps mem 11 ln h (omega arith))
        λ m₁ h₁.
          >>=-Keeps (copy m₁ 14 (cb m₁)) _ (All IsByte) (All IsByte)
            (copy-Keeps m₁ 14 (cb m₁) h₁ (omega arith)) λ m₂ h₂. copy-Keeps m₂ 16 msg h₂ k
