-- ===== src/Tests/Tags.antt =====
-- Runs of the tags.
use e2f77dee9c9d8e2bfbcafc.Base.{
  ℕ, ◌+◌, ◌/◌, ◌%◌, ◌^◌, ◌≡◌, ◌≢◌, ◌⊎◌, inl, some, refl, arith, List, [], ◌∷◌, length, replicate,
  slice, fault, bounds, Returns,
}
use e2f77dee9c9d8e2bfbcafc.Memory.{Buf, read}
use e2f77dee9c9d8e2bfbcafc.Tag.Store.{set_t1t_data, set_t3t_data}
use e2f77dee9c9d8e2bfbcafc.Tag.Store.Laws.{set_t1t_data_overflow}
use e2f77dee9c9d8e2bfbcafc.Tag.Store.Checksum.{sum, set_t3t_data_lem}
use e2f77dee9c9d8e2bfbcafc.Tag.T4.{FileSelect, process_t4t}
use e2f77dee9c9d8e2bfbcafc.Tag.T4.Laws.{t4t_unknown_answered}
use e2f77dee9c9d8e2bfbcafc.Tests.{zeros, packet}

abbrev blank : List ℕ
blank = replicate 1039 0

abbrev text : List ℕ
text = 0xd1 ∷ 0x01 ∷ 0x02 ∷ 0x54 ∷ 0x68 ∷ 0x69 ∷ []

abbrev too_long : List ℕ
too_long = replicate 92 1

set_t1t_data_overflow_example : set_t1t_data blank too_long ≡ fault bounds
set_t1t_data_overflow_example =
    set_t1t_data_overflow blank too_long refl (omega arith) (omega arith)

set_t3t_data_lem_example : Returns (set_t3t_data blank text) λ m.
    let n = length text in
    let cs = sum (slice m 0 14) % 2 ^ 16 in
    (slice m 11 3 ≡ (n / 2 ^ 16 % 256) ∷ (n / 2 ^ 8 % 256) ∷ (n % 256) ∷ [])
    × (slice m 14 2 ≡ (cs / 2 ^ 8 % 256) ∷ (cs % 256) ∷ [])
    × (slice m 16 n ≡ text)
    × (length m ≡ 1039)
set_t3t_data_lem_example = set_t3t_data_lem blank text refl (omega arith)

abbrev unknown : Buf
unknown = packet (0x80 ∷ 0xca ∷ [])

t4t_unknown_answered_example : Returns (process_t4t FileSelect.none blank unknown 0 zeros 3) λ r.
    (r.1.len ≡ 2)
    × (r.1.consumed ≡ some 7)
    × (((unknown (0 + 5) ≡ 0xe1)
          × (unknown (0 + 6) ≡ 0x04)
          × (r.0 ≡ FileSelect.ndef_select)
          × (read r.1.rsp 3 2 ≡ 0x90 ∷ 0x00 ∷ []))
        ⊎ (((unknown (0 + 5) ≢ 0xe1) ⊎ (unknown (0 + 6) ≢ 0x04))
            × (r.0 ≡ FileSelect.none)
            × (read r.1.rsp 3 2 ≡ 0x6a ∷ 0x82 ∷ [])))
t4t_unknown_answered_example =
    t4t_unknown_answered FileSelect.none blank unknown 0 zeros 3
      (inl (λ e. absurd (omega (arith, e))))
