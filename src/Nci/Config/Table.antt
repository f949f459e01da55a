-- ===== src/Nci/Config/Table.antt =====
-- The table of the configuration parameters: the ranges of the store that it gives them.
use e2f77dee9c9d8e2bfbcafc.Base.{
  ℕ, ◌+◌, ◌<◌, ◌≤◌, ◌≡◌, ◌≢◌, ◌⊎◌, inl, inr, refl, arith, Bool, true, false, ◌&&◌, ◌||◌, List, [],
  ◌∷◌, ltb, leb, ◌==◌, Bool-cases, ltb→lt,
}
use e2f77dee9c9d8e2bfbcafc.Nci.Config.{param_table, find_param, config_param}

all_rows : (ℕ × ℕ × ℕ → Bool) → List (ℕ × ℕ × ℕ) → Bool
all_rows test [] = true
all_rows test (row ∷ rows) = test row && all_rows test rows

and_both : (a b : Bool) → a && b ≡ true → (a ≡ true) × (b ≡ true)
and_both true b h = (refl, h)
and_both false b h = absurd (cc (h))

-- A parameter that has bytes in the store is a row of the table.
find_param-row :
    (test : ℕ × ℕ × ℕ → Bool) (rows : List (ℕ × ℕ × ℕ)) (id : ℕ)
    → all_rows test rows ≡ true
    → (find_param rows id).1 ≢ 0
    → test (id, (find_param rows id).0, (find_param rows id).1) ≡ true
unfolding all_rows find_param
find_param-row test [] id h n = absurd (n refl)
find_param-row test ((k, off, size) ∷ rows) id h n =
    let both = and_both (test (k, off, size)) (all_rows test rows) h in
    elim (Bool-cases (k == id)) [
      | inl e ↦ let same : id ≡ k = ground arith in rw (e, same) both.0
      | inr e ↦ rw e (find_param-row test rows id both.1 (rw e at n))
    ]

-- Two rows for different parameters have no byte in common.
apart : ℕ × ℕ × ℕ → ℕ × ℕ × ℕ → Bool
apart (k, off, size) (k', off', size') = k == k' || leb (off + size) off' || leb (off' + size') off

apart_lem :
    (k off size k' off' size' : ℕ)
    → k ≢ k'
    → apart (k, off, size) (k', off', size') ≡ true
    → (off + size ≤ off') ⊎ (off' + size' ≤ off)
unfolding apart
apart_lem k off size k' off' size' d h = elim (Bool-cases (leb (off + size) off')) [
  | inl e ↦ inl (ground arith)
  | inr e ↦ inr (ground arith)
]

all_apart : all_rows (λ a. all_rows (apart a) param_table) param_table ≡ true
unfolding all_rows apart
all_apart = refl

all_low : all_rows (λ (k, off, size). ltb (off + size) 128) param_table ≡ true
unfolding all_rows
all_low = refl

-- The bytes of a parameter lie in the store.
pub config_param_low :
    (id : ℕ) → (config_param id).1 ≢ 0 → (config_param id).0 + (config_param id).1 < 128
unfolding config_param
config_param_low id n =
    ltb→lt _ 128 (find_param-row (λ (k, off, size). ltb (off + size) 128) param_table id all_low n)

-- Two parameters have no byte in common.
pub config_param_apart :
    (id id' : ℕ)
    → id ≢ id'
    → (config_param id).1 ≢ 0
    → (config_param id').1 ≢ 0
    → ((config_param id).0 + (config_param id).1 ≤ (config_param id').0)
      ⊎ ((config_param id').0 + (config_param id').1 ≤ (config_param id).0)
unfolding config_param
config_param_apart id id' d n n' =
    let a = find_param-row (λ a. all_rows (apart a) param_table) param_table id all_apart n in
    apart_lem id (config_param id).0 (config_param id).1 id' (config_param id').0
      (config_param id').1 d
      (find_param-row (apart (id, (config_param id).0, (config_param id).1)) param_table id' a n')

-- But for two parameters, the offset is greater than the size.
empty_row : ℕ × ℕ × ℕ → Bool
empty_row (k, off, size) = k == 0x00 || k == 0x29 || ltb size off

all_empty : all_rows empty_row param_table ≡ true
unfolding all_rows empty_row
all_empty = refl

empty_row_lem :
    (k off size : ℕ) → k ≢ 0x00 → k ≢ 0x29 → empty_row (k, off, size) ≡ true → size < off
unfolding empty_row
empty_row_lem k off size n m h = ground arith

pub config_param_empty :
    (id : ℕ)
    → id ≢ 0x00
    → id ≢ 0x29
    → (config_param id).1 ≢ 0
    → (config_param id).1 < (config_param id).0
unfolding config_param
config_param_empty id n m room =
    empty_row_lem id (config_param id).0 (config_param id).1 n m
      (find_param-row empty_row param_table id all_empty room)
