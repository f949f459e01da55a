-- ===== src/Device/Ids.antt =====
-- The identifiers that `nfc_device_incr_id` hands out.
use e2f77dee9c9d8e2bfbcafc.Base.{ℕ, zero, suc, ◌+◌, ◌%◌, ◌≤◌, ◌<◌, ◌≡◌, ◌≢◌, arith}
use e2f77dee9c9d8e2bfbcafc.Device.{Device, device_incr_id}

-- The device after `n` calls.
abbrev after : ℕ → Device → Device
after zero nfc = nfc
after (suc n) nfc = (device_incr_id (after n nfc)).0

-- The id that call number `n`, counted from 0, returns.
abbrev pub nth_id : Device → ℕ → ℕ
nth_id nfc n = (device_incr_id (after n nfc)).1

nth_id_closed : (nfc : Device) (n : ℕ) → nth_id nfc n ≡ (nfc.id + n) % 254 + 1
unfolding device_incr_id
nth_id_closed nfc zero = omega arith
nth_id_closed nfc (suc n) = omega (arith, nth_id_closed nfc n)

-- No call returns 0 or 255, and two calls fewer than 254 apart return different ids.
pub nth_id_distinct :
    (nfc : Device) (n k : ℕ)
    → 0 < k
    → k < 254
    → (1 ≤ nth_id nfc n) × (nth_id nfc n ≤ 254) × (nth_id nfc n ≢ nth_id nfc (n + k))
nth_id_distinct nfc n k hk h = omega (arith, nth_id_closed nfc n, nth_id_closed nfc (n + k))
