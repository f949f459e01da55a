-- ===== src/Device/Config.antt =====
-- The configuration store: `nfc_device_set` and `nfc_device_get`.
use e2f77dee9c9d8e2bfbcafc.Base.{
  ℕ, ◌+◌, ◌≤◌, ◌<◌, ◌≡◌, ◌⊎◌, refl, ap, ◌∙◌, lt→ltb, List, arith, length, get_elem?, length-splice,
  slice-splice, get_elem?-splice_outside, ok, fault, assertion, Returns,
}
use e2f77dee9c9d8e2bfbcafc.Device.{Device, config_size, device_set, device_get}

-- A range below the end of the store can be set. Then it reads back as the value that was set, the
-- store keeps its size, every byte outside the range keeps its value, and so do all other fields.
pub device_get-device_set :
    (nfc : Device) (off : ℕ) (value : List ℕ) (i : ℕ)
    → length nfc.config_id_value ≡ config_size
    → off + length value < config_size
    → (i < off) ⊎ (off + length value ≤ i)
    → Returns (device_set nfc off value) λ nfc'.
      (device_get nfc' off (length value) ≡ ok value)
      × (length nfc'.config_id_value ≡ config_size)
      × (get_elem? nfc'.config_id_value i ≡ get_elem? nfc.config_id_value i)
      × (nfc' ≡ record nfc { config_id_value = nfc'.config_id_value })
unfolding device_get device_set
device_get-device_set nfc off value i hs h o = rw (lt→ltb _ _ h) (
  ap ok (slice-splice nfc.config_id_value off value (omega arith)),
  length-splice nfc.config_id_value off value ∙ hs,
  get_elem?-splice_outside nfc.config_id_value off value i o,
  refl,
)

-- A range that reaches the end of the store fails the assertion of both operations.
pub device_set_refused :
    (nfc : Device) (off : ℕ) (value : List ℕ)
    → config_size ≤ off + length value
    → (device_set nfc off value ≡ fault assertion)
      × (device_get nfc off (length value) ≡ fault assertion)
unfolding device_get device_set
device_set_refused nfc off value h = ground arith
