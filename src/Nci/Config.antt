-- ===== src/Nci/Config.antt =====
-- `init_process_oid_core_set_config_cmd` of src/nfc-nci.c, with the table of the parameters.
pub mod Table
pub mod Params
pub mod ReadBack
pub mod Empty
use e2f77dee9c9d8e2bfbcafc.Base.{
  ℕ, zero, suc, ◌+◌, ◌%◌, not, ◌&&◌, bit_and, List, [], ◌∷◌, leb, ◌==◌, if◌then◌else◌, Result, ok,
  ◌>>=◌, ◌>>◌, assert,
}
use e2f77dee9c9d8e2bfbcafc.Memory.{Buf, read}
use e2f77dee9c9d8e2bfbcafc.Packet.{status_ok}
use e2f77dee9c9d8e2bfbcafc.Device.{device_set, device_get}
use e2f77dee9c9d8e2bfbcafc.Re.{send_ntf_rf_field_info}
use e2f77dee9c9d8e2bfbcafc.System.{System, Reply}
use e2f77dee9c9d8e2bfbcafc.Nci.Common.{payload_reply}

-- `config_id_value`: the offset and the number of bytes of a parameter; (0, 0) where the table
-- names none.
abbrev pub param_table : List (ℕ × ℕ × ℕ)
param_table =
    (0x00, 0, 2)
    ∷ (0x28, 2, 1)
    ∷ (0x29, 3, 20)
    ∷ (0x30, 23, 1)
    ∷ (0x31, 24, 1)
    ∷ (0x32, 25, 1)
    ∷ (0x38, 26, 1)
    ∷ (0x50, 27, 1)
    ∷ (0x51, 28, 8)
    ∷ (0x58, 36, 1)
    ∷ (0x60, 37, 1)
    ∷ (0x61, 38, 20)
    ∷ (0x80, 58, 1)
    ∷ (0xa5, 59, 1)
    ∷ (0xb7, 60, 3)
    ∷ (0xb9, 63, 33)
    ∷ (0xc5, 96, 1)
    ∷ (0xca, 97, 20)
    ∷ (0xcb, 117, 1)
    ∷ []

unfoldable pub find_param : List (ℕ × ℕ × ℕ) → ℕ → ℕ × ℕ
find_param [] id = (0, 0)
find_param ((k, off, size) ∷ rest) id =
    let more = find_param rest id in if k == id then (off, size) else more

unfoldable pub config_param : ℕ → ℕ × ℕ
unfolding find_param
config_param id = find_param param_table id

abbrev pub i93_datarate : ℕ
i93_datarate = 0xb7

-- `nfc_nci_device_set`, for the `len` bytes at offset `at` of `src`.
unfoldable pub nci_device_set : System → ℕ → ℕ → Buf → ℕ → Result System
nci_device_set sys id len src at = do
  let (off, size) = config_param id
  assert (not (size == 0))
  assert (leb len size)
  nfc ← device_set sys.nfc off (read src at len)
  let sys' = record sys { nfc = nfc }
  let notified = record sys' { events = send_ntf_rf_field_info ∷ sys'.events }
  ok (if id == i93_datarate && not (bit_and (src (at + 2)) 0x1 == 0) then notified else sys')

-- `nfc_nci_device_get`
unfoldable pub nci_device_get : System → ℕ → ℕ → Result (List ℕ)
nci_device_get sys id len = do
  let (off, size) = config_param id
  assert (size == len)
  device_get sys.nfc off len

-- A row of `config_id_default`, all zero.
abbrev pub defaults : Buf
defaults _ = 0

-- One parameter, at offset `at`: an empty one is set to the default, with the parameter's offset
-- in the store for a length.
unfoldable pub set_param : System → Buf → ℕ → Result System
unfolding config_param nci_device_set
set_param sys cmd at =
    let id = cmd at in
    let len = cmd (at + 1) in
    if len == 0
    then nci_device_set sys id (config_param id).0 defaults 0
    else nci_device_set sys id len cmd (at + 2)

-- The loop, with `n` parameters left. `off` is an `unsigned char`; the first field stands at 4.
unfoldable pub set_params : ℕ → System → Buf → ℕ → Result System
set_params zero sys cmd off = ok sys
set_params (suc n) sys cmd off = set_param sys cmd (4 + off) >>= λ sys'.
    set_params n sys' cmd ((off + 2 + cmd (4 + off + 1)) % 256)

unfoldable pub core_set_config : System → Buf → Buf → Result Reply
unfolding set_params set_param payload_reply
core_set_config sys cmd rsp = do
  sys' ← set_params (cmd 3) sys cmd 0
  ok (payload_reply sys' cmd rsp (status_ok ∷ 0 ∷ []))
