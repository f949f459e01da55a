-- ===== src/Nfcemu.antt =====
-- The entry points of the library: src/nfcemu.c, and the callbacks of src/cb.h that they store. A
-- callback is a pointer, and what stands behind one is the host's.
use e2f77dee9c9d8e2bfbcafc.Base.{
  ℕ, Bool, true, false, if◌then◌else◌, Option, none, some, Result, ok, fault, assertion, ◌>>◌,
  assert,
}
use e2f77dee9c9d8e2bfbcafc.Memory.{Buf}
use e2f77dee9c9d8e2bfbcafc.Device.{Device, device_init}
use e2f77dee9c9d8e2bfbcafc.Hci.{process_hci_cmd}
use e2f77dee9c9d8e2bfbcafc.Nci.Tables.{process_nci_msg}
use e2f77dee9c9d8e2bfbcafc.Re.{Host}
use e2f77dee9c9d8e2bfbcafc.System.{System, Reply}

-- `struct nfcemu_cb`
pub record NfcemuCb : Type 0 where
  pub log_msg : Option ℕ
  pub log_err : Option ℕ
  pub new_timeout : Option ℕ
  pub mod_timeout : Option ℕ
  pub del_timeout : Option ℕ
  pub timeout_is_pending : Option ℕ
  pub send_ntf : Option ℕ
  pub send_dta : Option ℕ
  pub recv_dta : Option ℕ

-- A pointer as a truth value.
unfoldable pub is_set : Option ℕ → Bool
is_set none = false
is_set (some p) = true

-- `nfcemu_init`: what `cb` is afterwards. The two log functions may be null.
unfoldable pub nfcemu_init : NfcemuCb → Result NfcemuCb
unfolding is_set
nfcemu_init given = do
  assert (is_set given.new_timeout)
  assert (is_set given.mod_timeout)
  assert (is_set given.del_timeout)
  assert (is_set given.timeout_is_pending)
  assert (is_set given.send_ntf)
  assert (is_set given.send_dta)
  assert (is_set given.recv_dta)
  ok given

-- `nfc_device_create`, where `allocated` says whether `malloc` had the memory.
unfoldable pub nfc_device_create : Bool → Option Device
unfolding device_init
nfc_device_create allocated = if allocated then some device_init else none

-- `nfc_device_destroy`: the device is gone.
unfoldable pub nfc_device_destroy : Option Device → Result (Option Device)
nfc_device_destroy none = fault assertion
nfc_device_destroy (some nfc) = ok none

-- The length that is returned becomes an `int`, which changes no number of bytes of a packet.
unfoldable pub device_process_nci_msg : Host → System → Buf → Buf → Result Reply
unfolding process_nci_msg
device_process_nci_msg host sys cmd rsp = process_nci_msg host sys cmd rsp

unfoldable pub device_process_hci_msg : Device → Buf → Buf → Result (Buf × ℕ)
unfolding process_hci_cmd
device_process_hci_msg nfc cmd rsp = process_hci_cmd nfc cmd rsp
