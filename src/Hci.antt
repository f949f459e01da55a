-- ===== src/Hci.antt =====
-- The HCI commands of the chip: src/nfc-hci.c, src/nfc-hci.h. A command lies at offset 0 of its
-- buffer: service, command, length.
pub mod Laws
use e2f77dee9c9d8e2bfbcafc.Base.{
  ℕ, ◌+◌, ◌%◌, List, [], ◌∷◌, ◌==◌, if◌then◌else◌, Result, ok, fault, assertion,
}
use e2f77dee9c9d8e2bfbcafc.Memory.{Buf, poke, write}
use e2f77dee9c9d8e2bfbcafc.Device.{FsmState, Device, idle, reset, initialized}

abbrev pub service_bcm2079x : ℕ
service_bcm2079x = 0x27

abbrev pub evt_cmd_complete : ℕ
evt_cmd_complete = 0x0e

abbrev pub write_sleep_mode : ℕ
write_sleep_mode = 0x3c

unfoldable pub create_evt : Buf → ℕ → ℕ → Buf × ℕ
create_evt rsp cmd l = (write rsp 0 (cmd ∷ l ∷ []), 2 + l)

unfoldable pub create_evt_cmd_complete : Buf → ℕ → ℕ → ℕ → Buf × ℕ
unfolding create_evt
create_evt_cmd_complete rsp service cmd status =
    create_evt (write rsp 2 (write_sleep_mode ∷ service ∷ cmd ∷ status ∷ [])) evt_cmd_complete 4

unfoldable pub process_write_sleep_mode : Buf → Buf → Buf × ℕ
unfolding create_evt_cmd_complete
process_write_sleep_mode cmd rsp = create_evt_cmd_complete rsp (cmd 0) (cmd 1) 0

-- `HCI_MESSAGE_RFU|HCI_BCM2079x_CMD_WRITE_SLEEP_MODE`, compared with the whole byte.
unfoldable pub idle_process_cmd : Buf → Buf → Buf × ℕ
unfolding process_write_sleep_mode
idle_process_cmd cmd rsp =
    if cmd 0 == service_bcm2079x
    then (if cmd 1 == 0xfc then process_write_sleep_mode cmd rsp else (rsp, 0))
    else (rsp, 0)

-- Here the two bits of `HCI_MESSAGE_RFU` are masked out of the byte.
unfoldable pub init_process_cmd : Buf → Buf → Buf × ℕ
unfolding process_write_sleep_mode
init_process_cmd cmd rsp =
    if cmd 0 == service_bcm2079x
    then (if cmd 1 % 64 == write_sleep_mode then process_write_sleep_mode cmd rsp else (rsp, 0))
    else (rsp, 0)

-- `nfc_process_hci_cmd`, with `reset_process_cmd`, which is `assert(0)`.
unfoldable pub process_hci_cmd : Device → Buf → Buf → Result (Buf × ℕ)
unfolding idle_process_cmd init_process_cmd
process_hci_cmd nfc cmd rsp = elim (nfc.state) [
  | idle ↦ ok (idle_process_cmd cmd rsp)
  | reset ↦ fault assertion
  | initialized ↦ ok (init_process_cmd cmd rsp)
]
