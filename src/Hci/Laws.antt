-- ===== src/Hci/Laws.antt =====
-- Which HCI commands are answered, and how.
use e2f77dee9c9d8e2bfbcafc.Base.{
  ℕ, ◌%◌, ◌≤◌, fault, assertion, ◌≡◌, ◌≢◌, ◌⊎◌, inl, inr, refl, arith, [], ◌∷◌, ok, Returns,
}
use e2f77dee9c9d8e2bfbcafc.Memory.{Buf, IsByte, read}
use e2f77dee9c9d8e2bfbcafc.Device.{FsmState, Device, idle, reset, initialized}
use e2f77dee9c9d8e2bfbcafc.Hci.{
  idle_process_cmd, init_process_cmd, process_write_sleep_mode, service_bcm2079x, evt_cmd_complete,
  write_sleep_mode, process_hci_cmd, create_evt_cmd_complete, create_evt,
}

-- The event that tells of the completion of `cmd`.
abbrev pub Completes : Buf → Buf × ℕ → Type 0
Completes cmd (b, len) =
    (len ≡ 6)
    × (read b 0 6 ≡ evt_cmd_complete ∷ 4 ∷ write_sleep_mode ∷ service_bcm2079x ∷ cmd 1 ∷ 0 ∷ [])

-- A command to the chip whose code, without the two top bits, is WRITE_SLEEP_MODE is answered by its
-- completion event, if the device is initialised, or if it is idle and both top bits are set.
pub process_hci_cmd-Completes :
    (nfc : Device) (cmd rsp : Buf)
    → cmd 0 ≡ service_bcm2079x
    → cmd 1 % 64 ≡ write_sleep_mode
    → IsByte (cmd 1)
    → (nfc.state ≡ initialized) ⊎ ((nfc.state ≡ idle) × (192 ≤ cmd 1))
    → Returns (process_hci_cmd nfc cmd rsp) (Completes cmd)
unfolding process_hci_cmd idle_process_cmd init_process_cmd process_write_sleep_mode
    create_evt_cmd_complete create_evt
process_hci_cmd-Completes nfc cmd rsp p q b (inl e) = rw (e) ground arith
process_hci_cmd-Completes nfc cmd rsp p q b (inr (e, h)) =
    let code : cmd 1 ≡ 252 = omega arith in rw (e) ground (arith, code)

-- Outside the reset state, a command that has another code or is not to the chip gets no answer, and
-- the response buffer stays as it is; in the reset state every command fails the assertion.
pub process_hci_cmd_ignores :
    (nfc : Device) (cmd rsp : Buf)
    → (cmd 0 ≢ service_bcm2079x) ⊎ (cmd 1 % 64 ≢ write_sleep_mode)
    → process_hci_cmd nfc cmd rsp ≡ elim (nfc.state) [ reset ↦ fault assertion | _ ↦ ok (rsp, 0) ]
unfolding process_hci_cmd idle_process_cmd init_process_cmd
process_hci_cmd_ignores nfc cmd rsp h = at nfc.state
  where
    at :
        (s : FsmState)
        → elim s [
          | idle ↦ ok (idle_process_cmd cmd rsp)
          | reset ↦ fault assertion
          | initialized ↦ ok (init_process_cmd cmd rsp)
        ]
          ≡ elim s [ reset ↦ fault assertion | _ ↦ ok (rsp, 0) ]
    at idle = ground arith
    at reset = refl
    at initialized = ground arith
