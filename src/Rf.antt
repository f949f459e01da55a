-- ===== src/Rf.antt =====
-- The RF state machine of the controller and the table of RF interfaces: src/nfc-rf.c, src/nfc-rf.h.
pub mod Codes
use e2f77dee9c9d8e2bfbcafc.Base.{ℕ, bit_and, ◌==◌, if◌then◌else◌}

-- `enum nfc_rfst`, [NCI] figure 10. The last one is what a refused transition returns.
pub data Rfst : Type 0 where
  idle discovery w4_all_discoveries w4_host_select poll_active listen_active : Rfst
  listen_sleep number_of_rfsts : Rfst

-- `enum nfc_rfst_bit`: `1 << rfst`.
unfoldable pub rfst_bit : Rfst → ℕ
rfst_bit idle = 0x01
rfst_bit discovery = 0x02
rfst_bit w4_all_discoveries = 0x04
rfst_bit w4_host_select = 0x08
rfst_bit poll_active = 0x10
rfst_bit listen_active = 0x20
rfst_bit listen_sleep = 0x40
rfst_bit number_of_rfsts = 0x80

-- `enum nci_rf_tech_mode`
pub data TechMode : Type 0 where
  a_passive_poll b_passive_poll f_passive_poll : TechMode
  a_passive_listen b_passive_listen f_passive_listen : TechMode

unfoldable pub mode_code : TechMode → ℕ
mode_code a_passive_poll = 0x00
mode_code b_passive_poll = 0x01
mode_code f_passive_poll = 0x02
mode_code a_passive_listen = 0x80
mode_code b_passive_listen = 0x81
mode_code f_passive_listen = 0x82

-- `enum nci_rf_protocol`
pub data RfProtocol : Type 0 where
  undetermined t1t t2t t3t iso_dep nfc_dep : RfProtocol

unfoldable pub protocol_code : RfProtocol → ℕ
protocol_code undetermined = 0x00
protocol_code t1t = 0x01
protocol_code t2t = 0x02
protocol_code t3t = 0x03
protocol_code RfProtocol.iso_dep = 0x04
protocol_code RfProtocol.nfc_dep = 0x05

-- `enum nci_rf_interface`
pub data RfInterface : Type 0 where
  nfcee frame iso_dep nfc_dep : RfInterface

unfoldable pub interface_code : RfInterface → ℕ
interface_code nfcee = 0x00
interface_code frame = 0x01
interface_code RfInterface.iso_dep = 0x02
interface_code RfInterface.nfc_dep = 0x03

-- `struct nfc_rf`
pub record Rf : Type 0 where
  pub iface : RfInterface
  pub mode : TechMode

unfoldable pub rf_init : RfInterface → TechMode → Rf
rf_init iface mode = record { iface = iface; mode = mode }

-- `nfc_rf_state_transition`: the new `*rf_state`, and what the function returns.
unfoldable pub state_transition : Rfst → ℕ → Rfst → Rfst × Rfst
unfolding rfst_bit
state_transition rfst bits state =
    if bit_and (rfst_bit rfst) bits == 0 then (rfst, number_of_rfsts) else (state, rfst)
