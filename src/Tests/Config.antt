-- ===== src/Tests/Config.antt =====
-- Runs of CORE_SET_CONFIG, and of a discovery up to an active tag.
use e2f77dee9c9d8e2bfbcafc.Base.{
  ℕ, ◌≡◌, refl, arith, true, none, some, List, [], ◌∷◌, ◌++◌, replicate, ok, fault, assertion,
  ◌>>=◌, Returns,
}
use e2f77dee9c9d8e2bfbcafc.Memory.{Buf}
use e2f77dee9c9d8e2bfbcafc.Packet.{status_ok}
use e2f77dee9c9d8e2bfbcafc.Rf.{RfProtocol, TechMode}
use e2f77dee9c9d8e2bfbcafc.Device.{FsmState, device_init}
use e2f77dee9c9d8e2bfbcafc.Tag.{t1t_uid, t1t_cc}
use e2f77dee9c9d8e2bfbcafc.Tag.Store.Laws.{tlv_area}
use e2f77dee9c9d8e2bfbcafc.Re.{Re, Host, init_re, nfcid_text}
use e2f77dee9c9d8e2bfbcafc.Re.Data.Answer.{Carries}
use e2f77dee9c9d8e2bfbcafc.System.{System, boot}
use e2f77dee9c9d8e2bfbcafc.Nci.Tables.{process_nci_msg}
use e2f77dee9c9d8e2bfbcafc.Nci.Config.{config_param, core_set_config, nci_device_get}
use e2f77dee9c9d8e2bfbcafc.Nci.Config.ReadBack.{core_set_config_read_back}
use e2f77dee9c9d8e2bfbcafc.Nci.Config.Empty.{core_set_config_empty}
use e2f77dee9c9d8e2bfbcafc.Nci.Session.Store.{store}
use e2f77dee9c9d8e2bfbcafc.Nci.Session.StartUp.{start_up_to_message}
use e2f77dee9c9d8e2bfbcafc.Console.{negsuc}
use e2f77dee9c9d8e2bfbcafc.Console.Commands.{Memory}
use e2f77dee9c9d8e2bfbcafc.Console.Notify.{rf_intf_activated_ntf_cb}
use e2f77dee9c9d8e2bfbcafc.Tests.{zeros, packet}

-- Three parameters, the last of them again the first one.
abbrev set_cmd : Buf
set_cmd =
    packet (0x20 ∷ 0x02 ∷ 12 ∷ 3 ∷ 0x00 ∷ 1 ∷ 9 ∷ 0x32 ∷ 1 ∷ 0x60 ∷ 0x00 ∷ 2 ∷ 0xf4 ∷ 0x01 ∷ [])

core_set_config_read_back_example : Returns (core_set_config boot set_cmd zeros) λ r.
    (nci_device_get r.sys 0 2 ≡ ok (0xf4 ∷ 0x01 ∷ []))
    × (r.sys.nfc ≡ record (boot.nfc) { config_id_value = r.sys.nfc.config_id_value })
    × (r.sys.res ≡ boot.res)
    × (r.rsp 3 ≡ status_ok)
    × (r.len ≡ 5)
unfolding boot device_init config_param
core_set_config_read_back_example =
    core_set_config_read_back boot set_cmd zeros ((0x00, 9 ∷ []) ∷ (0x32, 0x60 ∷ []) ∷ []) [] 0
      (0xf4 ∷ 0x01 ∷ []) refl refl (refl, refl, refl, (refl, refl, refl, (refl, refl, refl, tt)))
      (omega arith) (omega arith) refl tt

abbrev empty_cmd : Buf
empty_cmd = packet (0x20 ∷ 0x02 ∷ 3 ∷ 1 ∷ 0x32 ∷ 0 ∷ [])

core_set_config_empty_example : core_set_config boot empty_cmd zeros ≡ fault assertion
core_set_config_empty_example =
    core_set_config_empty boot empty_cmd zeros refl refl (λ e. absurd (omega (arith, e)))
      (λ e. absurd (omega (arith, e)))

abbrev host : Host
host = record { new_timeout_result = λ _. none; timeout_is_pending = λ _ _. true }

abbrev memory : Memory
memory = record { packet = zeros; fresh = λ _. zeros; array = zeros; left = zeros; behind = zeros }

-- An initialised device.
abbrev ready : System
unfolding boot device_init
ready = record boot { nfc = record device_init { state = FsmState.initialized } }

abbrev type4 : Re
unfolding init_re
type4 =
    init_re RfProtocol.iso_dep TechMode.a_passive_listen (some 3) (nfcid_text 0x35)
      (0 ∷ 0 ∷ 0 ∷ 0 ∷ 0 ∷ 0 ∷ 5 ∷ 0 ∷ [])

abbrev discover_cmd : Buf
discover_cmd = packet (0x21 ∷ 0x03 ∷ 0x01 ∷ 0x00 ∷ [])

abbrev reset_cmd : Buf
reset_cmd = packet (0x20 ∷ 0x00 ∷ 0x01 ∷ 0x01 ∷ [])

abbrev init_cmd : Buf
init_cmd = packet (0x20 ∷ 0x01 ∷ 0x00 ∷ [])

abbrev rall : Buf
rall = packet (0x02 ∷ 0 ∷ 4 ∷ 0x00 ∷ 0 ∷ 0 ∷ 0 ∷ [])

abbrev message : List ℕ
message = 0xd1 ∷ 0x01 ∷ 0x02 ∷ 0x54 ∷ 0x68 ∷ 0x69 ∷ []

start_up_to_message_example :
    Returns
      (((process_nci_msg host boot reset_cmd zeros >>= λ a.
            process_nci_msg host a.sys init_cmd a.rsp)
          >>= λ b. process_nci_msg host b.sys discover_cmd b.rsp >>= λ c.
              rf_intf_activated_ntf_cb c.sys (some 2) (negsuc 0) memory)
        >>= λ d. store d.sys 0 message >>= λ e. process_nci_msg host e.sys rall zeros)
      λ a. Carries a.rsp a.len 2 (
        0x11
        ∷ 0x00
        ∷ ((t1t_uid ++ ((t1t_cc ++ tlv_area 89 message) ++ replicate 16 0)) ++ (0 ∷ [])))
start_up_to_message_example =
    start_up_to_message host reset_cmd init_cmd discover_cmd rall zeros zeros memory message
      (refl, refl, refl) (refl, refl, refl) (refl, refl, refl) refl refl (omega arith)
      (ground arith)
