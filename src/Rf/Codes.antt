-- ===== src/Rf/Codes.antt =====
-- The codes of src/nfc-rf.h as bytes of a packet.
use e2f77dee9c9d8e2bfbcafc.Base.{arith}
use e2f77dee9c9d8e2bfbcafc.Memory.{IsByte}
use e2f77dee9c9d8e2bfbcafc.Rf.{
  TechMode, RfProtocol, RfInterface, mode_code, protocol_code, interface_code,
}

pub mode_code-IsByte : (mode : TechMode) → IsByte (mode_code mode)
unfolding mode_code
mode_code-IsByte TechMode.a_passive_poll = omega arith
mode_code-IsByte TechMode.b_passive_poll = omega arith
mode_code-IsByte TechMode.f_passive_poll = omega arith
mode_code-IsByte TechMode.a_passive_listen = omega arith
mode_code-IsByte TechMode.b_passive_listen = omega arith
mode_code-IsByte TechMode.f_passive_listen = omega arith

pub protocol_code-IsByte : (proto : RfProtocol) → IsByte (protocol_code proto)
unfolding protocol_code
protocol_code-IsByte RfProtocol.undetermined = omega arith
protocol_code-IsByte RfProtocol.t1t = omega arith
protocol_code-IsByte RfProtocol.t2t = omega arith
protocol_code-IsByte RfProtocol.t3t = omega arith
protocol_code-IsByte RfProtocol.iso_dep = omega arith
protocol_code-IsByte RfProtocol.nfc_dep = omega arith

pub interface_code-IsByte : (i : RfInterface) → IsByte (interface_code i)
unfolding interface_code
interface_code-IsByte RfInterface.nfcee = omega arith
interface_code-IsByte RfInterface.frame = omega arith
interface_code-IsByte RfInterface.iso_dep = omega arith
interface_code-IsByte RfInterface.nfc_dep = omega arith
