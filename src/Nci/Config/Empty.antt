-- ===== src/Nci/Config/Empty.antt =====
-- CORE_SET_CONFIG with an empty parameter: src/nfc-nci.c.
use e2f77dee9c9d8e2bfbcafc.Base.{
  ℕ, ◌≡◌, ◌≢◌, refl, inl, inr, arith, Bool-cases, false, leb, ◌==◌, fault, assertion,
}
use e2f77dee9c9d8e2bfbcafc.Memory.{Buf}
use e2f77dee9c9d8e2bfbcafc.System.{System}
use e2f77dee9c9d8e2bfbcafc.Nci.Config.{
  config_param, nci_device_set, set_param, set_params, core_set_config, defaults,
}
use e2f77dee9c9d8e2bfbcafc.Nci.Config.Table.{config_param_empty}

nci_device_set_refuses :
    (sys : System) (id : ℕ) (src : Buf) (at : ℕ)
    → id ≢ 0x00
    → id ≢ 0x29
    → nci_device_set sys id (config_param id).0 src at ≡ fault assertion
unfolding nci_device_set
nci_device_set_refuses sys id src at n m = elim (Bool-cases ((config_param id).1 == 0)) [
  | inl e ↦ rw e refl
  | inr e ↦
      let long : leb (config_param id).0 (config_param id).1 ≡ false =
        ground (arith, config_param_empty id n m) in
      rw (e, long) refl
]

-- A command with a single parameter, of length 0, asks for the parameter's default. The length that is
-- then set is the parameter's offset in the store, so that the assertion on the length fails for every
-- parameter but 0x00 and 0x29.
pub core_set_config_empty :
    (sys : System) (cmd rsp : Buf)
    → cmd 3 ≡ 1
    → cmd 5 ≡ 0
    → cmd 4 ≢ 0x00
    → cmd 4 ≢ 0x29
    → core_set_config sys cmd rsp ≡ fault assertion
unfolding core_set_config set_params set_param
core_set_config_empty sys cmd rsp one h n m =
    let refused : nci_device_set sys (cmd 4) (config_param (cmd 4)).0 defaults 0 ≡ fault assertion =
      nci_device_set_refuses sys (cmd 4) defaults 0 n m in
    rw (one, h, refused) refl
