-- ===== src/Wire/Nci.antt =====
-- The structures of src/nfc-nci.h for responses and notifications.
use e2f77dee9c9d8e2bfbcafc.Base.{[], ◌∷◌}
use e2f77dee9c9d8e2bfbcafc.Wire.{Struct, u8, nibbles, le16, le32, array}

-- status, minor and major, rfconfig
abbrev pub core_reset_rsp : Struct
core_reset_rsp = u8 ∷ nibbles ∷ u8 ∷ []

-- status, features, nrfs, rf, nconns, maxrtabsize, payloadsize, maxlparamsize, vendor, device
abbrev pub core_init_rsp : Struct
core_init_rsp = u8 ∷ le32 ∷ u8 ∷ array 8 ∷ u8 ∷ le16 ∷ u8 ∷ le16 ∷ u8 ∷ le32 ∷ []

-- id, iface, rfproto, actmode, maxpayload, ncredits, nparams
abbrev pub rf_intf_activated_ntf : Struct
rf_intf_activated_ntf = u8 ∷ u8 ∷ u8 ∷ u8 ∷ u8 ∷ u8 ∷ u8 ∷ []

-- mode, tx_bitrate, rx_bitrate, nactparams
abbrev pub rf_intf_activated_ntf_tail : Struct
rf_intf_activated_ntf_tail = u8 ∷ u8 ∷ u8 ∷ u8 ∷ []

-- type, reason
abbrev pub rf_deactivate_ntf : Struct
rf_deactivate_ntf = u8 ∷ u8 ∷ []

-- status, nnfcees
abbrev pub nfcee_discovery_rsp : Struct
nfcee_discovery_rsp = u8 ∷ u8 ∷ []

-- projectid, rfu, chipver, patchinfover, major, minor, maxsize, patchmaxsize, lpmsize, fpmsize,
-- lpmbadcrc, fpmbadcrc, nvmtype
abbrev pub bcm2079x_get_patch_version_rsp : Struct
bcm2079x_get_patch_version_rsp =
    le16 ∷ u8 ∷ u8 ∷ array 16 ∷ le16 ∷ le16 ∷ le16 ∷ le16 ∷ le16 ∷ le16 ∷ u8 ∷ u8 ∷ u8 ∷ []
