-- ===== src/Nci/Session/Entry.antt =====
-- The RF entry of a tag: `nfc_find_rf_by_protocol_and_mode` on the initial table of src/nfc.c.
use e2f77dee9c9d8e2bfbcafc.Base.{ℕ, ◌≡◌, refl, some, get_elem?, ok}
use e2f77dee9c9d8e2bfbcafc.Rf.{Rf, rf_init, Rfst, RfInterface, RfProtocol, TechMode}
use e2f77dee9c9d8e2bfbcafc.Device.{
  Device, rf_table, find_rf, find_rf_by_protocol_and_mode, protocol_interface, poll_mode,
}
use e2f77dee9c9d8e2bfbcafc.Nci.Notify.{activation_step}

-- The protocols of tags, and the interface of each.
abbrev pub IsTag : RfProtocol → Type 0
IsTag RfProtocol.nfc_dep = ⊥
IsTag RfProtocol.undetermined = ⊥
IsTag _ = Unit {0}

abbrev IsTagInterface : RfInterface → Type 0
IsTagInterface RfInterface.frame = Unit {0}
IsTagInterface RfInterface.iso_dep = Unit {0}
IsTagInterface _ = ⊥

abbrev IsPoll : TechMode → Type 0
IsPoll TechMode.a_passive_poll = Unit {0}
IsPoll TechMode.b_passive_poll = Unit {0}
IsPoll TechMode.f_passive_poll = Unit {0}
IsPoll _ = ⊥

-- The initial table has an entry for every such interface and poll mode, which leads to the state
-- where the polling side is active.
table_entry :
    (iface : RfInterface) (mode : TechMode)
    → IsTagInterface iface
    → IsPoll mode
    → (k : ℕ) × (rf : Rf) × (find_rf rf_table 0 iface mode ≡ some k)
      × (get_elem? rf_table k ≡ some rf)
      × (activation_step rf.mode ≡ (0x0a, Rfst.poll_active))
unfolding find_rf activation_step rf_init
table_entry RfInterface.frame TechMode.a_passive_poll h k =
    (2, rf_init RfInterface.frame TechMode.a_passive_poll, refl, refl, refl)
table_entry RfInterface.frame TechMode.b_passive_poll h k =
    (3, rf_init RfInterface.frame TechMode.b_passive_poll, refl, refl, refl)
table_entry RfInterface.frame TechMode.f_passive_poll h k =
    (4, rf_init RfInterface.frame TechMode.f_passive_poll, refl, refl, refl)
table_entry RfInterface.iso_dep TechMode.a_passive_poll h k =
    (5, rf_init RfInterface.iso_dep TechMode.a_passive_poll, refl, refl, refl)
table_entry RfInterface.iso_dep TechMode.b_passive_poll h k =
    (6, rf_init RfInterface.iso_dep TechMode.b_passive_poll, refl, refl, refl)
table_entry RfInterface.iso_dep TechMode.f_passive_poll h k =
    (7, rf_init RfInterface.iso_dep TechMode.f_passive_poll, refl, refl, refl)
table_entry RfInterface.frame TechMode.a_passive_listen h k = absurd k
table_entry RfInterface.frame TechMode.b_passive_listen h k = absurd k
table_entry RfInterface.frame TechMode.f_passive_listen h k = absurd k
table_entry RfInterface.iso_dep TechMode.a_passive_listen h k = absurd k
table_entry RfInterface.iso_dep TechMode.b_passive_listen h k = absurd k
table_entry RfInterface.iso_dep TechMode.f_passive_listen h k = absurd k
table_entry RfInterface.nfcee mode h k = absurd h
table_entry RfInterface.nfc_dep mode h k = absurd h

poll_mode-IsPoll : (mode : TechMode) → IsPoll (poll_mode mode)
unfolding poll_mode
poll_mode-IsPoll TechMode.a_passive_poll = tt
poll_mode-IsPoll TechMode.b_passive_poll = tt
poll_mode-IsPoll TechMode.f_passive_poll = tt
poll_mode-IsPoll TechMode.a_passive_listen = tt
poll_mode-IsPoll TechMode.b_passive_listen = tt
poll_mode-IsPoll TechMode.f_passive_listen = tt

tag_interface :
    (proto : RfProtocol)
    → IsTag proto
    → (iface : RfInterface) × (protocol_interface proto ≡ ok iface) × IsTagInterface iface
unfolding protocol_interface
tag_interface RfProtocol.t1t h = (RfInterface.frame, refl, tt)
tag_interface RfProtocol.t2t h = (RfInterface.frame, refl, tt)
tag_interface RfProtocol.t3t h = (RfInterface.frame, refl, tt)
tag_interface RfProtocol.iso_dep h = (RfInterface.iso_dep, refl, tt)
tag_interface RfProtocol.nfc_dep h = absurd h
tag_interface RfProtocol.undetermined h = absurd h

-- A search for a tag's entry finds one.
pub tag_entry :
    (nfc : Device) (proto : RfProtocol) (mode : TechMode)
    → nfc.rf ≡ rf_table
    → IsTag proto
    → (k : ℕ) × (rf : Rf) × (find_rf_by_protocol_and_mode nfc proto mode ≡ ok (some k))
      × (get_elem? nfc.rf k ≡ some rf)
      × (activation_step rf.mode ≡ (0x0a, Rfst.poll_active))
unfolding find_rf_by_protocol_and_mode
tag_entry nfc proto mode h tag =
    let (iface, speaks, is) = tag_interface proto tag in
    let (k, rf, at, there, step) = table_entry iface (poll_mode mode) is (poll_mode-IsPoll mode) in
    (k, rf, rw (speaks, h, at) refl, rw h there, step)
