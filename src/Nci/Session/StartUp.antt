-- ===== src/Nci/Session/StartUp.antt =====
-- The whole way from start-up to a message on the host: src/nfc-nci.c, src/nfc-re.c, src/nfc-tag.c and
-- src/cmdline.c.
use e2f77dee9c9d8e2bfbcafc.Base.{
  ℕ, ◌≤◌, ◌≡◌, refl, ap, ◌∙◌, arith, Bool, true, false, none, some, List, [], ◌∷◌, ◌++◌, length,
  get_elem?, splice, replicate, All, All-splice, All-replicate, length-splice, length-replicate,
  ◌>>=◌, Returns, >>=-Returns, Returns_map, if◌then◌else◌, ◌==◌,
}
use e2f77dee9c9d8e2bfbcafc.Memory.{Buf, IsByte}
use e2f77dee9c9d8e2bfbcafc.Packet.{
  pkt_mt, pkt_gid, pkt_oid, pkt_connid, mt_cmd, mt_dta, gid_core, gid_rf,
}
use e2f77dee9c9d8e2bfbcafc.Rf.{Rfst, RfProtocol, TechMode}
use e2f77dee9c9d8e2bfbcafc.Device.{FsmState, rf_table, device_init}
use e2f77dee9c9d8e2bfbcafc.Tag.{Tag, TagType, t1t_uid, t1t_cc, union_size, nfc_tags}
use e2f77dee9c9d8e2bfbcafc.Tag.Store.Laws.{tlv_area}
use e2f77dee9c9d8e2bfbcafc.Re.{Re, Host, nfc_res, init_re, nfcid_text}
use e2f77dee9c9d8e2bfbcafc.Re.Data.Answer.{Carries}
use e2f77dee9c9d8e2bfbcafc.System.{System, boot}
use e2f77dee9c9d8e2bfbcafc.Nci.Common
use e2f77dee9c9d8e2bfbcafc.Nci.Tables.{process_nci_msg, run, core_oid}
use e2f77dee9c9d8e2bfbcafc.Console.Commands.{Done, Memory}
use e2f77dee9c9d8e2bfbcafc.Console.{negsuc}
use e2f77dee9c9d8e2bfbcafc.Console.Notify.{rf_intf_activated_ntf_cb}
use e2f77dee9c9d8e2bfbcafc.Nci.Session.{Serves}
use e2f77dee9c9d8e2bfbcafc.Nci.Session.Activate.{discover_activate}
use e2f77dee9c9d8e2bfbcafc.Nci.Session.Store.{store}
use e2f77dee9c9d8e2bfbcafc.Nci.Session.T12.{t1t_session}

-- A command packet of this group and opcode.
abbrev pub IsCommand : Buf → ℕ → ℕ → Type 0
IsCommand cmd gid oid = (pkt_mt cmd ≡ mt_cmd) × (pkt_gid cmd ≡ gid) × (pkt_oid cmd ≡ oid)

-- An initialised device in which nothing has happened yet.
abbrev Fresh : System → Type 0
Fresh sys =
    (sys.nfc.state ≡ FsmState.initialized)
    × (sys.nfc.rf_state ≡ Rfst.idle)
    × (sys.nfc.active_re ≡ none)
    × (sys.nfc.active_rf ≡ none)
    × (sys.nfc.rf ≡ rf_table)
    × (sys.res ≡ nfc_res)
    × (sys.tags ≡ nfc_tags)

-- CORE_RESET and CORE_INIT at start-up.
initialised :
    (host : Host) (reset init rsp : Buf)
    → IsCommand reset gid_core 0
    → IsCommand init gid_core 1
    → Returns
        (process_nci_msg host boot reset rsp >>= λ a. process_nci_msg host a.sys init a.rsp)
        λ a. Fresh a.sys
unfolding process_nci_msg run core_oid boot device_init Common.core_reset Common.core_init
    Common.payload_reply
initialised host reset init rsp (m, g, o) (m', g', o') =
    rw (m, g, o, m', g', o') (refl, either_idle (reset 3 == 0), refl, refl, refl, refl, refl)
  where
    either_idle : (b : Bool) → (if b then Rfst.idle else Rfst.idle) ≡ Rfst.idle
    either_idle true = refl
    either_idle false = refl

-- The endpoint at index 2, and its tag.
abbrev re : Re
unfolding init_re
re =
    init_re RfProtocol.t1t TechMode.a_passive_listen (some 0) (nfcid_text 0x32)
      (0 ∷ 0 ∷ 0 ∷ 0 ∷ 0 ∷ 0 ∷ 2 ∷ 0 ∷ [])

abbrev tag : Tag
tag = record { type = TagType.t1t; mem = splice (replicate union_size 0) 0 t1t_uid }

-- The endpoint is the active one, and the tags are those of start-up.
abbrev Ready : Done → Type 0
Ready d = Serves d.sys RfProtocol.t1t 0 × (d.sys.tags ≡ nfc_tags)

activated :
    (host : Host) (sys : System) (discover rsp : Buf) (memory : Memory)
    → Fresh sys
    → IsCommand discover gid_rf 3
    → Returns
        (process_nci_msg host sys discover rsp >>= λ a.
          rf_intf_activated_ntf_cb a.sys (some 2) (negsuc 0) memory)
        Ready
unfolding nfc_res init_re
activated host sys discover rsp memory (s, h, a, f, table, res, tags) (m, g, o) =
    Returns_map _
      (λ d. (d.success ≡ true) × Serves d.sys RfProtocol.t1t 0 × (d.sys.tags ≡ sys.tags)) Ready
      (discover_activate host sys discover rsp 2 0 re memory s h a f table
        (ap (λ (l : List Re). get_elem? l 2) res) refl tt m g o)
      (λ d k. (k.1, k.2 ∙ tags))

in_tags : (tags : List Tag) → tags ≡ nfc_tags → get_elem? tags 0 ≡ some tag
unfolding nfc_tags
in_tags tags h = rw h refl

room : length tag.mem ≡ 1039
room =
    length-splice (replicate union_size 0) 0 t1t_uid
    ∙ length-replicate union_size (let z : ℕ = 0 in z)

old : All IsByte tag.mem
old =
    All-splice IsByte (replicate union_size 0) 0 t1t_uid
      (All-replicate IsByte union_size 0 (omega arith)) (omega arith)

-- From start-up on: the host resets and initialises the device and lets it discover, and the console
-- activates the type-1 tag, leaving the RF interface to the device, and stores a message of at most 89
-- bytes in it. Then the host's command RALL is answered by a data packet of the same connection with
-- the tag's 120 bytes between the header 0x11, 0x00 and a zero: the tag's id, capability container,
-- message with terminator and zeros, and sixteen zeros.
pub start_up_to_message :
    (host : Host) (reset init discover rall rsp rsp' : Buf) (memory : Memory) (msg : List ℕ)
    → IsCommand reset gid_core 0
    → IsCommand init gid_core 1
    → IsCommand discover gid_rf 3
    → pkt_mt rall ≡ mt_dta
    → rall 3 ≡ 0x00
    → length msg ≤ 89
    → All IsByte msg
    → Returns
        (((process_nci_msg host boot reset rsp >>= λ a. process_nci_msg host a.sys init a.rsp)
            >>= λ b. process_nci_msg host b.sys discover b.rsp >>= λ c.
                rf_intf_activated_ntf_cb c.sys (some 2) (negsuc 0) memory)
          >>= λ d. store d.sys 0 msg >>= λ e. process_nci_msg host e.sys rall rsp')
        λ a.
          Carries a.rsp a.len (pkt_connid rall) (
            0x11
            ∷ 0x00
            ∷ ((t1t_uid ++ ((t1t_cc ++ tlv_area 89 msg) ++ replicate 16 0)) ++ (0 ∷ [])))
start_up_to_message host reset init discover rall rsp rsp' memory msg r i d m c short bytes =
    >>=-Returns _ _ Ready _
      (>>=-Returns
        (process_nci_msg host boot reset rsp >>= λ a. process_nci_msg host a.sys init a.rsp) _
        (λ a. Fresh a.sys) Ready (initialised host reset init rsp r i)
        (λ b fresh. activated host b.sys discover b.rsp memory fresh d))
      (λ ready (v, tags).
        t1t_session host ready.sys 0 tag msg rall rsp' (in_tags ready.sys.tags tags) room old bytes
          m v refl short c)
