-- ===== src/Nci/Refuse.antt =====
-- What a device that is not initialised refuses, and how it is brought up.
use e2f77dee9c9d8e2bfbcafc.Base.{
  ℕ, ◌<◌, length, get_or, ◌%◌, ◌≡◌, ◌≢◌, ◌⊎◌, inl, inr, refl, sym, ap, subst, arith, Option, none,
  some, List, [], ◌∷◌, ◌==◌, if◌then◌else◌, if_both, All, Keeps, Returns,
}
use e2f77dee9c9d8e2bfbcafc.Memory.{Buf, poke, write-frame}
use e2f77dee9c9d8e2bfbcafc.Packet.{
  pkt_gid, pkt_oid, gid_core, gid_rf, gid_nfcee, status_ok, status_semantic_error,
}
use e2f77dee9c9d8e2bfbcafc.Rf.{Rfst}
use e2f77dee9c9d8e2bfbcafc.Device.{FsmState, idle, reset, initialized}
use e2f77dee9c9d8e2bfbcafc.System.{System}
use e2f77dee9c9d8e2bfbcafc.Nci.Common
use e2f77dee9c9d8e2bfbcafc.Nci.Tables.{
  Command, core_reset, semantic_error, entry, core_oid, rf_oid, nfcee_oid, command, run, run_entry,
  process_nci_cmd,
}

abbrev Refuses : Option Command → Type 0
Refuses o = (o ≡ none) ⊎ (o ≡ some semantic_error)

entry-Refuses :
    (table : List (ℕ × Command)) (oid : ℕ)
    → All (λ e. e.1 ≡ semantic_error) table
    → Refuses (entry table oid)
unfolding entry
entry-Refuses [] oid h = inl refl
entry-Refuses ((k, c) ∷ rest) oid h =
    if_both (k == oid) (some c) (entry rest oid) Refuses (inr (ap some h.0))
      (entry-Refuses rest oid h.1)

tables-Refuses :
    (s : FsmState)
    → s ≢ initialized
    → All (λ e. e.1 ≡ semantic_error) (rf_oid s) × All (λ e. e.1 ≡ semantic_error) (nfcee_oid s)
unfolding rf_oid nfcee_oid
tables-Refuses idle h = ground arith
tables-Refuses reset h = ground arith
tables-Refuses initialized h = absurd (h refl)

command-Refuses :
    (s : FsmState) (gid oid : ℕ)
    → s ≢ initialized
    → (gid ≡ gid_rf) ⊎ (gid ≡ gid_nfcee)
    → Refuses (command s gid oid)
unfolding command
command-Refuses s gid oid h (inl e) =
    subst (λ g. Refuses (command s g oid)) (sym e)
      (entry-Refuses (rf_oid s) oid (tables-Refuses s h).0)
command-Refuses s gid oid h (inr e) =
    subst (λ g. Refuses (command s g oid)) (sym e)
      (entry-Refuses (nfcee_oid s) oid (tables-Refuses s h).1)

-- Until it is initialised, the device answers every command of the RF and of the NFCEE group that
-- its tables have with the status SEMANTIC_ERROR in a response of four bytes, and its state, the
-- endpoints and the tags stay as they are.
pub process_nci_cmd_refuses :
    (sys : System) (cmd rsp : Buf)
    → sys.nfc.state ≢ initialized
    → (pkt_gid cmd ≡ gid_rf) ⊎ (pkt_gid cmd ≡ gid_nfcee)
    → Keeps
        (process_nci_cmd sys cmd rsp)
        λ r. (r.sys ≡ sys) × (r.rsp 3 ≡ status_semantic_error) × (r.len ≡ 4)
unfolding process_nci_cmd
process_nci_cmd_refuses sys cmd rsp h g =
    at (command sys.nfc.state (pkt_gid cmd) (pkt_oid cmd))
      (command-Refuses sys.nfc.state (pkt_gid cmd) (pkt_oid cmd) h g)
  where
    at :
        (o : Option Command)
        → Refuses o
        → Keeps
            (run_entry o sys cmd rsp)
            λ r. (r.sys ≡ sys) × (r.rsp 3 ≡ status_semantic_error) × (r.len ≡ 4)
    at o (inl e) =
        subst
          (λ x.
            Keeps (run_entry x sys cmd rsp)
              (λ r. (r.sys ≡ sys) × (r.rsp 3 ≡ status_semantic_error) × (r.len ≡ 4)))
          (sym e) (unfold run_entry in tt)
    at o (inr e) =
        subst
          (λ x.
            Keeps (run_entry x sys cmd rsp)
              (λ r. (r.sys ≡ sys) × (r.rsp 3 ≡ status_semantic_error) × (r.len ≡ 4)))
          (sym e)
          (unfold run_entry in
            unfold run in
            unfold Common.semantic_error in unfold Common.status_reply in ground arith)

payload_reply_first :
    (sys : System) (cmd rsp : Buf) (bytes : List ℕ)
    → 0 < length bytes
    → (Common.payload_reply sys cmd rsp bytes).rsp 3 ≡ get_or bytes 0 0 % 256
unfolding Common.payload_reply
payload_reply_first sys cmd rsp [] h = absurd (omega arith)
payload_reply_first sys cmd rsp (x ∷ xs) h =
    ground (arith, write-frame (poke rsp 3 x) 4 xs 3 (inl (omega arith)))

-- The two commands that bring the device up are answered with STATUS_OK from any state: after
-- CORE_RESET, unless the device already is reset, and then CORE_INIT, the device is initialised. A
-- reset of the configuration also takes the RF state back to idle.
pub bring_up :
    (sys : System) (cmd rsp cmd' rsp' : Buf)
    → sys.nfc.state ≢ reset
    → (pkt_gid cmd ≡ gid_core) × (pkt_oid cmd ≡ 0)
    → (pkt_gid cmd' ≡ gid_core) × (pkt_oid cmd' ≡ 1)
    → Returns (process_nci_cmd sys cmd rsp) λ r.
      (r.sys.nfc.state ≡ reset)
      × (r.rsp 3 ≡ status_ok)
      × (r.sys.nfc.rf_state ≡ (if cmd 3 == 0 then sys.nfc.rf_state else Rfst.idle))
      × Returns (process_nci_cmd r.sys cmd' rsp') λ r'.
        (r'.sys.nfc.state ≡ initialized)
        × (r'.rsp 3 ≡ status_ok)
        × (r'.sys.nfc.rf_state ≡ r.sys.nfc.rf_state)
unfolding process_nci_cmd run_entry run command entry core_oid Common.core_reset Common.core_init
    Common.payload_reply
bring_up sys cmd rsp cmd' rsp' h (g, o) (g', o') =
    rw (g, o, g', o', first sys.nfc.state h)
      (
        refl,
        payload_reply_first sys cmd rsp (status_ok ∷ 0x10 ∷ cmd 3 ∷ []) (omega arith),
        refl,
        (
          refl,
          payload_reply_first sys cmd' rsp' (Common.core_init_payload sys.nfc.rf) (omega arith),
          refl,
        ),
      )
  where
    first : (s : FsmState) → s ≢ reset → command s 0 0 ≡ some core_reset
    first idle n = refl
    first reset n = absurd (n refl)
    first initialized n = refl
