-- ===== src/Device/Find.antt =====
-- The search for an RF interface: `nfc_find_rf_by_protocol_and_mode`.
use e2f77dee9c9d8e2bfbcafc.Base.{
  ℕ, suc, ◌+◌, ◌<◌, ◌≡◌, ◌≢◌, ◌⊎◌, inl, inr, refl, sym, subst, ap, ◌%◌, ◌-◌, fault, assertion, ◌∙◌,
  arith, List, [], ◌∷◌, get_elem?, Option, none, some, ok, Bool, true, false, ◌&&◌, Bool-cases,
}
use native.Mathlib.Decide.{dec_lt}
use native.Mathlib.Nat.{add-zero}
use e2f77dee9c9d8e2bfbcafc.Rf.{Rf, RfInterface, RfProtocol, TechMode, mode_code}
use e2f77dee9c9d8e2bfbcafc.Device.{
  Device, protocol_interface, poll_mode, iface_eq, mode_eq, find_rf, find_rf_by_protocol_and_mode,
}

iface_eq→eq : (a b : RfInterface) → iface_eq a b ≡ true → a ≡ b
unfolding iface_eq
iface_eq→eq a b h = ground arith

iface_eq_refl : (a : RfInterface) → iface_eq a a ≡ true
unfolding iface_eq
iface_eq_refl a = ground arith

mode_eq→eq : (a b : TechMode) → mode_eq a b ≡ true → a ≡ b
unfolding mode_eq
mode_eq→eq a b h = ground arith

mode_eq_refl : (a : TechMode) → mode_eq a a ≡ true
unfolding mode_eq
mode_eq_refl a = ground arith

-- The interfaces that NCI names for the protocols.
pub data Speaks : RfProtocol → RfInterface → Type 0 where
  t1t_frame : Speaks RfProtocol.t1t RfInterface.frame
  t2t_frame : Speaks RfProtocol.t2t RfInterface.frame
  t3t_frame : Speaks RfProtocol.t3t RfInterface.frame
  iso_dep : Speaks RfProtocol.iso_dep RfInterface.iso_dep
  nfc_dep : Speaks RfProtocol.nfc_dep RfInterface.nfc_dep

-- The entry fits a protocol and a mode: it has the protocol's interface, and its mode has the code of
-- the given one without the bit 0x80, which marks the listen modes.
abbrev pub Fits : RfProtocol → TechMode → Rf → Type 0
Fits proto mode r = Speaks proto r.iface × (mode_code r.mode ≡ mode_code mode % 0x80)

-- What the search promises of a table: the first entry with a property, or that there is none.
pub data Found (rf : List Rf) (P : Rf → Type 0) : Option ℕ → Type 0 where
  found :
      (i : ℕ) (r : Rf)
      → get_elem? rf i ≡ some r
      → P r
      → ((k : ℕ) (r' : Rf) → k < i → get_elem? rf k ≡ some r' → ¬ P r')
      → Found rf P (some i)
  missing : ((i : ℕ) (r : Rf) → get_elem? rf i ≡ some r → ¬ P r) → Found rf P none

-- The entry that the loop looks for.
abbrev Matches : RfInterface → TechMode → Rf → Type 0
Matches iface mode r = (r.iface ≡ iface) × (r.mode ≡ mode)

test : Rf → RfInterface → TechMode → Bool
unfolding iface_eq mode_eq
test r iface mode = iface_eq r.iface iface && mode_eq r.mode mode

test_sound :
    (r : Rf) (iface : RfInterface) (mode : TechMode)
    → test r iface mode ≡ true
    → (r.iface ≡ iface) × (r.mode ≡ mode)
unfolding test
test_sound r iface mode h = ground (arith, iface_eq→eq r.iface iface, mode_eq→eq r.mode mode)

test_complete :
    (r : Rf) (iface : RfInterface) (mode : TechMode)
    → test r iface mode ≡ false
    → ¬ Matches iface mode r
unfolding test
test_complete r iface mode h (e, f) =
    absurd (cc (iface_eq_refl iface, mode_eq_refl mode, rw (e, f) at h))

-- No entry below index `k` is the one looked for.
abbrev NoneBelow : List Rf → ℕ → RfInterface → TechMode → Type 0
NoneBelow rf k iface mode =
    (i : ℕ) (r : Rf) → i < k → get_elem? rf i ≡ some r → ¬ Matches iface mode r

NoneBelow-step :
    (rf : List Rf) (k : ℕ) (r : Rf) (iface : RfInterface) (mode : TechMode)
    → NoneBelow rf k iface mode
    → get_elem? rf k ≡ some r
    → test r iface mode ≡ false
    → NoneBelow rf (k + 1) iface mode
NoneBelow-step rf k r iface mode before here h i r' hi e = elim (dec_lt i k) [
  | yes p ↦ before i r' p e
  | no p ↦
      let same : i ≡ k = omega arith in
      let eq : r ≡ r' = cc (rw same at e) in test_complete r' iface mode (rw eq at h)
]

-- From index `k` on, `rs` is what is left of the table.
find_rf-Found :
    (rf rs : List Rf) (k : ℕ) (iface : RfInterface) (mode : TechMode)
    → ((i : ℕ) → get_elem? rf (k + i) ≡ get_elem? rs i)
    → NoneBelow rf k iface mode
    → Found rf (Matches iface mode) (find_rf rs k iface mode)
unfolding find_rf test
find_rf-Found rf [] k iface mode same before = missing λ i r e. elim (dec_lt i k) [
  | yes p ↦ before i r p e
  | no p ↦ let at : k + (i - k) ≡ i = omega arith in absurd (cc (same (i - k), at, e))
]
find_rf-Found rf (r ∷ rs) k iface mode same before = elim (Bool-cases (test r iface mode)) [
  | inl h ↦ rw h (found k r (rw add-zero at (same 0)) (test_sound r iface mode h) before)
  | inr h ↦ rw h (
      find_rf-Found rf rs (k + 1) iface mode (λ i. ap (get_elem? rf) (omega arith) ∙ same (suc i))
        (NoneBelow-step rf k r iface mode before (rw add-zero at (same 0)) h))
]

table :
    (rf : List Rf) (iface : RfInterface) (mode : TechMode)
    → Found rf (Matches iface mode) (find_rf rf 0 iface mode)
table rf iface mode =
    find_rf-Found rf rf 0 iface mode (λ i. ap (get_elem? rf) (omega arith))
      (λ i r h e. absurd (omega arith))

mode_code_injective : (a b : TechMode) → mode_code a ≡ mode_code b → a ≡ b
unfolding mode_code
mode_code_injective a b h = ground arith

mode_code-poll_mode : (mode : TechMode) → mode_code (poll_mode mode) ≡ mode_code mode % 0x80
unfolding poll_mode mode_code
mode_code-poll_mode mode = ground arith

protocol_interface-Speaks :
    (proto : RfProtocol) (iface : RfInterface)
    → Speaks proto iface
    → protocol_interface proto ≡ ok iface
unfolding protocol_interface
protocol_interface-Speaks _ _ t1t_frame = refl
protocol_interface-Speaks _ _ t2t_frame = refl
protocol_interface-Speaks _ _ t3t_frame = refl
protocol_interface-Speaks _ _ iso_dep = refl
protocol_interface-Speaks _ _ nfc_dep = refl

-- For the interface of the protocol, both descriptions of an entry say the same.
module _ (proto : RfProtocol) (iface : RfInterface) (mode : TechMode) (s : Speaks proto iface) where
  Matches-Fits : (r : Rf) → Matches iface (poll_mode mode) r → Fits proto mode r
  Matches-Fits r (e, f) =
      (subst (Speaks proto) (sym e) s, ap mode_code f ∙ mode_code-poll_mode mode)

  Fits-Matches : (r : Rf) → Fits proto mode r → Matches iface (poll_mode mode) r
  Fits-Matches r (t, f) = (
    cc (protocol_interface-Speaks proto iface s, protocol_interface-Speaks proto r.iface t),
    mode_code_injective r.mode (poll_mode mode) (f ∙ sym (mode_code-poll_mode mode)),
  )

  fitting :
      (rf : List Rf) (o : Option ℕ)
      → Found rf (Matches iface (poll_mode mode)) o
      → Found rf (Fits proto mode) o
  fitting rf _ (found i r e m before) =
      found i r e (Matches-Fits r m) (λ k r' h e' f. before k r' h e' (Fits-Matches r' f))
  fitting rf _ (missing none_of) = missing (λ i r e f. none_of i r e (Fits-Matches r f))

  searched :
      (nfc : Device)
      → (o : Option ℕ) × (find_rf_by_protocol_and_mode nfc proto mode ≡ ok o)
        × Found nfc.rf (Fits proto mode) o
  unfolding find_rf_by_protocol_and_mode
  searched nfc = (
    find_rf nfc.rf 0 iface (poll_mode mode),
    rw (protocol_interface-Speaks proto iface s) refl,
    fitting nfc.rf _ (table nfc.rf iface (poll_mode mode)),
  )

-- The search gives the index of the first entry that has the interface of the protocol and polls in the
-- technology of the mode, and NULL only where the table has no such entry; it ends in a failed
-- assertion exactly for the protocol that stands for no interface.
pub find_rf_by_protocol_and_mode_lem :
    (nfc : Device) (proto : RfProtocol) (mode : TechMode)
    → ((proto ≡ RfProtocol.undetermined)
        × (find_rf_by_protocol_and_mode nfc proto mode ≡ fault assertion))
      ⊎ ((proto ≢ RfProtocol.undetermined)
          × ((o : Option ℕ) × (find_rf_by_protocol_and_mode nfc proto mode ≡ ok o)
              × Found nfc.rf (Fits proto mode) o))
unfolding find_rf_by_protocol_and_mode
find_rf_by_protocol_and_mode_lem nfc RfProtocol.undetermined mode = inl (refl, refl)
find_rf_by_protocol_and_mode_lem nfc RfProtocol.t1t mode =
    inr (λ e. absurd (cc (e)), searched RfProtocol.t1t RfInterface.frame mode t1t_frame nfc)
find_rf_by_protocol_and_mode_lem nfc RfProtocol.t2t mode =
    inr (λ e. absurd (cc (e)), searched RfProtocol.t2t RfInterface.frame mode t2t_frame nfc)
find_rf_by_protocol_and_mode_lem nfc RfProtocol.t3t mode =
    inr (λ e. absurd (cc (e)), searched RfProtocol.t3t RfInterface.frame mode t3t_frame nfc)
find_rf_by_protocol_and_mode_lem nfc RfProtocol.iso_dep mode =
    inr (λ e. absurd (cc (e)), searched RfProtocol.iso_dep RfInterface.iso_dep mode iso_dep nfc)
find_rf_by_protocol_and_mode_lem nfc RfProtocol.nfc_dep mode =
    inr (λ e. absurd (cc (e)), searched RfProtocol.nfc_dep RfInterface.nfc_dep mode nfc_dep nfc)
