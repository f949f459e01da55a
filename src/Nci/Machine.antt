-- ===== src/Nci/Machine.antt =====
-- The state that the NCI commands leave: the device's two state machines, its configuration store
-- and its pointers.
use e2f77dee9c9d8e2bfbcafc.Base.{
  ℕ, zero, suc, ◌+◌, ◌%◌, ◌≤◌, ◌<◌, ◌≡◌, ◌⊎◌, inl, inr, refl, sym, subst, ◌∙◌, arith, true, false,
  bit_and, Option, none, some, List, [], ◌∷◌, length, not, ltb, leb, ◌&&◌, ◌==◌, Bool-cases, assert,
  Keeps, >>=-Keeps, >>=-Keeps_any, if-Keeps, if_both, Keeps_map, length-splice,
}
use e2f77dee9c9d8e2bfbcafc.Memory.{Buf, read}
use e2f77dee9c9d8e2bfbcafc.Rf.{Rf, Rfst, RfInterface, TechMode, rfst_bit, state_transition}
use e2f77dee9c9d8e2bfbcafc.Device.{
  FsmState, Device, config_size, rf_table, device_set, find_rf, protocol_interface, poll_mode,
  find_rf_by_protocol_and_mode,
}
use e2f77dee9c9d8e2bfbcafc.Re.{Re, find_re, get_re_by_id}
use e2f77dee9c9d8e2bfbcafc.System.{System}
use e2f77dee9c9d8e2bfbcafc.Nci.Config
use e2f77dee9c9d8e2bfbcafc.Nci.Rf

-- A pointer into a table of `n` elements, or NULL.
abbrev pub InTable : ℕ → Option ℕ → Type 0
InTable n none = Unit {0}
InTable n (some i) = i < n

-- The RF state is one of the seven of the figure, the store has its size, the RF table is that of
-- the initialiser, ids stay below 255, and no pointer leaves its table.
abbrev pub DeviceIsValid : ℕ → Device → Type 0
DeviceIsValid n nfc =
    (Rf.is_rfst nfc.rf_state ≡ true)
    × (length nfc.config_id_value ≡ config_size)
    × (nfc.rf ≡ rf_table)
    × (nfc.id ≤ 254)
    × InTable n nfc.active_re
    × InTable (length nfc.rf) nfc.active_rf

-- The same, with the state of the device's own machine.
abbrev pub ValidIn : FsmState → System → Type 0
ValidIn s sys = (sys.nfc.state ≡ s) × DeviceIsValid (length sys.res) sys.nfc

abbrev pub IsValid : System → Type 0
IsValid sys = DeviceIsValid (length sys.res) sys.nfc

bit_and_no_bits : (rfst : Rfst) → (bit_and (rfst_bit rfst) 0 == 0) ≡ true
unfolding rfst_bit
bit_and_no_bits Rfst.idle = refl
bit_and_no_bits Rfst.discovery = refl
bit_and_no_bits Rfst.w4_all_discoveries = refl
bit_and_no_bits Rfst.w4_host_select = refl
bit_and_no_bits Rfst.poll_active = refl
bit_and_no_bits Rfst.listen_active = refl
bit_and_no_bits Rfst.listen_sleep = refl
bit_and_no_bits Rfst.number_of_rfsts = refl

-- A transition to a state of the figure, or one that no state allows.
abbrev pub Proper : ℕ → Rfst → Type 0
Proper bits s = (Rf.is_rfst s ≡ true) ⊎ (bits ≡ 0)

-- What a transition that is allowed leaves: another RF state and nothing else changed.
pub rf_transition-Keeps :
    (nfc : Device) (bits : ℕ) (s : Rfst)
    → Proper bits s
    → Keeps
        (Rf.rf_transition nfc bits s)
        λ nfc'. (nfc' ≡ record nfc { rf_state = s }) × (Rf.is_rfst s ≡ true)
unfolding Rf.rf_transition state_transition Rf.is_rfst
rf_transition-Keeps nfc bits s p = elim (Bool-cases (bit_and (rfst_bit nfc.rf_state) bits == 0)) [
  | inl h ↦ rw (h) tt
  | inr h ↦ rw (h) (>>=-Keeps_any (assert (Rf.is_rfst nfc.rf_state)) _ _ (λ _. (refl, proper h)))
]
  where
    proper : (bit_and (rfst_bit nfc.rf_state) bits == 0) ≡ false → Rf.is_rfst s ≡ true
    proper h = elim p [ inl q ↦ q | inr q ↦ absurd (cc (h, q, bit_and_no_bits nfc.rf_state)) ]

pub deactivation-Proper :
    (type : ℕ) (rfst : Rfst) → Keeps (Rf.deactivation type rfst) (λ d. Proper d.0 d.1)
unfolding Rf.deactivation Rf.is_rfst
deactivation-Proper type Rfst.poll_active = ground arith
deactivation-Proper type Rfst.listen_active = ground arith
deactivation-Proper type Rfst.idle = ground arith
deactivation-Proper type Rfst.discovery = ground arith
deactivation-Proper type Rfst.w4_all_discoveries = ground arith
deactivation-Proper type Rfst.w4_host_select = ground arith
deactivation-Proper type Rfst.listen_sleep = ground arith
deactivation-Proper type Rfst.number_of_rfsts = ground arith

find_re-InTable : (res : List Re) (i id n : ℕ) → n ≡ i + length res → InTable n (find_re res i id)
unfolding find_re
find_re-InTable [] i id n h = tt
find_re-InTable (r ∷ rs) i id n h = ground (arith, find_re-InTable rs (i + 1) id n (omega arith))

find_rf-InTable :
    (rfs : List Rf) (i : ℕ) (iface : RfInterface) (mode : TechMode) (n : ℕ)
    → n ≡ i + length rfs
    → InTable n (find_rf rfs i iface mode)
unfolding find_rf
find_rf-InTable [] i iface mode n h = tt
find_rf-InTable (r ∷ rs) i iface mode n h =
    ground (arith, find_rf-InTable rs (i + 1) iface mode n (omega arith))

pub found_rf-InTable :
    (nfc : Device) (re : Re)
    → Keeps (find_rf_by_protocol_and_mode nfc re.rfproto re.mode) (InTable (length nfc.rf))
unfolding find_rf_by_protocol_and_mode
found_rf-InTable nfc re =
    >>=-Keeps_any (protocol_interface re.rfproto) _ _
      (λ iface. find_rf-InTable nfc.rf 0 iface (poll_mode re.mode) (length nfc.rf) (omega arith))

pub found_re-InTable : (res : List Re) (id : ℕ) → Keeps (get_re_by_id res id) (InTable (length res))
unfolding get_re_by_id
found_re-InTable res id = >>=-Keeps_any (assert (ltb 0 id)) _ _ λ _.
    >>=-Keeps_any (assert (ltb id 255)) _ _ λ _. find_re-InTable res 0 id (length res) (omega arith)

device_set-Valid :
    (n : ℕ) (s : FsmState) (nfc : Device) (off : ℕ) (value : List ℕ)
    → (nfc.state ≡ s) × DeviceIsValid n nfc
    → Keeps (device_set nfc off value) (λ nfc'. (nfc'.state ≡ s) × DeviceIsValid n nfc')
unfolding device_set
device_set-Valid n s nfc off value (e, v) =
    let (a, b, c, d, g, h) = v in
    >>=-Keeps_any (assert (ltb (off + length value) config_size)) _ _
      λ _. (e, (a, length-splice nfc.config_id_value off value ∙ b, c, d, g, h))

nci_device_set-Valid :
    (s : FsmState) (sys : System) (id len : ℕ) (src : Buf) (from : ℕ)
    → ValidIn s sys
    → Keeps (Config.nci_device_set sys id len src from) (ValidIn s)
unfolding Config.nci_device_set
nci_device_set-Valid s sys id len src from v =
    let (off, size) = Config.config_param id in
    let bytes = read src from len in
    let late = id == Config.i93_datarate && not (bit_and (src (from + 2)) 0x1 == 0) in
    >>=-Keeps_any (assert (not (size == 0))) _ (ValidIn s) λ _.
      >>=-Keeps_any (assert (leb len size)) _ (ValidIn s) λ _.
        >>=-Keeps (device_set sys.nfc off bytes) _ _ (ValidIn s)
          (device_set-Valid (length sys.res) s sys.nfc off bytes v)
          (λ nfc v'. if_both late _ _ (ValidIn s) v' v')

set_param-Valid :
    (s : FsmState) (sys : System) (cmd : Buf) (at : ℕ)
    → ValidIn s sys
    → Keeps (Config.set_param sys cmd at) (ValidIn s)
unfolding Config.set_param
set_param-Valid s sys cmd at v =
    if-Keeps (cmd (at + 1) == 0) _ _ (ValidIn s)
      (nci_device_set-Valid s sys (cmd at) (Config.config_param (cmd at)).0 Config.defaults 0 v)
      (nci_device_set-Valid s sys (cmd at) (cmd (at + 1)) cmd (at + 2) v)

pub set_params-Valid :
    (n : ℕ) (s : FsmState) (sys : System) (cmd : Buf) (off : ℕ)
    → ValidIn s sys
    → Keeps (Config.set_params n sys cmd off) (ValidIn s)
unfolding Config.set_params
set_params-Valid zero s sys cmd off v = v
set_params-Valid (suc n) s sys cmd off v =
    >>=-Keeps (Config.set_param sys cmd (4 + off)) _ (ValidIn s) (ValidIn s)
      (set_param-Valid s sys cmd (4 + off) v)
      (λ sys'. set_params-Valid n s sys' cmd ((off + 2 + cmd (4 + off + 1)) % 256))

-- The RF part of the invariant after a transition.
pub rf_transition-Valid :
    (n : ℕ) (s : FsmState) (nfc : Device) (bits : ℕ) (rfst : Rfst)
    → Proper bits rfst
    → (nfc.state ≡ s) × DeviceIsValid n nfc
    → Keeps (Rf.rf_transition nfc bits rfst) (λ nfc'. (nfc'.state ≡ s) × DeviceIsValid n nfc')
rf_transition-Valid n s nfc bits rfst p (e, v) =
    let (a, b, c, d, g, h) = v in
    Keeps_map (Rf.rf_transition nfc bits rfst) _ _ (rf_transition-Keeps nfc bits rfst p)
      λ nfc' (q, k). subst (λ m. (m.state ≡ s) × DeviceIsValid n m) (sym q) (e, (k, b, c, d, g, h))
