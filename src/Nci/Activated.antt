-- ===== src/Nci/Activated.antt =====
-- The notification of an activation: src/nfc-nci.c and src/nfc-re.c, read through the structures of
-- src/nfc-nci.h.
use e2f77dee9c9d8e2bfbcafc.Base.{
  ℕ, ◌+◌, ◌≡◌, refl, sym, ap, ◌∙◌, ◌%◌, inl, inr, arith, [], ◌∷◌, length, subst, Bool-cases, ◌==◌,
  get_elem?, Option, some, none, Returns, >>=-Returns,
}
use e2f77dee9c9d8e2bfbcafc.Memory.{Buf, IsByte, read, write}
use e2f77dee9c9d8e2bfbcafc.Packet.{pkt_len, gid_rf, mt_ntf, create_nci_ntf}
use e2f77dee9c9d8e2bfbcafc.Device.{Device, device_incr_id}
use e2f77dee9c9d8e2bfbcafc.System.{System}
use e2f77dee9c9d8e2bfbcafc.Nci.Rf.{rf_transition}
use e2f77dee9c9d8e2bfbcafc.Nci.Notify.{
  identified, activation_step, activate_re, create_rf_intf_activated_ntf,
}
use e2f77dee9c9d8e2bfbcafc.Rf.Codes.{mode_code-IsByte, protocol_code-IsByte, interface_code-IsByte}
use e2f77dee9c9d8e2bfbcafc.Nci.Parts.{parts, parts_lem}
use e2f77dee9c9d8e2bfbcafc.Re.Activation.Params.{
  tech_params, tech_stored, HasIds, tech_bytes, act_params,
}
use e2f77dee9c9d8e2bfbcafc.Nci.Session.{get_elem?-set_self}
use e2f77dee9c9d8e2bfbcafc.Rf.{Rf, Rfst, TechMode, mode_code, protocol_code, interface_code}
use e2f77dee9c9d8e2bfbcafc.Re.{Re}
use e2f77dee9c9d8e2bfbcafc.Re.Activation.{
  create_rf_intf_activated_ntf_tech, create_rf_intf_activated_ntf_act, act_bytes,
}
use e2f77dee9c9d8e2bfbcafc.Wire.{Values, view, pack, unpack}
use e2f77dee9c9d8e2bfbcafc.Wire.Nci.{rf_intf_activated_ntf, rf_intf_activated_ntf_tail}

-- An endpoint that gets an id changes in nothing else, and the id is a byte.
identified_lem :
    (nfc : Device) (re : Re)
    → IsByte re.id
    → ((identified nfc re).1 ≡ record re { id = (identified nfc re).1.id })
      × IsByte (identified nfc re).1.id
      × ((identified nfc re).0.rf_state ≡ nfc.rf_state)
      × ((identified nfc re).0.active_re ≡ nfc.active_re)
unfolding device_incr_id
identified_lem nfc re h = elim (Bool-cases (re.id == 0)) [
  | inl e ↦ rw e (refl, omega arith, refl, refl)
  | inr e ↦ rw e (refl, h, refl, refl)
]

-- A discovery may end in either active state.
activation_transition :
    (nfc : Device) (mode : TechMode)
    → nfc.rf_state ≡ Rfst.discovery
    → Returns
        (rf_transition nfc (activation_step mode).0 (activation_step mode).1)
        λ nfc'. nfc'.active_re ≡ nfc.active_re
unfolding rf_transition activation_step
activation_transition nfc TechMode.a_passive_poll h = rw h refl
activation_transition nfc TechMode.b_passive_poll h = rw h refl
activation_transition nfc TechMode.f_passive_poll h = rw h refl
activation_transition nfc TechMode.a_passive_listen h = rw h refl
activation_transition nfc TechMode.b_passive_listen h = rw h refl
activation_transition nfc TechMode.f_passive_listen h = rw h refl

-- The values of the two structures for an endpoint on an RF entry.
abbrev pub head_values : Rf → Re → Values rf_intf_activated_ntf
head_values rf re = (
  re.id,
  (
    interface_code rf.iface,
    (
      protocol_code re.rfproto,
      (mode_code rf.mode, (255, (0xff, (length (tech_params rf.mode re), tt)))),
    ),
  ),
)

abbrev pub tail_values : Re → Values rf_intf_activated_ntf_tail
tail_values re = (mode_code re.mode, (0x01, (0x01, (length (act_bytes re.rfproto re), tt))))

-- The packet names the endpoint, and its parts stand where their lengths say.
abbrev pub Describes : Buf → ℕ → Rf → Re → Type 0
Describes b len rf re =
    let n = length (tech_params rf.mode re) in
    let m = length (act_bytes re.rfproto re) in
    (view rf_intf_activated_ntf b 3 ≡ head_values rf re)
    × (read b 10 n ≡ tech_params rf.mode re)
    × (view rf_intf_activated_ntf_tail b (10 + n) ≡ tail_values re)
    × (read b (14 + n) m ≡ act_bytes re.rfproto re)
    × (pkt_len b ≡ 11 + n + m)
    × (len ≡ 14 + n + m)

packet_Describes :
    (b : Buf) (rf : Rf) (re : Re)
    → HasIds re
    → IsByte re.id
    → let n = length (tech_params rf.mode re) in
      let m = length (act_bytes re.rfproto re) in
      let p =
        create_nci_ntf
          (parts b
            (pack rf_intf_activated_ntf (head_values rf re))
            (tech_params rf.mode re)
            (pack rf_intf_activated_ntf_tail (tail_values re))
            (act_bytes re.rfproto re))
          gid_rf
          0x05
          (7 + n % 256 + 4 + m % 256) in
      Describes p.0 p.1 rf re
unfolding create_nci_ntf
packet_Describes b rf re ids id =
    let n = length (tech_params rf.mode re) in
    let m = length (act_bytes re.rfproto re) in
    let (tl, tb) = tech_bytes rf.mode re ids in
    let (al, ab) = act_params re.rfproto re ids in
    let (e₁, e₂, e₃, e₄) =
      parts_lem b (pack rf_intf_activated_ntf (head_values rf re)) (tech_params rf.mode re)
        (pack rf_intf_activated_ntf_tail (tail_values re)) (act_bytes re.rfproto re) mt_ntf gid_rf
        0x05 (7 + n % 256 + 4 + m % 256) refl refl (omega (arith, tl))
        (
          id,
          (
            interface_code-IsByte rf.iface,
            (
              protocol_code-IsByte re.rfproto,
              (mode_code-IsByte rf.mode, (omega arith, (omega arith, (omega (arith, tl), tt)))),
            ),
          ),
        )
        tb (mode_code-IsByte re.mode, (omega arith, (omega arith, (omega (arith, al), tt)))) ab in
    (
      ap (unpack rf_intf_activated_ntf) e₁,
      e₂,
      ap (unpack rf_intf_activated_ntf_tail) e₃,
      e₄,
      omega (arith, tl, al),
      omega (arith, tl, al),
    )

-- The packet of the code, from what has stored the technology parameters.
abbrev packet_after : Rf → Re → Buf × ℕ → Buf × ℕ
packet_after rf re tech =
    let act = create_rf_intf_activated_ntf_act re tech.0 (10 + tech.1 % 256 + 4) in
    let head =
      re.id
      ∷ interface_code rf.iface
      ∷ protocol_code re.rfproto
      ∷ mode_code rf.mode
      ∷ 255
      ∷ 0xff
      ∷ tech.1
      ∷ [] in
    let tail = mode_code re.mode ∷ 0x01 ∷ 0x01 ∷ act.1 ∷ [] in
    create_nci_ntf (write (write act.0 3 head) (10 + tech.1 % 256) tail) gid_rf 0x05
      (7 + tech.1 % 256 + 4 + act.1 % 256)

after_Describes :
    (b : Buf) (rf : Rf) (re : Re)
    → HasIds re
    → IsByte re.id
    → let p = packet_after rf re (create_rf_intf_activated_ntf_tech rf.mode re b 10) in
      Describes p.0 p.1 rf re
unfolding create_rf_intf_activated_ntf_act
after_Describes b rf re ids id =
    subst (λ t. Describes (packet_after rf re t).0 (packet_after rf re t).1 rf re)
      (sym (tech_stored rf.mode re b)) (packet_Describes b rf re ids id)

pub activate_first :
    (active : Option ℕ) (i : ℕ) → active ≡ none → Returns (activate_re active i) (λ a. a ≡ some i)
unfolding activate_re
activate_first active i h = rw h refl

-- The device with this active RF interface.
abbrev pub using : System → ℕ → System
using sys k = record sys { nfc = record (sys.nfc) { active_rf = some k } }

-- In discovery, with an active RF interface and no active endpoint, the activation of an endpoint
-- whose identifiers have ten bytes and whose id is a byte succeeds. The notification then holds, in
-- this order, the first structure with the endpoint's id, the codes of the interface, the protocol and
-- the mode, and the number of technology parameters, these parameters, the second structure with the
-- number of activation parameters, and these; its lengths count all of them. The endpoint differs
-- at most in its id.
pub activated_ntf-Describes :
    (sys : System) (i k : ℕ) (ntf : Buf) (re : Re) (rf : Rf)
    → sys.nfc.rf_state ≡ Rfst.discovery
    → sys.nfc.active_re ≡ none
    → get_elem? sys.nfc.rf k ≡ some rf
    → get_elem? sys.res i ≡ some re
    → HasIds re
    → IsByte re.id
    → Returns (create_rf_intf_activated_ntf (using sys k) i ntf) λ r.
      (re' : Re) × (get_elem? r.0.res i ≡ some re')
      × (re' ≡ record re { id = re'.id })
      × Describes r.1 r.2 rf re'
unfolding create_rf_intf_activated_ntf
activated_ntf-Describes sys i k ntf re rf hs ha hr there ids small =
    let dev = (using sys k).nfc in
    let re' = (identified dev re).1 in
    let nfc = (identified dev re).0 in
    let (same, id, st, act) = identified_lem dev re small in
    let ids' : HasIds re' = rw same ids in
    rw (there, hr)
      (>>=-Returns (rf_transition nfc (activation_step rf.mode).0 (activation_step rf.mode).1) _ _ _
        (activation_transition nfc rf.mode (st ∙ hs))
        (λ nfc' e.
          >>=-Returns (activate_re nfc'.active_re i) _ _ _
            (activate_first nfc'.active_re i (e ∙ (act ∙ ha)))
            (λ active g. (
              re',
              get_elem?-set_self sys.res i re re' there,
              same,
              after_Describes ntf rf re' ids' id,
            ))))
