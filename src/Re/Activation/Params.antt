-- ===== src/Re/Activation/Params.antt =====
-- The sizes of the parameters of an activation notification: src/nfc-re.c.
use e2f77dee9c9d8e2bfbcafc.Base.{
  ℕ, ◌+◌, ◌≤◌, ◌≡◌, refl, ap, ◌∙◌, arith, List, [], ◌∷◌, ◌++◌, length, length-append, All,
  All-append,
}
use e2f77dee9c9d8e2bfbcafc.Memory.{Buf, IsByte, write}
use e2f77dee9c9d8e2bfbcafc.Rf.{TechMode, RfProtocol}
use e2f77dee9c9d8e2bfbcafc.Llcp.{param_tail}
use e2f77dee9c9d8e2bfbcafc.Re.{Re}
use e2f77dee9c9d8e2bfbcafc.Re.Activation.{
  nfca_poll_bytes, create_rf_intf_activated_ntf_tech, act_bytes, nfc_dep_bytes, sel_res,
  timeout_bytes,
}

-- The technology parameters: those of the poll mode A, and none in another mode.
abbrev pub tech_params : TechMode → Re → List ℕ
tech_params TechMode.a_passive_poll re = nfca_poll_bytes re.rfproto re.nfcid1
tech_params _ re = []

pub tech_stored :
    (mode : TechMode) (re : Re) (b : Buf)
    → create_rf_intf_activated_ntf_tech mode re b 10
      ≡ (write b 10 (tech_params mode re), length (tech_params mode re))
unfolding create_rf_intf_activated_ntf_tech
tech_stored TechMode.a_passive_poll re b = refl
tech_stored TechMode.b_passive_poll re b = refl
tech_stored TechMode.f_passive_poll re b = refl
tech_stored TechMode.a_passive_listen re b = refl
tech_stored TechMode.b_passive_listen re b = refl
tech_stored TechMode.f_passive_listen re b = refl

-- The identifiers of an endpoint have ten bytes.
abbrev pub HasIds : Re → Type 0
HasIds re =
    (length re.nfcid1 ≡ 10) × (length re.nfcid3 ≡ 10) × All IsByte re.nfcid1 × All IsByte re.nfcid3

-- An identifier and what follows it.
id_append :
    (ids xs : List ℕ)
    → length ids ≡ 10
    → All IsByte ids
    → All IsByte xs
    → (length (ids ++ xs) ≡ 10 + length xs) × All IsByte (ids ++ xs)
id_append ids xs e h k =
    (length-append ids xs ∙ ap (λ n. n + length xs) e, All-append IsByte ids xs h k)

sel_res-IsByte : (proto : RfProtocol) → IsByte (sel_res proto)
unfolding sel_res
sel_res-IsByte RfProtocol.undetermined = omega arith
sel_res-IsByte RfProtocol.t1t = omega arith
sel_res-IsByte RfProtocol.t2t = omega arith
sel_res-IsByte RfProtocol.t3t = omega arith
sel_res-IsByte RfProtocol.iso_dep = omega arith
sel_res-IsByte RfProtocol.nfc_dep = omega arith

poll_bytes :
    (proto : RfProtocol) (ids : List ℕ)
    → length ids ≡ 10
    → All IsByte ids
    → (length (nfca_poll_bytes proto ids) ≤ 15) × All IsByte (nfca_poll_bytes proto ids)
unfolding nfca_poll_bytes
poll_bytes proto ids e h =
    let (n, b) =
      id_append ids (1 ∷ sel_res proto ∷ []) e h (omega arith, (sel_res-IsByte proto, tt)) in
    poll proto n b
  where
    poll :
        (proto' : RfProtocol)
        → length (ids ++ (1 ∷ sel_res proto' ∷ [])) ≡ 12
        → All IsByte (ids ++ (1 ∷ sel_res proto' ∷ []))
        → (length (nfca_poll_bytes proto' ids) ≤ 15) × All IsByte (nfca_poll_bytes proto' ids)
    poll RfProtocol.undetermined n b =
        (omega (arith, n), (omega arith, (omega arith, (omega arith, b))))
    poll RfProtocol.t1t n b =
        (omega arith, (omega arith, (omega arith, (omega arith, (omega arith, tt)))))
    poll RfProtocol.t2t n b = (omega (arith, n), (omega arith, (omega arith, (omega arith, b))))
    poll RfProtocol.t3t n b = (omega (arith, n), (omega arith, (omega arith, (omega arith, b))))
    poll RfProtocol.iso_dep n b = (omega (arith, n), (omega arith, (omega arith, (omega arith, b))))
    poll RfProtocol.nfc_dep n b = (omega (arith, n), (omega arith, (omega arith, (omega arith, b))))

pub tech_bytes :
    (mode : TechMode) (re : Re)
    → HasIds re
    → (length (tech_params mode re) ≤ 15) × All IsByte (tech_params mode re)
tech_bytes TechMode.a_passive_poll re h = poll_bytes re.rfproto re.nfcid1 h.0 h.2
tech_bytes TechMode.b_passive_poll re h = (omega arith, tt)
tech_bytes TechMode.f_passive_poll re h = (omega arith, tt)
tech_bytes TechMode.a_passive_listen re h = (omega arith, tt)
tech_bytes TechMode.b_passive_listen re h = (omega arith, tt)
tech_bytes TechMode.f_passive_listen re h = (omega arith, tt)

-- What follows an identifier in the general bytes, with and without a timeout.
general_bytes :
    (mode : TechMode)
    → (length (0 ∷ 0 ∷ 0 ∷ (timeout_bytes mode ++ (0x02 ∷ param_tail))) ≤ 14)
      × All IsByte (0 ∷ 0 ∷ 0 ∷ (timeout_bytes mode ++ (0x02 ∷ param_tail)))
unfolding timeout_bytes
general_bytes TechMode.a_passive_poll = ground arith
general_bytes TechMode.b_passive_poll = ground arith
general_bytes TechMode.f_passive_poll = ground arith
general_bytes TechMode.a_passive_listen = ground arith
general_bytes TechMode.b_passive_listen = ground arith
general_bytes TechMode.f_passive_listen = ground arith

pub act_params :
    (proto : RfProtocol) (re : Re)
    → HasIds re
    → (length (act_bytes proto re) ≤ 26) × All IsByte (act_bytes proto re)
unfolding act_bytes nfc_dep_bytes
act_params RfProtocol.undetermined re h = (omega arith, tt)
act_params RfProtocol.t1t re h = (omega arith, (omega arith, (omega arith, tt)))
act_params RfProtocol.t2t re h = (omega arith, tt)
act_params RfProtocol.t3t re h = (omega arith, tt)
act_params RfProtocol.iso_dep re h = (omega arith, tt)
act_params RfProtocol.nfc_dep re h =
    let (m, k) = general_bytes re.mode in
    let (n, b) =
      id_append re.nfcid3 (0 ∷ 0 ∷ 0 ∷ (timeout_bytes re.mode ++ (0x02 ∷ param_tail))) h.1 h.3 k in
    (omega (arith, n, m), (omega arith, b))
