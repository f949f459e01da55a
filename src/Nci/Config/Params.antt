-- ===== src/Nci/Config/Params.antt =====
-- What CORE_SET_CONFIG leaves in the store of the device: src/nfc-nci.c.
use e2f77dee9c9d8e2bfbcafc.Base.{
  ℕ, ◌+◌, ◌%◌, ◌≤◌, ◌<◌, ◌≡◌, refl, ap, ◌∙◌, arith, true, false, List, [], ◌∷◌, length, splice,
  lt→ltb, ltb, leb, ◌==◌, All, Returns, >>=-Returns, Returns_map, if_both, subst,
}
use e2f77dee9c9d8e2bfbcafc.Memory.{Buf, read}
use e2f77dee9c9d8e2bfbcafc.Device.{Device, config_size, device_set}
use e2f77dee9c9d8e2bfbcafc.System.{System}
use e2f77dee9c9d8e2bfbcafc.Nci.Config.{config_param, nci_device_set, set_param, set_params}
use e2f77dee9c9d8e2bfbcafc.Nci.Config.Table.{config_param_low}

-- A parameter with a value that its bytes in the store have room for.
abbrev pub IsParam : ℕ × List ℕ → Type 0
IsParam (id, value) = (0 < length value) × (length value ≤ (config_param id).1)

-- The parameters stand in the command from offset `at` on, each as its id, its length and its value.
abbrev pub Lists : Buf → ℕ → List (ℕ × List ℕ) → Type 0
Lists cmd at [] = Unit {0}
Lists cmd at ((id, value) ∷ params) =
    (cmd at ≡ id)
    × (cmd (at + 1) ≡ length value)
    × (read cmd (at + 2) (length value) ≡ value)
    × Lists cmd (at + 2 + length value) params

abbrev pub total : List (ℕ × List ℕ) → ℕ
total [] = 0
total ((id, value) ∷ params) = 2 + length value + total params

-- The store with the values in it, the later ones over the earlier ones.
abbrev pub stores : List ℕ → List (ℕ × List ℕ) → List ℕ
stores store [] = store
stores store ((id, value) ∷ params) = stores (splice store (config_param id).0 value) params

-- What setting one parameter leaves: its value in its bytes of the store, and the rest of the device
-- and the endpoints as they were.
abbrev Holds : System → ℕ → List ℕ → System → Type 0
Holds sys id value sys' =
    (sys'.nfc ≡ record (sys.nfc) {
      config_id_value = splice sys.nfc.config_id_value (config_param id).0 value;
    })
    × (sys'.res ≡ sys.res)

nci_device_set_lem :
    (sys : System) (id : ℕ) (value : List ℕ) (src : Buf) (at : ℕ)
    → IsParam (id, value)
    → read src at (length value) ≡ value
    → Returns (nci_device_set sys id (length value) src at) (Holds sys id value)
unfolding nci_device_set device_set
nci_device_set_lem sys id value src at (pos, fits) h =
    let room : ((config_param id).1 == 0) ≡ false = ground arith in
    let short : leb (length value) (config_param id).1 ≡ true = ground arith in
    let low : ltb ((config_param id).0 + length value) config_size ≡ true =
      lt→ltb _ _ (omega (arith, config_param_low id (λ e. absurd (omega (arith, e))))) in
    rw (room, short, h, low) (if_both _ _ _ (Holds sys id value) (refl, refl) (refl, refl))

set_param_lem :
    (sys : System) (cmd : Buf) (at id : ℕ) (value : List ℕ)
    → IsParam (id, value)
    → cmd at ≡ id
    → cmd (at + 1) ≡ length value
    → read cmd (at + 2) (length value) ≡ value
    → Returns (set_param sys cmd at) (Holds sys id value)
unfolding set_param
set_param_lem sys cmd at id value v h0 h1 h2 =
    let some_bytes : (length value == 0) ≡ false = ground arith in
    rw (h0, h1, some_bytes) (nci_device_set_lem sys id value cmd (at + 2) v h2)

pub set_params_lem :
    (params : List (ℕ × List ℕ)) (sys : System) (cmd : Buf) (off : ℕ)
    → All IsParam params
    → Lists cmd (4 + off) params
    → off + total params < 256
    → Returns (set_params (length params) sys cmd off) λ sys'.
      (sys'.nfc ≡ record (sys.nfc) { config_id_value = stores sys.nfc.config_id_value params })
      × (sys'.res ≡ sys.res)
unfolding set_params
set_params_lem [] sys cmd off v h fits = (refl, refl)
set_params_lem ((id, value) ∷ params) sys cmd off (v, vs) (h0, h1, h2, h3) fits =
    let next = off + 2 + length value in
    let wrap : (off + 2 + length value) % 256 ≡ next = omega arith in
    let there : 4 + off + 2 + length value ≡ 4 + next = omega arith in
    >>=-Returns (set_param sys cmd (4 + off)) _ (Holds sys id value) _
      (set_param_lem sys cmd (4 + off) id value v h0 h1 h2)
      (λ sys₁ (e, f).
        rw (h1, wrap)
          (Returns_map (set_params (length params) sys₁ cmd next) _ _
            (set_params_lem params sys₁ cmd next vs (subst (λ at. Lists cmd at params) there h3)
              (omega arith))
            (λ sys₂ (g, k).
              let more : Device → Device =
                λ nfc. record nfc { config_id_value = stores nfc.config_id_value params } in
              (g ∙ ap more e, k ∙ f))))
