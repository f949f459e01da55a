-- ===== src/Nci/Config/ReadBack.antt =====
-- Reading back the parameters of CORE_SET_CONFIG: src/nfc-nci.c.
use e2f77dee9c9d8e2bfbcafc.Base.{
  ℕ, ◌+◌, ◌≤◌, ◌<◌, ◌≡◌, ◌≢◌, refl, sym, ap, ◌∙◌, arith, true, List, [], ◌∷◌, ◌++◌, length, splice,
  slice, length-splice, slice-splice, slice-splice_outside, lt→ltb, ltb, ◌==◌, All, ok, Returns,
  >>=-Returns,
}
use e2f77dee9c9d8e2bfbcafc.Memory.{Buf}
use e2f77dee9c9d8e2bfbcafc.Packet.{status_ok}
use e2f77dee9c9d8e2bfbcafc.Device.{Device, config_size, device_get}
use e2f77dee9c9d8e2bfbcafc.System.{System}
use e2f77dee9c9d8e2bfbcafc.Nci.Common.{payload_reply}
use e2f77dee9c9d8e2bfbcafc.Nci.Config.{config_param, nci_device_get, set_params, core_set_config}
use e2f77dee9c9d8e2bfbcafc.Nci.Config.Table.{config_param_low, config_param_apart}
use e2f77dee9c9d8e2bfbcafc.Nci.Config.Params.{IsParam, Lists, total, stores, set_params_lem}

stores-append :
    (store : List ℕ) (before after : List (ℕ × List ℕ))
    → stores store (before ++ after) ≡ stores (stores store before) after
stores-append store [] after = refl
stores-append store ((id, value) ∷ before) after =
    stores-append (splice store (config_param id).0 value) before after

length-stores :
    (store : List ℕ) (params : List (ℕ × List ℕ)) → length (stores store params) ≡ length store
length-stores store [] = refl
length-stores store ((id, value) ∷ params) =
    length-stores (splice store (config_param id).0 value) params
    ∙ length-splice store (config_param id).0 value

-- Values of other parameters leave the bytes of a parameter alone.
slice-stores :
    (store : List ℕ) (params : List (ℕ × List ℕ)) (id n : ℕ)
    → All IsParam params
    → All (λ param. param.0 ≢ id) params
    → (config_param id).1 ≢ 0
    → n ≤ (config_param id).1
    → slice (stores store params) (config_param id).0 n ≡ slice store (config_param id).0 n
slice-stores store [] id n v d room h = refl
slice-stores store ((k, value) ∷ params) id n (v, vs) (d, ds) room h =
    slice-stores (splice store (config_param k).0 value) params id n vs ds room h
    ∙ slice-splice_outside store (config_param k).0 value (config_param id).0 n
        (ground (arith, config_param_apart k id d (λ e. absurd (omega (arith, e, v.0, v.1))) room))

All_behind : (before after : List (ℕ × List ℕ)) → All IsParam (before ++ after) → All IsParam after
All_behind [] after v = v
All_behind (param ∷ before) after v = All_behind before after v.1

-- The value that is given last is what the store holds.
last_value :
    (store : List ℕ) (before after : List (ℕ × List ℕ)) (id : ℕ) (value : List ℕ)
    → length store ≡ config_size
    → All IsParam (before ++ ((id, value) ∷ after))
    → length value ≡ (config_param id).1
    → All (λ param. param.0 ≢ id) after
    → slice (stores store (before ++ ((id, value) ∷ after))) (config_param id).0 (length value)
      ≡ value
last_value store before after id value hs v full again =
    let at = (config_param id).0 in
    let old : List ℕ = stores store before in
    let (given, others) = All_behind before ((id, value) ∷ after) v in
    let room : (config_param id).1 ≢ 0 = λ e. absurd (omega (arith, e, given.0, given.1)) in
    ap (λ l. slice l at (length value)) (stores-append store before ((id, value) ∷ after))
    ∙ (slice-stores (splice old at value) after id (length value) others again room given.1
        ∙ slice-splice old at value
            (omega (arith, config_param_low id room, length-stores store before)))

nci_device_get_lem :
    (sys : System) (id : ℕ) (value : List ℕ)
    → length value ≡ (config_param id).1
    → IsParam (id, value)
    → slice sys.nfc.config_id_value (config_param id).0 (length value) ≡ value
    → nci_device_get sys id (length value) ≡ ok value
unfolding nci_device_get device_get
nci_device_get_lem sys id value full given h =
    let room : (config_param id).1 ≢ 0 = λ e. absurd (omega (arith, e, given.0, given.1)) in
    let exact : ((config_param id).1 == length value) ≡ true = ground arith in
    let low : ltb ((config_param id).0 + length value) config_size ≡ true =
      lt→ltb _ _ (omega (arith, config_param_low id room)) in
    rw (exact, low, h) refl

abbrev stored : Device → List ℕ
stored nfc = nfc.config_id_value

abbrev bytes_of : ℕ → ℕ → Device → List ℕ
bytes_of id n nfc = slice nfc.config_id_value (config_param id).0 n

abbrev with_store : Device → List ℕ → Device
with_store nfc store = record nfc { config_id_value = store }

-- A CORE_SET_CONFIG command with parameters that the table names, none of them empty or longer than
-- its bytes in the store, is answered by STATUS_OK. A parameter that the command gives in full, and
-- does not give again behind that, then reads back as that value; the rest of the device is as it was,
-- and so are the endpoints.
pub core_set_config_read_back :
    (sys : System) (cmd rsp : Buf) (before after : List (ℕ × List ℕ)) (id : ℕ) (value : List ℕ)
    → length sys.nfc.config_id_value ≡ config_size
    → cmd 3 ≡ length (before ++ ((id, value) ∷ after))
    → Lists cmd 4 (before ++ ((id, value) ∷ after))
    → total (before ++ ((id, value) ∷ after)) < 256
    → All IsParam (before ++ ((id, value) ∷ after))
    → length value ≡ (config_param id).1
    → All (λ param. param.0 ≢ id) after
    → Returns (core_set_config sys cmd rsp) λ r.
      (nci_device_get r.sys id (length value) ≡ ok value)
      × (r.sys.nfc ≡ record (sys.nfc) { config_id_value = r.sys.nfc.config_id_value })
      × (r.sys.res ≡ sys.res)
      × (r.rsp 3 ≡ status_ok)
      × (r.len ≡ 5)
unfolding core_set_config payload_reply
core_set_config_read_back sys cmd rsp before after id value hs count stand fits v full again =
    let params = before ++ ((id, value) ∷ after) in
    let given = (All_behind before ((id, value) ∷ after) v).0 in
    rw count (
      >>=-Returns (set_params (length params) sys cmd 0) _ _ _
        (set_params_lem params sys cmd 0 v stand (omega arith))
        (λ sys' (e, f). (
          nci_device_get_lem sys' id value full given (
              ap (bytes_of id (length value)) e
              ∙ last_value sys.nfc.config_id_value before after id value hs v full again),
          e ∙ ap (with_store sys.nfc) (sym (ap stored e)),
          f,
          ground arith,
          refl,
        )))
