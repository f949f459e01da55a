-- ===== src/Re/LinkLaws.antt =====
-- What the LLCP handlers of an endpoint answer, and which data link they touch.
use e2f77dee9c9d8e2bfbcafc.Base.{
  ℕ, zero, suc, ◌+◌, ◌<◌, ◌≡◌, ◌≢◌, ◌⊎◌, refl, ap, ◌∙◌, arith, Returns,
}
use e2f77dee9c9d8e2bfbcafc.Memory.{Buf}
use e2f77dee9c9d8e2bfbcafc.Llcp.{
  DataLink, disconnected, connected, create_pdu, create_pdu_dm, pdu_dsap, pdu_ssap, pdu_ptype,
  ptype_cc, ptype_dm, init_data_link,
}
use e2f77dee9c9d8e2bfbcafc.Re.{Re, update_last_saps}
use e2f77dee9c9d8e2bfbcafc.Re.Link.{
  connect_param, connect_params, process_ptype_connect, process_ptype_disc, size_sub,
}

connect_params-status :
    (n : ℕ) (b : Buf) (opt : ℕ) (dl : DataLink) → (connect_params n b opt dl).status ≡ dl.status
unfolding connect_params connect_param
connect_params-status zero b opt dl = refl
connect_params-status (suc zero) b opt dl = refl
connect_params-status (suc (suc n)) b opt dl =
    connect_params-status n b opt (connect_param n b opt dl) ∙ ground arith

connect_param_fixed :
    (n : ℕ) (b b' : Buf) (opt : ℕ) (dl : DataLink)
    → ((k : ℕ) → k < 6 → b (opt + k) ≡ b' (opt + k))
    → connect_param n b opt dl ≡ connect_param n b' opt dl
unfolding connect_param
connect_param_fixed n b b' opt dl h =
    ground (arith, h 0 (omega arith), h 1 (omega arith), h 4 (omega arith), h 5 (omega arith))

-- A CONNECT PDU is always answered by a CC PDU of two bytes that goes back to the sender, with the
-- SAPs swapped. The link of the two SAPs is then connected, no other link changes, and the SAPs are
-- remembered as the last ones.
pub process_ptype_connect_lem :
    (re : Re) (b : Buf) (p len : ℕ) (rsp : Buf) (q k l : ℕ)
    → (k ≢ pdu_ssap b p) ⊎ (l ≢ pdu_dsap b p)
    → Returns (process_ptype_connect re b p len rsp q) λ h.
      let i = pdu_ssap b p in
      let j = pdu_dsap b p in
      (pdu_ptype h.rsp q ≡ ptype_cc)
      × (pdu_dsap h.rsp q ≡ i)
      × (pdu_ssap h.rsp q ≡ j)
      × (h.len ≡ 2)
      × ((h.re.llcp_dl i j).status ≡ connected)
      × (h.re.llcp_dl k l ≡ re.llcp_dl k l)
      × (h.re.last_dsap ≡ i)
      × (h.re.last_ssap ≡ j)
unfolding process_ptype_connect create_pdu pdu_dsap pdu_ssap pdu_ptype update_last_saps
process_ptype_connect_lem re b p len rsp q k l o = ground (
  arith,
  connect_params-status (size_sub len 2) b (p + 2)
      (record (init_data_link (re.llcp_dl (pdu_ssap b p) (pdu_dsap b p))) { status = connected }),
)

-- A DISC PDU is always answered by a DM PDU of three bytes with the SAPs swapped and the reason 0.
-- The link of the two SAPs is then disconnected, and no other link changes.
pub process_ptype_disc_lem :
    (re : Re) (b : Buf) (p : ℕ) (rsp : Buf) (q k l : ℕ)
    → (k ≢ pdu_ssap b p) ⊎ (l ≢ pdu_dsap b p)
    → Returns (process_ptype_disc re b p rsp q) λ h.
      let i = pdu_ssap b p in
      let j = pdu_dsap b p in
      (pdu_ptype h.rsp q ≡ ptype_dm)
      × (pdu_dsap h.rsp q ≡ i)
      × (pdu_ssap h.rsp q ≡ j)
      × (h.rsp (q + 2) ≡ 0)
      × (h.len ≡ 3)
      × ((h.re.llcp_dl i j).status ≡ disconnected)
      × (h.re.llcp_dl k l ≡ re.llcp_dl k l)
unfolding process_ptype_disc create_pdu create_pdu_dm pdu_dsap pdu_ssap pdu_ptype update_last_saps
process_ptype_disc_lem re b p rsp q k l o = ground arith

-- The parameters of a CONNECT PDU: whatever its length, the loop reads the six bytes at `opt` and
-- nothing behind them, so a parameter after the first one has no effect.
pub connect_params_fixed :
    (n : ℕ) (b b' : Buf) (opt : ℕ) (dl : DataLink)
    → ((k : ℕ) → k < 6 → b (opt + k) ≡ b' (opt + k))
    → connect_params n b opt dl ≡ connect_params n b' opt dl
unfolding connect_params
connect_params_fixed zero b b' opt dl h = refl
connect_params_fixed (suc zero) b b' opt dl h = refl
connect_params_fixed (suc (suc n)) b b' opt dl h =
    connect_params_fixed n b b' opt (connect_param n b opt dl) h
    ∙ ap (connect_params n b' opt) (connect_param_fixed n b b' opt dl h)
