-- ===== src/Re/Data/Put.antt =====
-- A peer's CONNECT PDU, and its I PDU with a SNEP message: src/nfc-re.c and src/llcp-snep.c.
use e2f77dee9c9d8e2bfbcafc.Base.{
  ℕ, zero, suc, ◌+◌, ◌<◌, ◌≤◌, ◌≡◌, ◌%◌, refl, ap, ◌∙◌, arith, [], ◌∷◌, splice, Returns,
  >>=-Returns, ltb, true,
}
use e2f77dee9c9d8e2bfbcafc.Memory.{Buf, read, length-read}
use e2f77dee9c9d8e2bfbcafc.Bswap.{be32_to_cpu}
use e2f77dee9c9d8e2bfbcafc.Llcp.{
  DataLink, connected, pdu_dsap, pdu_ssap, pdu_ptype, ptype_connect, ptype_i, ptype_cc, create_pdu,
  create_pdu_i, init_data_link,
}
use e2f77dee9c9d8e2bfbcafc.Snep.{req_put, rsp_success, llcp_sap_snep, create_msg}
use e2f77dee9c9d8e2bfbcafc.Re.{Re, update_last_saps}
use e2f77dee9c9d8e2bfbcafc.Re.Send.Steps.{set_link_self}
use e2f77dee9c9d8e2bfbcafc.Re.Link.{
  Handled, process_ptype_i, process_ptype_connect, connect_param, connect_params, size_sub,
}

-- A PUT request of a supported version with `n` bytes, in an I PDU for SAP 4 at offset `p`.
abbrev pub IsPut : Buf → ℕ → ℕ → Type 0
IsPut b p n =
    (pdu_ptype b p ≡ ptype_i)
    × (pdu_dsap b p ≡ 4)
    × (b (p + 3) ≤ 0x10)
    × (b (p + 3 + 1) ≡ req_put)
    × (be32_to_cpu b (p + 3 + 2) ≡ n)

-- The link after the service has taken the request.
abbrev pub filled_link : DataLink → Buf → ℕ → ℕ → DataLink
filled_link dl b p n = record dl {
  v_r = (dl.v_r + 1) % 16;
  rlen = n;
  rbuf = splice dl.rbuf 0 (read b (p + 9) n);
}

-- The service stores the payload of a PUT request and confirms it.
snep_put :
    (dl : DataLink) (b : Buf) (p n len : ℕ) (rsp : Buf) (q : ℕ)
    → b p ≤ 0x10
    → b (p + 1) ≡ req_put
    → be32_to_cpu b (p + 2) ≡ n
    → n < 256
    → len ≡ 6 + n
    → Returns (llcp_sap_snep dl b p len rsp q) λ a.
      (a.link ≡ record dl { rlen = n; rbuf = splice dl.rbuf 0 (read b (p + 6) n) })
      × (a.len ≡ 6)
      × (read a.rsp q 6 ≡ 0x10 ∷ rsp_success ∷ 0 ∷ 0 ∷ 0 ∷ 0 ∷ [])
unfolding llcp_sap_snep create_msg
snep_put dl b p n len rsp q hv hm hn small hl = ground (arith, length-read b (p + 6) n)

-- The SNEP message stands behind the header of the I PDU.
pdu_i_fields :
    (b : Buf) (q dsap ssap ns nr : ℕ)
    → dsap < 64
    → ssap < 64
    → (pdu_ptype (create_pdu_i b q dsap ssap ns nr).0 q ≡ ptype_i)
      × (pdu_dsap (create_pdu_i b q dsap ssap ns nr).0 q ≡ dsap)
      × (pdu_ssap (create_pdu_i b q dsap ssap ns nr).0 q ≡ ssap)
      × ((create_pdu_i b q dsap ssap ns nr).0 (q + 2) % 16 ≡ nr % 16)
      × (read (create_pdu_i b q dsap ssap ns nr).0 (q + 8) 6 ≡ read b (q + 8) 6)
      × ((create_pdu_i b q dsap ssap ns nr).1 ≡ 3)
unfolding create_pdu_i create_pdu pdu_ptype pdu_dsap pdu_ssap
pdu_i_fields b q dsap ssap ns nr hd hs = ground arith

-- What an I PDU with a PUT request leaves.
abbrev pub TakesPut : Re → Buf → ℕ → ℕ → ℕ → Handled → Type 0
TakesPut re b p n q h =
    let i = pdu_ssap b p in
    (h.len ≡ 9)
    × (h.re.rfproto ≡ re.rfproto)
    × (h.re.connid ≡ re.connid)
    × (h.re.llcp_dl i 4 ≡ filled_link (re.llcp_dl i 4) b p n)
    × (h.re.last_dsap ≡ i)
    × (h.re.last_ssap ≡ 4)
    × (pdu_ptype h.rsp q ≡ ptype_i)
    × (pdu_dsap h.rsp q ≡ i)
    × (pdu_ssap h.rsp q ≡ 4)
    × (h.rsp (q + 2) % 16 ≡ ((re.llcp_dl i 4).v_r + 1) % 16)
    × (read h.rsp (q + 8) 6 ≡ 0x10 ∷ rsp_success ∷ 0 ∷ 0 ∷ 0 ∷ 0 ∷ [])

mod_twice : (n : ℕ) → n % 16 % 16 ≡ n % 16
mod_twice n = omega arith

-- The link after the request whose payload is at offset `at`.
put_at : Re → Buf → ℕ → ℕ → ℕ → DataLink
put_at re b p n at =
    let dl = re.llcp_dl (pdu_ssap b p) 4 in
    record dl { v_r = (dl.v_r + 1) % 16; rlen = n; rbuf = splice dl.rbuf 0 (read b at n) }

pub process_ptype_i-TakesPut :
    (re : Re) (b : Buf) (p n len : ℕ) (rsp : Buf) (q : ℕ)
    → IsPut b p n
    → len ≡ 9 + n
    → len < 256
    → Returns (process_ptype_i re b p len rsp q) (TakesPut re b p n q)
unfolding process_ptype_i update_last_saps pdu_ssap put_at
process_ptype_i-TakesPut re b p n len rsp q (_, d, v, m, l) e small =
    let i = pdu_ssap b p in
    let dl : DataLink = record (re.llcp_dl i 4) { v_r = ((re.llcp_dl i 4).v_r + 1) % 16 } in
    let hs : ltb (pdu_ssap b p) 64 ≡ true = ground arith in
    rw (d, hs)
      (>>=-Returns (llcp_sap_snep dl b (p + 3) (size_sub len 3) rsp (q + 8)) _ _ _
        (snep_put dl b (p + 3) n (size_sub len 3) rsp (q + 8) v m l (omega arith) (omega arith))
        (λ a (link, six, msg).
          let f = pdu_i_fields a.rsp q i 4 a.link.v_s a.link.v_r (omega arith) (omega arith) in
          rw (six, f.5)
            (
              refl,
              refl,
              refl,
              set_link_self re i 4 a.link ∙ (link ∙ ap (put_at re b p n) (omega arith)),
              refl,
              refl,
              f.0,
              f.1,
              f.2,
              f.3 ∙ ap (λ x. x.v_r % 16) link ∙ mod_twice ((re.llcp_dl i 4).v_r + 1),
              f.4 ∙ msg,
            )))

-- The parameters of a CONNECT PDU do not reach the state, the count or the buffer of the link.
connect_params_kept :
    (n : ℕ) (b : Buf) (opt : ℕ) (dl : DataLink)
    → ((connect_params n b opt dl).status ≡ dl.status)
      × ((connect_params n b opt dl).v_r ≡ dl.v_r)
      × ((connect_params n b opt dl).rbuf ≡ dl.rbuf)
unfolding connect_params connect_param
connect_params_kept zero b opt dl = (refl, refl, refl)
connect_params_kept (suc zero) b opt dl = (refl, refl, refl)
connect_params_kept (suc (suc n)) b opt dl =
    ground (arith, connect_params_kept n b opt (connect_param n b opt dl))

-- A CONNECT PDU for SAP 4 at offset `p`.
abbrev pub IsConnect : Buf → ℕ → Type 0
IsConnect b p = (pdu_ptype b p ≡ ptype_connect) × (pdu_dsap b p ≡ 4)

-- What it leaves: a fresh link with its old receive buffer.
abbrev pub TakesConnect : Re → Buf → ℕ → ℕ → Handled → Type 0
TakesConnect re b p q h =
    let i = pdu_ssap b p in
    (h.len ≡ 2)
    × (h.re.rfproto ≡ re.rfproto)
    × (h.re.connid ≡ re.connid)
    × ((h.re.llcp_dl i 4).status ≡ connected)
    × ((h.re.llcp_dl i 4).v_r ≡ 0)
    × ((h.re.llcp_dl i 4).rbuf ≡ (re.llcp_dl i 4).rbuf)
    × (pdu_ptype h.rsp q ≡ ptype_cc)
    × (pdu_dsap h.rsp q ≡ i)
    × (pdu_ssap h.rsp q ≡ 4)

pub process_ptype_connect-TakesConnect :
    (re : Re) (b : Buf) (p len : ℕ) (rsp : Buf) (q : ℕ)
    → IsConnect b p
    → Returns (process_ptype_connect re b p len rsp q) (TakesConnect re b p q)
unfolding process_ptype_connect create_pdu pdu_dsap pdu_ssap pdu_ptype update_last_saps
    init_data_link
process_ptype_connect-TakesConnect re b p len rsp q (_, d) = ground (
  arith,
  connect_params_kept (size_sub len 2) b (p + 2)
      (record (init_data_link (re.llcp_dl (pdu_ssap b p) (pdu_dsap b p))) { status = connected }),
)
