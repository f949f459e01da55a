-- ===== src/Re/Link.antt =====
-- The LLCP side of an endpoint: src/nfc-re.c, `process_ptype_*` and `process_llcp`. The PDU lies at
-- offset `p` of `b` and is `len` bytes long; the response goes to offset `q` of `rsp`.
use e2f77dee9c9d8e2bfbcafc.Base.{
  ℕ, zero, suc, ◌+◌, ◌-◌, ◌*◌, ◌%◌, ◌^◌, Bool, true, not, ◌||◌, none, some, List, ◌∷◌, ◌++◌, ltb,
  ◌==◌, if◌then◌else◌, Result, ok, fault, assertion, ◌>>=◌, ◌>>◌, assert,
}
use e2f77dee9c9d8e2bfbcafc.Memory.{Buf, read}
use e2f77dee9c9d8e2bfbcafc.Llcp.{
  DataLink, LinkStatus, disconnected, connecting, connected, create_pdu, create_pdu_dm,
  create_pdu_i, pdu_dsap, pdu_ssap, pdu_ptype, ptype_cc, clear_data_link, init_data_link, queued,
  emptied, dl_write_rbuf,
}
use e2f77dee9c9d8e2bfbcafc.Snep.{llcp_sap_snep}
use e2f77dee9c9d8e2bfbcafc.Re.{
  Re, Event, new_timeout, mod_timeout, Host, set_link, update_last_saps,
}

-- What a handler leaves: the endpoint, the response buffer, `*consumed`, and the response's length.
pub record Handled : Type 0 where
  pub re : Re
  pub rsp : Buf
  pub consumed : ℕ
  pub len : ℕ

abbrev silent : Re → Buf → ℕ → Handled
silent re rsp consumed = record { re = re; rsp = rsp; consumed = consumed; len = 0 }

-- `a - b` as a `size_t`.
abbrev pub size_sub : ℕ → ℕ → ℕ
size_sub a b = (2 ^ 64 + a - b) % 2 ^ 64

abbrev param_miux : ℕ
param_miux = 0x02

abbrev param_rw : ℕ
param_rw = 0x05

-- One round of the parameter loop, after `len -= 2`; `opt` is the parameter's offset. The value is
-- read through a pointer to a whole parameter that is put on `opt + 2`, so it comes from `opt + 4`.
unfoldable pub connect_param : ℕ → Buf → ℕ → DataLink → DataLink
connect_param len b opt dl =
    if b opt == param_miux
    then (if not (b (opt + 1) == 2) || ltb len (b (opt + 1))
        then dl
        else record dl { miu = (b (opt + 4) + b (opt + 5) * 256 + 2 ^ 32 - 128) % 256 })
    else (if b opt == param_rw
        then (if not (b (opt + 1) == 1) || ltb len (b (opt + 1))
            then dl
            else record dl { rw_r = b (opt + 4) % 16 })
        else dl)

-- `while (len >= 2)`: no statement of the loop moves `opt`.
unfoldable pub connect_params : ℕ → Buf → ℕ → DataLink → DataLink
unfolding connect_param
connect_params (suc (suc len)) b opt dl = connect_params len b opt (connect_param len b opt dl)
connect_params zero b opt dl = dl
connect_params (suc zero) b opt dl = dl

unfoldable pub process_ptype_symm : Re → Buf → Handled
process_ptype_symm re rsp = silent re rsp 2

unfoldable pub process_ptype_connect : Re → Buf → ℕ → ℕ → Buf → ℕ → Result Handled
unfolding init_data_link connect_params update_last_saps
process_ptype_connect re b p len rsp q = do
  let dsap = pdu_dsap b p
  let ssap = pdu_ssap b p
  let dl = record (init_data_link (re.llcp_dl ssap dsap)) { status = connected }
  let dl' = connect_params (size_sub len 2) b (p + 2) dl
  re' ← update_last_saps (set_link re ssap dsap dl') ssap dsap
  let (rsp', n) = create_pdu rsp q ssap ptype_cc dsap
  ok (record { re = re'; rsp = rsp'; consumed = 2; len = n })

unfoldable pub process_ptype_disc : Re → Buf → ℕ → Buf → ℕ → Result Handled
unfolding update_last_saps
process_ptype_disc re b p rsp q = do
  let dsap = pdu_dsap b p
  let ssap = pdu_ssap b p
  let dl = record (re.llcp_dl ssap dsap) { status = disconnected }
  re' ← update_last_saps (set_link re ssap dsap dl) ssap dsap
  let (rsp', n) = create_pdu_dm rsp q ssap dsap 0
  ok (record { re = re'; rsp = rsp'; consumed = 2; len = n })

unfoldable pub is_connecting : LinkStatus → Bool
is_connecting connecting = true
is_connecting _ = Bool.false

-- The pending PDUs of the link go to the endpoint's own queue, in order.
unfoldable pub process_ptype_cc : Re → Buf → ℕ → Buf → Result Handled
unfolding clear_data_link update_last_saps is_connecting queued emptied
process_ptype_cc re b p rsp = do
  let dsap = pdu_dsap b p
  let ssap = pdu_ssap b p
  let dl = clear_data_link (re.llcp_dl ssap dsap)
  assert (is_connecting dl.status)
  let dl' = record dl { status = connected; xmit_q = emptied dl.xmit_q }
  let moved = record (set_link re ssap dsap dl') { xmit_q = re.xmit_q ++ queued dl.xmit_q }
  re' ← update_last_saps moved ssap dsap
  ok (silent re' rsp 3)

unfoldable pub process_ptype_dm : Re → Buf → ℕ → Buf → Result Handled
unfolding update_last_saps
process_ptype_dm re b p rsp = do
  let dsap = pdu_dsap b p
  let ssap = pdu_ssap b p
  let dl = record (re.llcp_dl ssap dsap) { status = disconnected }
  re' ← update_last_saps (set_link re ssap dsap dl) ssap dsap
  ok (silent re' rsp 3)

-- The fields of a frame reject are only logged.
unfoldable pub process_ptype_frmr : Re → Buf → ℕ → Buf → Result Handled
unfolding update_last_saps
process_ptype_frmr re b p rsp = do
  re' ← update_last_saps re (pdu_ssap b p) (pdu_dsap b p)
  ok (silent re' rsp 6)

-- `llcp_sap_cb` has one handler, at SAP 4. The pointer that it is given is
-- `(struct snep*)rsp->info+1`: one whole `struct snep`, six bytes, behind `info`.
unfoldable pub process_ptype_i : Re → Buf → ℕ → ℕ → Buf → ℕ → Result Handled
unfolding update_last_saps dl_write_rbuf
process_ptype_i re b p len rsp q = do
  let dsap = pdu_dsap b p
  let ssap = pdu_ssap b p
  let old = re.llcp_dl ssap dsap
  let dl = record old { v_r = (old.v_r + 1) % 16 }
  re' ← update_last_saps re ssap dsap
  let n = size_sub len 3
  if dsap == 4
      then (do
        a ← llcp_sap_snep dl b (p + 3) n rsp (q + 8)
        let (rsp', size) = create_pdu_i a.rsp q ssap dsap a.link.v_s a.link.v_r
        let re'' = set_link re' ssap dsap a.link
        let answered : Handled = record { re = re''; rsp = rsp'; consumed = 3; len = a.len + size }
        ok (if a.len == 0 then silent re'' a.rsp 3 else answered))
      else (do
        (dl', _) ← dl_write_rbuf dl (read b (p + 3) n)
        ok (silent (set_link re' ssap dsap dl') rsp 3))

-- `process_ptype_rr` and `process_ptype_rnr`, which differ in what they log.
unfoldable pub process_ptype_rr : Re → Buf → ℕ → Buf → Result Handled
unfolding update_last_saps
process_ptype_rr re b p rsp = do
  let dsap = pdu_dsap b p
  let ssap = pdu_ssap b p
  let dl = record (re.llcp_dl ssap dsap) { v_sa = b (p + 2) % 16 }
  re' ← update_last_saps (set_link re ssap dsap dl) ssap dsap
  ok (silent re' rsp 3)

unfoldable pub process_ptype_rnr : Re → Buf → ℕ → Buf → Result Handled
unfolding update_last_saps
process_ptype_rnr re b p rsp = do
  let dsap = pdu_dsap b p
  let ssap = pdu_ssap b p
  let dl = record (re.llcp_dl ssap dsap) { v_sa = b (p + 2) % 16 }
  re' ← update_last_saps (set_link re ssap dsap dl) ssap dsap
  ok (silent re' rsp 3)

-- The handler table, whose other entries are null.
unfoldable pub process_ptype : ℕ → Re → Buf → ℕ → ℕ → Buf → ℕ → Result Handled
process_ptype ptype re b p len rsp q =
    if ptype == 0x0
    then ok (process_ptype_symm re rsp)
    else (if ptype == 0x4
        then process_ptype_connect re b p len rsp q
        else (if ptype == 0x5
            then process_ptype_disc re b p rsp q
            else (if ptype == 0x6
                then process_ptype_cc re b p rsp
                else (if ptype == 0x7
                    then process_ptype_dm re b p rsp
                    else (if ptype == 0x8
                        then process_ptype_frmr re b p rsp
                        else (if ptype == 0xc
                            then process_ptype_i re b p len rsp q
                            else (if ptype == 0xd
                                then process_ptype_rr re b p rsp
                                else (if ptype == 0xe
                                    then process_ptype_rnr re b p rsp
                                    else fault assertion))))))))

-- `prepare_xmit_timeout`, with the events so far, newest first.
unfoldable pub prepare_xmit_timeout : Host → Re → List Event → Result (Re × List Event)
prepare_xmit_timeout host re events = elim re.xmit_timeout [
  | some t ↦
      ok (re, (if host.timeout_is_pending events t then events else mod_timeout t 2000 ∷ events))
  | none ↦ elim (host.new_timeout_result (new_timeout ∷ events)) [
    | some t ↦
        let created = new_timeout ∷ events in
        ok (
          record re { xmit_timeout = some t },
          (if host.timeout_is_pending created t then created else mod_timeout t 2000 ∷ created),
        )
    | none ↦ fault assertion
  ]
]

unfoldable pub process_llcp :
    Host → Re → List Event → Buf → ℕ → ℕ → Buf → ℕ → Result (Handled × List Event)
unfolding process_ptype prepare_xmit_timeout
process_llcp host re events b p len rsp q = do
  h ← process_ptype (pdu_ptype b p) re b p len rsp q
  (re', events') ← prepare_xmit_timeout host (record (h.re) { xmit_next = true }) events
  ok (record h { re = re' }, events')
