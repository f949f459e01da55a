-- ===== src/Nci/Session/Peer.antt =====
-- A SNEP message that the host puts to the active peer, read by the console: src/nfc-nci.c,
-- src/nfc-re.c, src/llcp-snep.c and src/cmdline.c.
use e2f77dee9c9d8e2bfbcafc.Base.{
  ℕ, ◌+◌, ◌%◌, ◌^◌, ◌<◌, ◌≡◌, refl, ap, ◌∙◌, arith, List, [], ◌∷◌, get_or, none, Result, ok, ◌>>=◌,
  Returns, Returns_map, Returns_value, splice, subst, ltb, true,
}
use e2f77dee9c9d8e2bfbcafc.Memory.{Buf, read}
use e2f77dee9c9d8e2bfbcafc.Packet.{pkt_mt, pkt_connid, pkt_len, mt_dta}
use e2f77dee9c9d8e2bfbcafc.Llcp.{connected, pdu_ssap, ptype_i, ptype_cc}
use e2f77dee9c9d8e2bfbcafc.Snep.{rsp_success}
use e2f77dee9c9d8e2bfbcafc.Re.{Re, Host}
use e2f77dee9c9d8e2bfbcafc.Re.Link.{process_ptype, process_ptype_i, process_ptype_connect}
use e2f77dee9c9d8e2bfbcafc.Re.Send.{
  link_at, re_recv_snep_put, is_nfc_dep, is_connected, recv_snep_over_llcp,
}
use e2f77dee9c9d8e2bfbcafc.Re.Data.Answer.{Carries}
use e2f77dee9c9d8e2bfbcafc.Re.Data.Peer.{GivesTimeouts}
use e2f77dee9c9d8e2bfbcafc.Re.Data.Put.{
  IsPut, IsConnect, filled_link, process_ptype_i-TakesPut, process_ptype_connect-TakesConnect,
}
use e2f77dee9c9d8e2bfbcafc.System.{System}
use e2f77dee9c9d8e2bfbcafc.Nci.Tables.{process_nci_msg}
use e2f77dee9c9d8e2bfbcafc.Nci.Session.Faces.{Faces, peer_step, CarriesPdu, carried}
use e2f77dee9c9d8e2bfbcafc.Console.{negsuc}
use e2f77dee9c9d8e2bfbcafc.Console.Commands.{Memory, Done}
use e2f77dee9c9d8e2bfbcafc.Console.Links.{recv_snep_put_cb, autodetect}
use e2f77dee9c9d8e2bfbcafc.Console.Message.{recv_process_ndef}

-- The peer of the host after a CONNECT PDU for SAP 4.
connect_step :
    (host : Host) (sys : System) (d rsp : Buf) (at : ℕ) (re : Re)
    → GivesTimeouts host
    → Faces sys at re
    → pkt_mt d ≡ mt_dta
    → IsConnect d 3
    → Returns (process_nci_msg host sys d rsp) λ a.
      (re' : Re) × Faces a.sys at re'
      × (((re'.llcp_dl (pdu_ssap d 3) 4).status ≡ connected)
          × ((re'.llcp_dl (pdu_ssap d 3) 4).v_r ≡ 0)
          × ((re'.llcp_dl (pdu_ssap d 3) 4).rbuf ≡ (re.llcp_dl (pdu_ssap d 3) 4).rbuf))
      × CarriesPdu a.rsp a.len (pkt_connid d) ptype_cc (pdu_ssap d 3) 4 2
unfolding process_ptype
connect_step host sys d rsp at re gives v hm c =
    let re₀ : Re = record re { connid = pkt_connid d } in
    let (h, e, (l, proto, conn, st, vr, rb, t, ds, ss)) =
      Returns_value (process_ptype_connect re₀ d 3 (pkt_len d) rsp 3) _
        (process_ptype_connect-TakesConnect re₀ d 3 (pkt_len d) rsp 3 c) in
    Returns_map (process_nci_msg host sys d rsp) _ _
      (peer_step host sys d rsp at re h gives v hm (rw (c.0) e) proto conn (omega arith)
        (omega arith))
      (λ a (re', f, g, k, r).
        let link : re'.llcp_dl (pdu_ssap d 3) 4 ≡ h.re.llcp_dl (pdu_ssap d 3) 4 =
          ap (λ x. x (pdu_ssap d 3) 4) g.1 in
        (
          re',
          f,
          (ap (λ x. x.status) link ∙ st, ap (λ x. x.v_r) link ∙ vr, ap (λ x. x.rbuf) link ∙ rb),
          (carried a.rsp h.rsp a.len (pkt_connid d) ptype_cc (pdu_ssap d 3) 4 2
              (subst (λ n. Carries a.rsp a.len (pkt_connid d) (read h.rsp 3 n)) l k) r t ds ss).0,
        ))

-- The peer of the host after an I PDU with a PUT request.
put_step :
    (host : Host) (sys : System) (d rsp : Buf) (at n : ℕ) (re : Re)
    → GivesTimeouts host
    → Faces sys at re
    → pkt_mt d ≡ mt_dta
    → IsPut d 3 n
    → pkt_len d ≡ 9 + n
    → pkt_len d < 256
    → Returns (process_nci_msg host sys d rsp) λ a.
      (re' : Re) × Faces a.sys at re'
      × ((re'.llcp_dl (pdu_ssap d 3) 4 ≡ filled_link (re.llcp_dl (pdu_ssap d 3) 4) d 3 n)
          × (re'.last_dsap ≡ pdu_ssap d 3)
          × (re'.last_ssap ≡ 4))
      × CarriesPdu a.rsp a.len (pkt_connid d) ptype_i (pdu_ssap d 3) 4 9
      × (a.rsp 5 % 16 ≡ ((re.llcp_dl (pdu_ssap d 3) 4).v_r + 1) % 16)
      × (read a.rsp 11 6 ≡ 0x10 ∷ rsp_success ∷ 0 ∷ 0 ∷ 0 ∷ 0 ∷ [])
unfolding process_ptype
put_step host sys d rsp at n re gives v hm c hl small =
    let re₀ : Re = record re { connid = pkt_connid d } in
    let (h, e, (l, proto, conn, link, ld, ls, t, ds, ss, vr, msg)) =
      Returns_value (process_ptype_i re₀ d 3 (pkt_len d) rsp 3) _
        (process_ptype_i-TakesPut re₀ d 3 n (pkt_len d) rsp 3 c hl small) in
    Returns_map (process_nci_msg host sys d rsp) _ _
      (peer_step host sys d rsp at re h gives v hm (rw (c.0) e) proto conn (omega arith)
        (omega arith))
      (λ a (re', f, g, k, r).
        let p =
          carried a.rsp h.rsp a.len (pkt_connid d) ptype_i (pdu_ssap d 3) 4 9
            (subst (λ n. Carries a.rsp a.len (pkt_connid d) (read h.rsp 3 n)) l k) r t ds ss in
        (
          re',
          f,
          (ap (λ x. x (pdu_ssap d 3) 4) g.1 ∙ link, g.2 ∙ ld, g.3 ∙ ls),
          p.0,
          ap (λ x. x % 16) p.1 ∙ vr,
          r 11 6 (omega arith) ∙ msg,
        ))

-- What the console prints of the first `n` bytes of a link's receive buffer.
abbrev pub prints : System → ℕ → List ℕ → Memory → Result Done
prints sys n rbuf memory = do
  r ← recv_process_ndef n (λ j. get_or rbuf j (memory.behind j))
  ok (record { sys = sys; packet = none; printed = r.0; success = r.1 })

recv_connected :
    (sys : System) (at : ℕ) (re : Re) (i : ℕ) (memory : Memory)
    → Faces sys at re
    → i < 64
    → re.last_dsap ≡ i
    → re.last_ssap ≡ 4
    → (re.llcp_dl i 4).status ≡ connected
    → recv_snep_put_cb sys (negsuc 0) (negsuc 0) memory
      ≡ prints sys (re.llcp_dl i 4).rlen (re.llcp_dl i 4).rbuf memory
unfolding recv_snep_put_cb autodetect re_recv_snep_put recv_snep_over_llcp is_nfc_dep is_connected
    link_at
recv_connected sys at re i memory v small ld ls st =
    let hm : i % 2 ^ 32 ≡ i = omega arith in
    let hi : ltb i 64 ≡ true = ground arith in
    rw (v.active, v.found, v.speaks, ld, ls, hm, hi, st) refl

module _ (host : Host) (sys : System) (at : ℕ) (re : Re) (gives : GivesTimeouts host) where
  -- The active endpoint is a peer, and the host's timeouts can be had. The host sends it a CONNECT PDU
  -- for SAP 4 and, from the same SAP, an I PDU with a PUT request of n bytes, each in a data packet.
  -- The host gets a CC PDU for the first one. For the second one it gets an I PDU of nine bytes that
  -- acknowledges one PDU, and the six bytes of the success response stand from offset 11 of that packet's
  -- buffer on, where the packet has 12 bytes. The console's receive command for the last SAPs then
  -- prints the n bytes of the request.
  pub snep_session :
      (d₁ d₂ rsp : Buf) (n : ℕ) (memory : Memory)
      → Faces sys at re
      → pkt_mt d₁ ≡ mt_dta
      → IsConnect d₁ 3
      → pkt_mt d₂ ≡ mt_dta
      → IsPut d₂ 3 n
      → pdu_ssap d₂ 3 ≡ pdu_ssap d₁ 3
      → pkt_len d₂ ≡ 9 + n
      → pkt_len d₂ < 256
      → Returns (process_nci_msg host sys d₁ rsp) λ a.
        let i = pdu_ssap d₁ 3 in
        CarriesPdu a.rsp a.len (pkt_connid d₁) ptype_cc i 4 2
        × Returns (process_nci_msg host a.sys d₂ a.rsp) λ b.
          CarriesPdu b.rsp b.len (pkt_connid d₂) ptype_i i 4 9
          × (b.rsp 5 % 16 ≡ 1)
          × (read b.rsp 11 6 ≡ 0x10 ∷ rsp_success ∷ 0 ∷ 0 ∷ 0 ∷ 0 ∷ [])
          × (recv_snep_put_cb b.sys (negsuc 0) (negsuc 0) memory
              ≡ prints b.sys n (splice (re.llcp_dl i 4).rbuf 0 (read d₂ 12 n)) memory)
  unfolding pdu_ssap
  snep_session d₁ d₂ rsp n memory v m₁ c₁ m₂ c₂ same l small =
      let i = pdu_ssap d₁ 3 in
      Returns_map (process_nci_msg host sys d₁ rsp) _ _
        (connect_step host sys d₁ rsp at re gives v m₁ c₁)
        (λ a (re₁, f₁, (st, vr, rb), k₁). (
          k₁,
          Returns_map (process_nci_msg host a.sys d₂ a.rsp) _ _
              (put_step host a.sys d₂ a.rsp at n re₁ gives f₁ m₂ c₂ l small)
              (λ b (re₂, f₂, (link, ld, ls), k₂, nr, msg).
                let filled = rw same at link in
                (
                  rw same at k₂,
                  rw same at nr ∙ ap (λ x. (x + 1) % 16) vr,
                  msg,
                  recv_connected b.sys at re₂ i memory f₂ (omega arith) (ld ∙ same) ls
                        (ap (λ x. x.status) filled ∙ st)
                      ∙ (ap (λ x. prints b.sys x.rlen x.rbuf memory) filled
                          ∙ ap (λ x. prints b.sys n (splice x 0 (read d₂ 12 n)) memory) rb),
                )),
        ))
