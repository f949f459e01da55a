-- ===== src/Tests/Send.antt =====
-- Runs of what the console makes an endpoint send.
use e2f77dee9c9d8e2bfbcafc.Base.{
  ℕ, ◌+◌, ◌%◌, ◌/◌, ◌<◌, ◌≡◌, refl, arith, true, List, [], ◌∷◌, none, some, map, ok, fault, null,
  inl, Returns,
}
use e2f77dee9c9d8e2bfbcafc.Memory.{Buf, read, write}
use e2f77dee9c9d8e2bfbcafc.Rf.{RfProtocol, TechMode}
use e2f77dee9c9d8e2bfbcafc.Llcp.{
  connected, create_pdu_i, pdu_dsap, pdu_ssap, pdu_ptype, ptype_connect, ptype_i, init_data_link,
}
use e2f77dee9c9d8e2bfbcafc.Re.{Re, init_re, clear_re, nfcid_text}
use e2f77dee9c9d8e2bfbcafc.Re.Send.{CreateSnep, re_send_snep_put}
use e2f77dee9c9d8e2bfbcafc.Re.Send.Steps.{headed}
use e2f77dee9c9d8e2bfbcafc.Re.NullQueue.{re_send_snep_put-null}
use e2f77dee9c9d8e2bfbcafc.Re.SendLaws.{put_cc, put_cc-delivers}
use e2f77dee9c9d8e2bfbcafc.Re.Transmit.{xmit_pdu_or_symm_from_re}
use e2f77dee9c9d8e2bfbcafc.Tests.{zeros, packet}

-- A peer as it is at start-up, and one that was cleared and whose turn it is.
abbrev fresh_peer : Re
unfolding init_re
fresh_peer = init_re RfProtocol.nfc_dep TechMode.f_passive_listen none (nfcid_text 0x30) []

abbrev peer : Re
unfolding init_re clear_re
peer = record (clear_re fresh_peer) { xmit_next = true }

-- A PUT request with one byte.
abbrev request : List ℕ
request = 0x10 ∷ 0x02 ∷ 0 ∷ 0 ∷ 0 ∷ 1 ∷ 0xd0 ∷ []

abbrev create_request : CreateSnep
create_request room b p = ok (write b p request, some 7)

-- A CC PDU from SAP 4 to SAP 32.
abbrev cc : Buf
cc = packet (0x81 ∷ 0x84 ∷ [])

abbrev fresh : ℕ → Buf
fresh _ = zeros

put_cc-delivers_example : Returns (put_cc create_request peer [] 4 32 zeros fresh cc 0 zeros) λ r.
    let next = xmit_pdu_or_symm_from_re r.1.re zeros 3 in
    (pk : Buf) × (r.0.packet ≡ some (pk, 5))
    × (pdu_ptype pk 3 ≡ ptype_connect)
    × (pdu_dsap pk 3 ≡ 4)
    × (pdu_ssap pk 3 ≡ 32)
    × ((r.1.re.llcp_dl 4 32).status ≡ connected)
    × (next.2 ≡ 3 + 7)
    × (read next.1 3 (3 + 7)
        ≡ map (λ v. v % 256) (read (write (headed peer 4 32 zeros) 3 request) 0 (3 + 7)))
    × (pdu_ptype next.1 3 ≡ ptype_i)
    × (pdu_dsap next.1 3 ≡ 4)
    × (pdu_ssap next.1 3 ≡ 32)
    × (next.1 (3 + 2) / 16 ≡ (peer.llcp_dl 4 32).v_s % 16)
    × ((r.1.re.llcp_dl 4 32).v_s ≡ 0)
unfolding init_re clear_re init_data_link create_pdu_i pdu_dsap pdu_ssap
put_cc-delivers_example =
    put_cc-delivers create_request peer [] 4 32 zeros fresh
      (write (headed peer 4 32 zeros) 3 request) 7 cc 0 zeros refl refl (omega arith) (omega arith)
      refl refl (omega arith) refl refl zeros 3 refl refl (λ k h. keep k h)
  where
    keep : (k : ℕ) → k < 3 → write (headed peer 4 32 zeros) 3 request k ≡ headed peer 4 32 zeros k
    keep k h = ground arith

re_send_snep_put-null_example :
    re_send_snep_put create_request fresh_peer [] 4 32 zeros fresh ≡ fault null
unfolding init_re
re_send_snep_put-null_example =
    re_send_snep_put-null create_request fresh_peer [] 4 32 zeros fresh
      (write (headed fresh_peer 4 32 zeros) 3 request) (some 7) refl (omega arith) (omega arith)
      (inl refl) refl refl
