-- ===== src/Re/Transmit.antt =====
-- What an endpoint transmits when it is its turn: src/nfc-re.c. A PDU goes to offset `p` of `b`.
use e2f77dee9c9d8e2bfbcafc.Base.{ℕ, false, List, [], ◌∷◌, length, ◌==◌, if◌then◌else◌}
use e2f77dee9c9d8e2bfbcafc.Memory.{Buf, write}
use e2f77dee9c9d8e2bfbcafc.Packet.{create_nci_dta}
use e2f77dee9c9d8e2bfbcafc.Llcp.{create_pdu, ptype_symm}
use e2f77dee9c9d8e2bfbcafc.Re.{Re}

-- The endpoint, the buffer and the length; 0 if the queue is empty.
unfoldable pub fetch_pdu : List (List ℕ) → Buf → ℕ → List (List ℕ) × Buf × ℕ
fetch_pdu [] b p = ([], b, 0)
fetch_pdu (pdu ∷ rest) b p = (rest, write b p pdu, length pdu)

unfoldable pub fetch_pdu_from_re : Re → Buf → ℕ → Re × Buf × ℕ
unfolding fetch_pdu
fetch_pdu_from_re re b p =
    let (q, b', len) = fetch_pdu re.xmit_q b p in (record re { xmit_q = q }, b', len)

unfoldable pub xmit_pdu_or_symm_from_re : Re → Buf → ℕ → Re × Buf × ℕ
unfolding fetch_pdu_from_re create_pdu
xmit_pdu_or_symm_from_re re b p =
    let (re', b', len) = fetch_pdu_from_re re b p in
    let (symm, n) = create_pdu b' p 0 ptype_symm 0 in
    let sent = record re' { xmit_next = false } in
    if len == 0 then (sent, symm, n) else (sent, b', len)

-- The callback of the transmission timeout: a data packet with the next PDU, or with a SYMM PDU.
unfoldable pub create_dta : Re → Buf → Re × Buf × ℕ
unfolding xmit_pdu_or_symm_from_re create_nci_dta
create_dta re dta =
    let (re', b, len) = xmit_pdu_or_symm_from_re re dta 3 in
    let (b', size) = create_nci_dta b re'.connid len in (re', b', size)
