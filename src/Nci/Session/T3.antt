-- ===== src/Nci/Session/T3.antt =====
-- A message that the console stores in a type-3 tag, read by the host: src/cmdline.c, src/nfc-tag.c,
-- src/nfc-re.c and src/nfc-nci.c.
use e2f77dee9c9d8e2bfbcafc.Base.{
  ℕ, ◌+◌, ◌*◌, ◌%◌, ◌≤◌, ◌<◌, ◌≡◌, refl, sym, ap, ◌∙◌, arith, some, List, [], ◌∷◌, ◌++◌, length,
  get_elem?, slice, All, slice-slice, Keeps_ok, ◌>>=◌, Returns, Returns_value,
}
use e2f77dee9c9d8e2bfbcafc.Memory.{Buf, IsByte, read}
use e2f77dee9c9d8e2bfbcafc.Packet.{pkt_mt, pkt_len, pkt_connid, mt_dta}
use e2f77dee9c9d8e2bfbcafc.Rf.{RfProtocol}
use e2f77dee9c9d8e2bfbcafc.Tag.{Tag, TagType}
use e2f77dee9c9d8e2bfbcafc.Tag.Store.{set_data_of, set_t3t_data}
use e2f77dee9c9d8e2bfbcafc.Tag.T3.{process_t3t}
use e2f77dee9c9d8e2bfbcafc.Tag.T3.Laws.{Names, process_t3t_check_lem}
use e2f77dee9c9d8e2bfbcafc.Tag.Store.Checksum.{set_t3t_data_lem, set_t3t_data_bytes}
use e2f77dee9c9d8e2bfbcafc.Re.{Host}
use e2f77dee9c9d8e2bfbcafc.Re.Data.Answer.{Carries}
use e2f77dee9c9d8e2bfbcafc.System.{System}
use e2f77dee9c9d8e2bfbcafc.Nci.Tables.{process_nci_msg}
use e2f77dee9c9d8e2bfbcafc.Nci.Session.{Serves}
use e2f77dee9c9d8e2bfbcafc.Nci.Session.Store.{store, stored_session}

-- The console stores a message of fewer than 1008 bytes in a type-3 tag, which is the active endpoint.
-- The host sends a check command for at most 15 blocks in a row, from block 1 + j on, in elements of
-- two bytes, all inside the message. It gets a data packet of the same connection: length and code of
-- the answer, the command's own id, two status bytes of 0, the number of blocks, these blocks of the
-- message, and a zero.
pub t3t_session :
    (host : Host) (sys : System) (t : ℕ) (tag : Tag) (msg : List ℕ) (d rsp : Buf) (j n : ℕ)
    → get_elem? sys.tags t ≡ some tag
    → length tag.mem ≡ 1039
    → All IsByte tag.mem
    → All IsByte msg
    → Serves sys RfProtocol.t3t t
    → tag.type ≡ TagType.t3t
    → length msg < 1008
    → pkt_mt d ≡ mt_dta
    → d 4 ≡ 0x06
    → All IsByte (read d 5 8)
    → d (14 + 2 * d 13) ≡ n
    → Names d (14 + 2 * d 13 + 1) (1 + j) n
    → n ≤ 15
    → (j + n) * 16 ≤ length msg
    → Returns (store sys t msg >>= λ x. process_nci_msg host x.sys d rsp) λ a.
      Carries a.rsp a.len (pkt_connid d) (
        (14 + n * 16)
        ∷ 0x07
        ∷ (read d 5 8 ++ (0 ∷ 0 ∷ n ∷ (slice msg (j * 16) (n * 16) ++ (0 ∷ [])))))
unfolding set_data_of
t3t_session host sys t tag msg d rsp j n held room old bytes v type short data_packet cmd id count
      names few inside =
    let (m, stored, layout) =
      Returns_value (set_t3t_data tag.mem msg) _ (set_t3t_data_lem tag.mem msg room short) in
    let new : All IsByte m =
      Keeps_ok (set_t3t_data tag.mem msg) (All IsByte) (set_t3t_data_bytes tag.mem msg old bytes)
        stored in
    let (r, run, h) = Returns_value (process_t3t m d 3 (pkt_len d) rsp 3) _ (
      process_t3t_check_lem m d 3 (pkt_len d) rsp 3 (1 + j) n cmd count names few (omega arith)
        (omega (arith, layout.3)) new id) in
    let part : slice m ((1 + j) * 16) (n * 16) ≡ slice msg (j * 16) (n * 16) =
      sym
        (slice-slice m 16 (length msg) (j * 16) (n * 16) ((1 + j) * 16) (omega arith) (omega arith))
      ∙ ap (λ l. slice l (j * 16) (n * 16)) layout.2 in
    stored_session host sys t tag msg m TagType.t3t RfProtocol.t3t d rsp _ sys.file_sel r
      ((12 + 2 * d 13 + 2 * n) % 256) held type stored v data_packet (rw run refl) h.2
      (omega (arith, h.1)) (omega (arith, h.1))
      (h.0 ∙ ap (λ l. (14 + n * 16) ∷ 0x07 ∷ (read d 5 8 ++ (0 ∷ 0 ∷ n ∷ (l ++ (0 ∷ []))))) part)
