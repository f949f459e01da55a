-- ===== src/Nci/Session/T12.antt =====
-- A message that the console stores in a type-1 or a type-2 tag, read by the host: src/cmdline.c, src/nfc-tag.c,
-- src/nfc-re.c and src/nfc-nci.c.
use e2f77dee9c9d8e2bfbcafc.Base.{
  ℕ, ◌+◌, ◌*◌, ◌-◌, ◌≤◌, ◌<◌, ◌≡◌, refl, ap, ◌∙◌, arith, some, List, [], ◌∷◌, ◌++◌, length,
  get_elem?, slice, splice, All, All-append, All-replicate, All-splice, length-append,
  length-replicate, replicate, length-splice, slice-splice_inside, slice-splice_around, ◌>>=◌,
  Returns, Returns_value,
}
use e2f77dee9c9d8e2bfbcafc.Memory.{Buf, IsByte}
use e2f77dee9c9d8e2bfbcafc.Packet.{pkt_mt, pkt_connid, mt_dta}
use e2f77dee9c9d8e2bfbcafc.Rf.{RfProtocol}
use e2f77dee9c9d8e2bfbcafc.Tag.{Tag, TagType, t1t_cc, ndef_terminator_tlv}
use e2f77dee9c9d8e2bfbcafc.Tag.Store.{set_data_of}
use e2f77dee9c9d8e2bfbcafc.Tag.Store.Laws.{tlv_area, set_t1t_data_lem, set_t2t_data_lem}
use e2f77dee9c9d8e2bfbcafc.Tag.T12.{process_t1t, process_t2t}
use e2f77dee9c9d8e2bfbcafc.Tag.T12.Laws.{process_t1t_rall_lem, process_t2t_read_lem}
use e2f77dee9c9d8e2bfbcafc.Re.{Host}
use e2f77dee9c9d8e2bfbcafc.Re.Data.Answer.{Carries}
use e2f77dee9c9d8e2bfbcafc.System.{System}
use e2f77dee9c9d8e2bfbcafc.Nci.Tables.{process_nci_msg}
use e2f77dee9c9d8e2bfbcafc.Nci.Session.{Serves}
use e2f77dee9c9d8e2bfbcafc.Nci.Session.Store.{store, stored_session}

length-tlv_area :
    (room : ℕ) (msg : List ℕ) → length msg ≤ room → length (tlv_area room msg) ≡ 3 + room
length-tlv_area room msg h =
    let zeros : List ℕ = replicate (room - length msg) 0 in
    omega (
      arith,
      length-append msg (ndef_terminator_tlv ∷ zeros),
      length-replicate (room - length msg) (let z : ℕ = 0 in z),
    )

tlv_area-IsByte :
    (room : ℕ) (msg : List ℕ) → length msg < 256 → All IsByte msg → All IsByte (tlv_area room msg)
tlv_area-IsByte room msg h hb =
    let zeros : List ℕ = replicate (room - length msg) 0 in
    (
      omega arith,
      (
        h,
        All-append IsByte msg (ndef_terminator_tlv ∷ zeros) hb
            (omega arith, All-replicate IsByte (room - length msg) 0 (omega arith)),
      ),
    )

module _ (host : Host) (sys : System) (t : ℕ) (tag : Tag) (msg : List ℕ) (d rsp : Buf)
    (held : get_elem? sys.tags t ≡ some tag) (room : length tag.mem ≡ 1039)
    (old : All IsByte tag.mem) (bytes : All IsByte msg) (data_packet : pkt_mt d ≡ mt_dta) where
  -- The console stores a message of at most 89 bytes in a type-1 tag, which is the active endpoint, and
  -- the host sends the command RALL. It gets a data packet of the same connection: the header 0x11,
  -- 0x00, the tag's first eight bytes as they were, capability container and message with terminator
  -- and zeros, the sixteen bytes behind the data area as they were, and a zero.
  pub t1t_session :
      Serves sys RfProtocol.t1t t
      → tag.type ≡ TagType.t1t
      → length msg ≤ 89
      → d 3 ≡ 0x00
      → Returns (store sys t msg >>= λ x. process_nci_msg host x.sys d rsp) λ a.
        Carries a.rsp a.len (pkt_connid d) (
          0x11
          ∷ 0x00
          ∷ ((slice tag.mem 0 8 ++ ((t1t_cc ++ tlv_area 89 msg) ++ slice tag.mem 104 16))
              ++ (0 ∷ [])))
  unfolding set_data_of
  t1t_session v type short cmd =
      let area : List ℕ = t1t_cc ++ tlv_area 89 msg in
      let m : List ℕ = splice tag.mem 8 area in
      let size : length area ≡ 96 = omega (arith, length-tlv_area 89 msg short) in
      let whole : length m ≡ 1039 = length-splice tag.mem 8 area ∙ room in
      let new : All IsByte m = All-splice IsByte tag.mem 8 area old (
        All-append IsByte t1t_cc (tlv_area 89 msg) (omega arith)
          (tlv_area-IsByte 89 msg (omega arith) bytes)) in
      let (r, run, h) =
        Returns_value (process_t1t m d 3 rsp 3) _
          (process_t1t_rall_lem m d 3 rsp 3 cmd new (omega arith)) in
      let held_bytes =
        slice-splice_around tag.mem 8 area 16 120 104 (omega arith) (omega arith) (omega arith) in
      stored_session host sys t tag msg m TagType.t1t RfProtocol.t1t d rsp _ sys.file_sel r 1 held
        type (set_t1t_data_lem tag.mem msg room short) v data_packet (rw run refl) (h.2)
        (omega (arith, h.1)) (omega (arith, h.1))
        (h.0 ∙ ap (λ l. 0x11 ∷ 0x00 ∷ (l ++ (0 ∷ []))) held_bytes)

  -- The console stores a message of at most 45 bytes in a type-2 tag, which is the active endpoint, and
  -- the host reads at block `b` of the data area, where 16 bytes still lie in it. It gets these 16 bytes
  -- of the message with its header, terminator and zeros, and a zero.
  pub t2t_session :
      (b : ℕ)
      → Serves sys RfProtocol.t2t t
      → tag.type ≡ TagType.t2t
      → length msg ≤ 45
      → d 3 ≡ 0x30
      → d 4 ≡ 4 + b
      → b ≤ 8
      → Returns
          (store sys t msg >>= λ x. process_nci_msg host x.sys d rsp)
          λ a. Carries a.rsp a.len (pkt_connid d) (slice (tlv_area 45 msg) (4 * b) 16 ++ (0 ∷ []))
  unfolding set_data_of
  t2t_session b v type short cmd block low =
      let area : List ℕ = tlv_area 45 msg in
      let m : List ℕ = splice tag.mem 16 area in
      let size : length area ≡ 48 = length-tlv_area 45 msg short in
      let whole : length m ≡ 1039 = length-splice tag.mem 16 area ∙ room in
      let new : All IsByte m =
        All-splice IsByte tag.mem 16 area old (tlv_area-IsByte 45 msg (omega arith) bytes) in
      let (r, run, h) =
        Returns_value (process_t2t m d 3 rsp 3) _
          (process_t2t_read_lem m d 3 rsp 3 cmd new (omega arith) (omega arith)) in
      let inside : slice m (d 4 * 4) 16 ≡ slice area (4 * b) 16 =
        slice-splice_inside tag.mem 16 area (d 4 * 4) (4 * b) 16 (omega arith) (omega arith)
          (omega arith) in
      stored_session host sys t tag msg m TagType.t2t RfProtocol.t2t d rsp _ sys.file_sel r 2 held
        type (set_t2t_data_lem tag.mem msg room short) v data_packet (rw run refl) (h.2)
        (omega (arith, h.1)) (omega (arith, h.1)) (h.0 ∙ ap (λ l. l ++ (0 ∷ [])) inside)
