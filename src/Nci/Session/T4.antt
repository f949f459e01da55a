-- ===== src/Nci/Session/T4.antt =====
-- A message that the console stores in a type-4 tag, read by the host: src/cmdline.c, src/nfc-tag.c,
-- src/nfc-re.c and src/nfc-nci.c.
use e2f77dee9c9d8e2bfbcafc.Base.{
  ℕ, ◌+◌, ◌*◌, ◌/◌, ◌%◌, ◌^◌, ◌≤◌, ◌<◌, ◌≡◌, refl, arith, some, List, [], ◌∷◌, ◌++◌, length,
  get_elem?, slice, splice, drop, All, All-take, All-drop, length-slice, ok, ◌>>=◌, Returns,
  Returns_map, >>=-Returns, subst,
}
use e2f77dee9c9d8e2bfbcafc.Memory.{Buf, IsByte, read}
use e2f77dee9c9d8e2bfbcafc.Packet.{pkt_mt, pkt_connid, mt_dta}
use e2f77dee9c9d8e2bfbcafc.Rf.{RfProtocol}
use e2f77dee9c9d8e2bfbcafc.Tag.{Tag, TagType, t4t_ndef_cc}
use e2f77dee9c9d8e2bfbcafc.Tag.Store.{set_data_of, set_t4t_data}
use e2f77dee9c9d8e2bfbcafc.Tag.Store.Laws.{set_t4t_data_lem}
use e2f77dee9c9d8e2bfbcafc.Tag.T4.{ndef_select, status_words, file_bytes}
use e2f77dee9c9d8e2bfbcafc.Tag.T4.Laws.{
  IsReadBinary, IsSelectNdef, select_step, read_binary_ok, read_response, binary_response,
  ndef_file,
}
use e2f77dee9c9d8e2bfbcafc.Re.{Host}
use e2f77dee9c9d8e2bfbcafc.Re.Data.Answer.{Carries}
use e2f77dee9c9d8e2bfbcafc.System.{System}
use e2f77dee9c9d8e2bfbcafc.Nci.Tables.{process_nci_msg}
use e2f77dee9c9d8e2bfbcafc.Nci.Session.{Serves, session_step}
use e2f77dee9c9d8e2bfbcafc.Nci.Session.Store.{
  store, store_lem, filled, filled-Serves, get_elem?-set_same,
}

module _ (host : Host) (sys : System) (t : ℕ) (tag : Tag) (msg : List ℕ)
    (held : get_elem? sys.tags t ≡ some tag) (room : length tag.mem ≡ 1039)
    (bytes : All IsByte msg) where
  -- The console stores a message of at most 1021 bytes in a type-4 tag, which is the active endpoint.
  -- The host selects the NDEF file, and then reads `le` bytes of it from offset 2 + k on, inside the
  -- message. The second answer is a data packet of the same connection with bytes k to k + le of the
  -- message and the status words 90 00.
  pub t4t_session :
      (d₁ d₂ rsp : Buf) (k : ℕ)
      → Serves sys RfProtocol.iso_dep t
      → tag.type ≡ TagType.t4t
      → length msg + 2 < 1024
      → pkt_mt d₁ ≡ mt_dta
      → IsSelectNdef d₁ 3
      → pkt_mt d₂ ≡ mt_dta
      → IsReadBinary d₂ 3
      → d₂ 5 * 256 + d₂ 6 ≡ 2 + k
      → k + d₂ 7 ≤ length msg
      → d₂ 7 < 254
      → Returns
          (store sys t msg >>= λ d.
            process_nci_msg host d.sys d₁ rsp >>= λ a. process_nci_msg host a.sys d₂ a.rsp)
          λ a. Carries a.rsp a.len (pkt_connid d₂) (slice msg k (d₂ 7) ++ (0x90 ∷ 0x00 ∷ []))
  unfolding set_data_of status_words
  t4t_session d₁ d₂ rsp k v type short m₁ s₁ m₂ s₂ off inside le =
      let n = length msg in
      let head : List ℕ = t4t_ndef_cc ++ ((n / 2 ^ 8 % 256) ∷ (n % 256) ∷ msg) in
      let m : List ℕ = splice tag.mem 0 head in
      let stored : set_t4t_data tag.mem msg ≡ ok m = set_t4t_data_lem tag.mem msg room short in
      let sys₁ = filled sys t tag m in
      let held₁ = get_elem?-set_same sys.tags t tag (record tag { mem = m }) held in
      let part : List ℕ = slice msg k (d₂ 7) in
      let size : length part ≡ d₂ 7 = length-slice msg k (d₂ 7) inside in
      rw (store_lem sys t tag msg m TagType.t4t held type stored) (
        >>=-Returns (process_nci_msg host sys₁ d₁ rsp) _ _ _
          (session_step host sys₁ d₁ rsp RfProtocol.iso_dep t (record tag { mem = m }) ndef_select
            (status_words rsp 3 0x90 0x00 7) 7 (filled-Serves sys RfProtocol.iso_dep t tag m v)
            held₁ m₁ (select_step sys.file_sel m d₁ 3 rsp 3 s₁) refl (omega arith) (omega arith))
          (λ a h.
            let file : file_bytes ndef_select m (d₂ 5 * 256 + d₂ 6) (d₂ 7) ≡ ok part =
              rw off (ndef_file tag.mem msg m k (d₂ 7) room short stored inside) in
            let answered : read (binary_response a.rsp 3 part (d₂ 7)).rsp 3 (d₂ 7 + 2)
                ≡ part ++ (0x90 ∷ 0x00 ∷ []) =
              rw size at (
                read_response a.rsp 3 (d₂ 7) part size
                  (All-take IsByte (d₂ 7) (drop k msg) (All-drop IsByte k msg bytes))) in
            Returns_map (process_nci_msg host a.sys d₂ a.rsp) _ _
              (session_step host a.sys d₂ a.rsp RfProtocol.iso_dep t (record tag { mem = m })
                ndef_select (binary_response a.rsp 3 part (d₂ 7)) 5 h.0 (rw h.1 held₁) m₂
                (rw h.2 (read_binary_ok ndef_select m d₂ 3 a.rsp 3 part s₂ file)) refl (omega arith)
                (omega arith))
              (λ b c. subst (Carries b.rsp b.len (pkt_connid d₂)) answered c.3)))
