-- ===== src/Llcp.antt =====
-- LLCP: PDU headers, link parameters and data links: src/llcp.c, src/llcp.h (with
-- BITORDER_MSB_FIRST at 0, so a bit field listed first takes the low bits).
-- A queue of `struct llcp_pdu_buf` is the list of the PDUs in it, oldest first. `malloc` is taken
-- to succeed, so `llcp_alloc_pdu_buf` and `llcp_free_pdu_buf` leave nothing to model.
pub mod Header
pub mod Link
use e2f77dee9c9d8e2bfbcafc.Base.{
  ℕ, ◌+◌, ◌*◌, ◌/◌, ◌%◌, Option, none, some, List, [], ◌∷◌, length, splice, take, ltb,
  if◌then◌else◌, Result, ok, ◌>>=◌, ◌>>◌, assert,
}
use e2f77dee9c9d8e2bfbcafc.Memory.{Buf, poke, write}

-- `enum nfc_llcp_ptype`
abbrev pub ptype_symm : ℕ
ptype_symm = 0x0

abbrev pub ptype_connect : ℕ
ptype_connect = 0x4

abbrev pub ptype_disc : ℕ
ptype_disc = 0x5

abbrev pub ptype_cc : ℕ
ptype_cc = 0x6

abbrev pub ptype_dm : ℕ
ptype_dm = 0x7

abbrev pub ptype_frmr : ℕ
ptype_frmr = 0x8

abbrev pub ptype_i : ℕ
ptype_i = 0xc

abbrev pub ptype_rr : ℕ
ptype_rr = 0xd

abbrev pub ptype_rnr : ℕ
ptype_rnr = 0xe

-- `struct llcp_pdu` at offset `p`: ptype0:2 and dsap:6, then ssap:6 and ptype1:2.
unfoldable pub create_pdu : Buf → ℕ → ℕ → ℕ → ℕ → Buf × ℕ
create_pdu b p dsap ptype ssap =
    let b₁ = poke b p (ptype / 4 % 4 + dsap % 64 * 4) in
    let b₂ = poke b₁ (p + 1) (ssap % 64 + ptype % 4 * 64) in (b₂, 2)

unfoldable pub create_pdu_dm : Buf → ℕ → ℕ → ℕ → ℕ → Buf × ℕ
unfolding create_pdu
create_pdu_dm b p dsap ssap reason =
    let (b', len) = create_pdu (poke b (p + 2) reason) p dsap ptype_dm ssap in (b', len + 1)

unfoldable pub create_pdu_i : Buf → ℕ → ℕ → ℕ → ℕ → ℕ → Buf × ℕ
unfolding create_pdu
create_pdu_i b p dsap ssap ns nr =
    let b₁ = poke b (p + 2) (ns % 16 * 16 + nr % 16) in
    let (b', len) = create_pdu b₁ p dsap ptype_i ssap in (b', len + 1)

unfoldable pub pdu_dsap : Buf → ℕ → ℕ
pdu_dsap b p = b p / 4 % 64

unfoldable pub pdu_ssap : Buf → ℕ → ℕ
pdu_ssap b p = b (p + 1) % 64

-- `llcp_ptype`: `(ptype0 << 2) | ptype1`, whose bits do not overlap.
unfoldable pub pdu_ptype : Buf → ℕ → ℕ
pdu_ptype b p = b p % 4 * 4 + b (p + 1) / 64 % 4

-- Header bytes for bcm2079x, the version 1.1 and a link timeout of 250.
abbrev pub param_tail : List ℕ
param_tail = 0x46 ∷ 0x66 ∷ 0x6d ∷ 0x01 ∷ 1 ∷ 0x11 ∷ 0x04 ∷ 1 ∷ 250 ∷ []

unfoldable pub create_param_tail : Buf → ℕ → Buf × ℕ
create_param_tail b p = (write b p param_tail, 9)

-- `enum llcp_data_link_status`
pub data LinkStatus : Type 0 where
  disconnected connecting connected disconnecting : LinkStatus

-- `struct llcp_data_link`. The queue is `none` where its head is zeroed, as it is before
-- `llcp_init_data_link`: such a queue looks empty, but the tail pointer that an insertion goes
-- through is NULL.
pub record DataLink : Type 0 where
  pub status : LinkStatus
  pub v_s : ℕ
  pub v_sa : ℕ
  pub v_r : ℕ
  pub v_ra : ℕ
  pub miu : ℕ
  pub rw_l : ℕ
  pub rw_r : ℕ
  pub rlen : ℕ
  pub rbuf : List ℕ
  pub xmit_q : Option (List (List ℕ))

-- The PDUs that a loop over the queue finds, and the queue that it leaves.
unfoldable pub queued : Option (List (List ℕ)) → List (List ℕ)
queued none = []
queued (some q) = q

unfoldable pub emptied : Option (List (List ℕ)) → Option (List (List ℕ))
emptied none = none
emptied (some q) = some []

unfoldable pub clear_data_link : DataLink → DataLink
clear_data_link dl = record dl {
  v_s = 0;
  v_sa = 0;
  v_r = 0;
  v_ra = 0;
  miu = 128;
  rw_l = 1;
  rw_r = 1;
  rlen = 0;
}

unfoldable pub init_data_link : DataLink → DataLink
unfolding clear_data_link
init_data_link dl = clear_data_link (record dl { status = disconnected; xmit_q = some [] })

-- The bytes that `data` points to are the list; the result is the new link and `dl->rlen`.
unfoldable pub dl_write_rbuf : DataLink → List ℕ → Result (DataLink × ℕ)
dl_write_rbuf dl bytes = do
  assert (ltb (length bytes) 256)
  ok (record dl { rlen = length bytes; rbuf = splice dl.rbuf 0 bytes }, length bytes)

-- The bytes that go to `data`; their number is the result.
unfoldable pub dl_read_rbuf : DataLink → ℕ → Result (List ℕ)
dl_read_rbuf dl len = do
  assert (ltb len 256)
  ok (take (if ltb len dl.rlen then len else dl.rlen) dl.rbuf)
