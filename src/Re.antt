-- ===== src/Re.antt =====
-- Remote endpoints: the data and the buffers of src/nfc-re.c and src/nfc-re.h.
-- `llcp_dl` is indexed by the remote SAP first, as in the code. The callbacks of src/cb.h that the
-- endpoint makes are recorded as events, and what the host answers is a function of the events so
-- far.
pub mod Buffers
pub mod Link
pub mod LinkLaws
pub mod Transmit
pub mod Activation
pub mod Data
pub mod Send
pub mod SendLaws
pub mod NullQueue
use e2f77dee9c9d8e2bfbcafc.Base.{
  ℕ, ◌+◌, Bool, true, false, ◌&&◌, Option, none, some, List, [], ◌∷◌, ◌++◌, length, splice, take,
  replicate, ltb, leb, ◌==◌, if◌then◌else◌, Result, ok, fault, assertion, bounds, ◌>>=◌, ◌>>◌,
  assert,
}
use e2f77dee9c9d8e2bfbcafc.Memory.{Buf, read}
use e2f77dee9c9d8e2bfbcafc.Rf.{RfProtocol, TechMode, f_passive_listen, a_passive_listen}
use e2f77dee9c9d8e2bfbcafc.Llcp.{DataLink, disconnected, init_data_link}

pub record Re : Type 0 where
  pub rfproto : RfProtocol
  pub mode : TechMode
  pub nfcid1 : List ℕ
  pub nfcid2 : List ℕ
  pub nfcid3 : List ℕ
  pub id : ℕ
  pub tag : Option ℕ
  pub llcp_dl : ℕ → ℕ → DataLink
  pub last_dsap : ℕ
  pub last_ssap : ℕ
  pub xmit_next : Bool
  pub xmit_timeout : Option ℕ
  pub xmit_q : List (List ℕ)
  pub connid : ℕ
  pub sbufsiz : ℕ
  pub rbufsiz : ℕ
  pub sbuf : List ℕ
  pub rbuf : List ℕ

-- A call into the host; a timeout is known by the number that stands for the host's pointer, and an
-- endpoint by its index.
pub data Event : Type 0 where
  new_timeout : Event
  mod_timeout : ℕ → ℕ → Event
  del_timeout : ℕ → Event
  send_ntf_rf_field_info : Event
  send_dta : Event

-- The host's answers: the pointer that `new_timeout` returns, and `timeout_is_pending`.
pub record Host : Type 0 where
  pub new_timeout_result : List Event → Option ℕ
  pub timeout_is_pending : List Event → ℕ → Bool

-- An endpoint as `INIT_NFC_RE` leaves it: all that is not named is zero.
unfoldable pub init_re : RfProtocol → TechMode → Option ℕ → List ℕ → List ℕ → Re
init_re rfproto mode tag nfcid nfcid2 = record {
  rfproto = rfproto;
  mode = mode;
  nfcid1 = nfcid;
  nfcid2 = nfcid2;
  nfcid3 = nfcid;
  id = 0;
  tag = tag;
  llcp_dl = λ _ _. zero_link;
  last_dsap = 0;
  last_ssap = 0;
  xmit_next = false;
  xmit_timeout = none;
  xmit_q = [];
  connid = 0;
  sbufsiz = 0;
  rbufsiz = 0;
  sbuf = replicate 1024 0;
  rbuf = replicate 1024 0;
}
  where
    zero_link : DataLink
    zero_link = record {
      status = disconnected;
      v_s = 0;
      v_sa = 0;
      v_r = 0;
      v_ra = 0;
      miu = 0;
      rw_l = 0;
      rw_r = 0;
      rlen = 0;
      rbuf = replicate 256 0;
      xmit_q = none;
    }

-- "deadbeaf" and one more character, with the terminator: ten bytes.
abbrev pub nfcid_text : ℕ → List ℕ
nfcid_text c = 0x64 ∷ 0x65 ∷ 0x61 ∷ 0x64 ∷ 0x62 ∷ 0x65 ∷ 0x61 ∷ 0x66 ∷ c ∷ 0x00 ∷ []

-- The seven characters of an initialiser of `nfcid2`, and the terminator.
abbrev nfcid2_bytes : ℕ → ℕ → ℕ → List ℕ
nfcid2_bytes a b c = a ∷ b ∷ 0 ∷ 0 ∷ 0 ∷ 0 ∷ c ∷ 0 ∷ []

-- `nfc_res`. The tags are numbered as in `nfc_tags`.
unfoldable pub nfc_res : List Re
unfolding init_re
nfc_res =
    init_re RfProtocol.nfc_dep f_passive_listen none (nfcid_text 0x30) (nfcid2_bytes 0x01 0xfe 0)
    ∷ init_re RfProtocol.nfc_dep f_passive_listen none (nfcid_text 0x31) (nfcid2_bytes 0x01 0xfe 1)
    ∷ init_re RfProtocol.t1t a_passive_listen (some 0) (nfcid_text 0x32) (nfcid2_bytes 0x00 0x00 2)
    ∷ init_re RfProtocol.t2t a_passive_listen (some 1) (nfcid_text 0x33) (nfcid2_bytes 0x00 0x00 3)
    ∷ init_re RfProtocol.t3t f_passive_listen (some 2) (nfcid_text 0x34) (nfcid2_bytes 0x02 0xfe 4)
    ∷ init_re RfProtocol.iso_dep a_passive_listen (some 3) (nfcid_text 0x35)
        (nfcid2_bytes 0x00 0x00 5)
    ∷ []

-- The link of a remote and a local SAP, and the endpoint with that link replaced.
abbrev pub set_link : Re → ℕ → ℕ → DataLink → Re
set_link re dsap ssap dl = record re {
  llcp_dl = λ i j. if i == dsap && j == ssap then dl else re.llcp_dl i j;
}

unfoldable pub update_last_saps : Re → ℕ → ℕ → Result Re
update_last_saps re dsap ssap = do
  assert (ltb dsap 64)
  assert (ltb ssap 64)
  ok (record re { last_dsap = dsap; last_ssap = ssap })

-- The search of `nfc_get_re_by_id` through the table, from index `i` on.
unfoldable pub find_re : List Re → ℕ → ℕ → Option ℕ
find_re [] i id = none
find_re (r ∷ rs) i id = let rest = find_re rs (i + 1) id in if r.id == id then some i else rest

unfoldable pub get_re_by_id : List Re → ℕ → Result (Option ℕ)
unfolding find_re
get_re_by_id res id = do assert (ltb 0 id); assert (ltb id 255); ok (find_re res 0 id)

unfoldable pub clear_re : Re → Re
unfolding init_data_link
clear_re re = record re {
  llcp_dl = λ i j. if ltb i 64 && ltb j 64 then init_data_link (re.llcp_dl i j) else re.llcp_dl i j;
  last_dsap = 0;
  last_ssap = 0;
}

-- `write_buf` on a buffer of 1024 bytes: the size, the buffer, and the result (`none` for -1).
-- The `len` bytes stand at offset `p` of `b`.
unfoldable pub write_buf : ℕ → List ℕ → ℕ → Buf → ℕ → ℕ × List ℕ × Option ℕ
write_buf bufsiz buf len b p =
    if ltb bufsiz len
    then (bufsiz, buf, none)
    else (bufsiz + len, splice buf 0 (read b p len), some len)

-- `read_buf`: the size, and the bytes that are read (`none` for -1).
unfoldable pub read_buf : ℕ → List ℕ → ℕ → ℕ × Option (List ℕ)
read_buf bufsiz buf len = if ltb len bufsiz then (bufsiz, none) else (0, some (take bufsiz buf))

unfoldable pub re_write_sbuf : Re → ℕ → Buf → ℕ → Re × Option ℕ
unfolding write_buf
re_write_sbuf re len b p =
    let (siz, buf, res) = write_buf re.sbufsiz re.sbuf len b p in
    (record re { sbufsiz = siz; sbuf = buf }, res)

unfoldable pub re_read_sbuf : Re → ℕ → Re × Option (List ℕ)
unfolding read_buf
re_read_sbuf re len =
    let (siz, res) = read_buf re.sbufsiz re.sbuf len in (record re { sbufsiz = siz }, res)

unfoldable pub re_write_rbuf : Re → ℕ → Buf → ℕ → Re × Option ℕ
unfolding write_buf
re_write_rbuf re len b p =
    let (siz, buf, res) = write_buf re.rbufsiz re.rbuf len b p in
    (record re { rbufsiz = siz; rbuf = buf }, res)

unfoldable pub re_read_rbuf : Re → ℕ → Re × Option (List ℕ)
unfolding read_buf
re_read_rbuf re len =
    let (siz, res) = read_buf re.rbufsiz re.rbuf len in (record re { rbufsiz = siz }, res)
