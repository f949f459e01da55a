-- ===== src/Snep.antt =====
-- SNEP messages and the SNEP service of an LLCP link: src/snep.c, src/snep.h, src/llcp-snep.c.
pub mod Service
use e2f77dee9c9d8e2bfbcafc.Base.{
  ℕ, ◌+◌, ◌-◌, ◌^◌, Bool, not, ◌||◌, ltb, leb, ◌==◌, if◌then◌else◌, Result, ok, ◌>>=◌, ◌>>◌, assert,
}
use e2f77dee9c9d8e2bfbcafc.Memory.{Buf, poke, write, read}
use e2f77dee9c9d8e2bfbcafc.Bswap.{cpu_to_be32, be32_to_cpu}
use e2f77dee9c9d8e2bfbcafc.Llcp.{DataLink, dl_write_rbuf}

-- `enum snep_msg`, as far as the code uses it.
abbrev pub req_put : ℕ
req_put = 0x02

abbrev pub rsp_success : ℕ
rsp_success = 0x81

abbrev pub rsp_excess_data : ℕ
rsp_excess_data = 0xc1

abbrev pub rsp_bad_request : ℕ
rsp_bad_request = 0xc2

abbrev pub rsp_not_implemented : ℕ
rsp_not_implemented = 0xe0

abbrev pub rsp_unsupported_version : ℕ
rsp_unsupported_version = 0xe1

-- `sizeof(struct snep)`
abbrev pub snep_size : ℕ
snep_size = 6

-- Version 1.0, the code, and the length in big endian.
unfoldable pub create_msg : Buf → ℕ → ℕ → ℕ → Buf × ℕ
create_msg b p msg len =
    let b₁ = poke (poke b p 0x10) (p + 1) msg in
    (write b₁ (p + 2) (cpu_to_be32 len), snep_size + len)

unfoldable pub create_req_put : Buf → ℕ → ℕ → Buf × ℕ
create_req_put b p len = create_msg b p req_put len

unfoldable pub create_rsp_success : Buf → ℕ → ℕ → Buf × ℕ
create_rsp_success b p len = create_msg b p rsp_success len

unfoldable pub create_rsp_excess_data : Buf → ℕ → Buf × ℕ
create_rsp_excess_data b p = create_msg b p rsp_excess_data 0

unfoldable pub create_rsp_bad_request : Buf → ℕ → Buf × ℕ
create_rsp_bad_request b p = create_msg b p rsp_bad_request 0

unfoldable pub create_rsp_not_implemented : Buf → ℕ → Buf × ℕ
create_rsp_not_implemented b p = create_msg b p rsp_not_implemented 0

unfoldable pub create_rsp_unsupported_version : Buf → ℕ → Buf × ℕ
create_rsp_unsupported_version b p = create_msg b p rsp_unsupported_version 0

-- What a handler leaves: the link, the response buffer and the response's length.
pub record Answer : Type 0 where
  pub link : DataLink
  pub rsp : Buf
  pub len : ℕ

-- A response with the link as it was.
abbrev pub reply : DataLink → Buf × ℕ → Answer
reply dl (b, len) = record { link = dl; rsp = b; len = len }

-- The message lies at offset `p` of `b`, and the response goes to offset `q` of `rsp`.
unfoldable pub process_req_put : Buf → ℕ → DataLink → Buf → ℕ → Result Answer
unfolding create_rsp_excess_data create_rsp_success dl_write_rbuf
process_req_put b p dl rsp q =
    let sneplen = be32_to_cpu b (p + 2) in
    if not (ltb sneplen 256) then ok (reply dl (create_rsp_excess_data rsp q)) else (do
      (dl', _) ← dl_write_rbuf dl (read b (p + 6) sneplen)
      ok (reply dl' (create_rsp_success rsp q 0)))

unfoldable pub process_rsp_success : Buf → ℕ → DataLink → Buf → ℕ → Result Answer
process_rsp_success b p dl rsp q = ok (reply dl (rsp, 0))

-- `(major << 4) | minor` is the byte that holds the two.
unfoldable pub version_is_supported : ℕ → Bool
version_is_supported ver = leb ver 0x10

-- The handler table has 0x82 entries, of which all but two are null.
unfoldable pub process_msg : Buf → ℕ → DataLink → Buf → ℕ → Result Answer
unfolding version_is_supported create_rsp_unsupported_version create_rsp_not_implemented
    process_req_put process_rsp_success
process_msg b p dl rsp q =
    let msg = b (p + 1) in
    if not (version_is_supported (b p))
    then ok (reply dl (create_rsp_unsupported_version rsp q))
    else (if leb 0x82 msg || not (msg == req_put || msg == rsp_success)
        then ok (reply dl (create_rsp_not_implemented rsp q))
        else (if msg == req_put
            then process_req_put b p dl rsp q
            else process_rsp_success b p dl rsp q))

unfoldable pub llcp_sap_snep : DataLink → Buf → ℕ → ℕ → Buf → ℕ → Result Answer
unfolding create_rsp_bad_request create_rsp_excess_data process_msg
llcp_sap_snep dl info p len rsp q = do
  assert (leb 6 len)
  let sneplen = be32_to_cpu info (p + 2)
  if ltb len snep_size
      then ok (reply dl (create_rsp_bad_request rsp q))
      else (if not (ltb sneplen (2 ^ 32 - 1 - snep_size)) || not (sneplen + snep_size == len)
          then ok (reply dl (create_rsp_excess_data rsp q))
          else process_msg info p dl rsp q)
