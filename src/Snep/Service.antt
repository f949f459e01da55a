-- ===== src/Snep/Service.antt =====
-- What the SNEP service does with a message.
use e2f77dee9c9d8e2bfbcafc.Base.{
  ℕ, ◌+◌, ◌^◌, ◌≤◌, ◌<◌, ◌≡◌, ◌⊎◌, [], ◌∷◌, Option, none, some, arith, length, ok, Returns, not,
  ltb, ◌==◌, if◌then◌else◌,
}
use e2f77dee9c9d8e2bfbcafc.Memory.{Buf, IsByte, read, length-read}
use e2f77dee9c9d8e2bfbcafc.Bswap.{be32_to_cpu}
use e2f77dee9c9d8e2bfbcafc.Llcp.{DataLink, dl_read_rbuf}
use e2f77dee9c9d8e2bfbcafc.Llcp.Link.{take-splice, take_long}
use e2f77dee9c9d8e2bfbcafc.Snep.{
  req_put, rsp_success, rsp_excess_data, rsp_not_implemented, rsp_unsupported_version, create_msg,
  llcp_sap_snep, Answer,
}

-- On every message of at least a header's length the service ends normally, its response has six
-- bytes or none, and the link changes at most in its receive buffer.
llcp_sap_snep_total :
    (dl : DataLink) (info : Buf) (p len : ℕ) (rsp : Buf) (q : ℕ)
    → 6 ≤ len
    → Returns (llcp_sap_snep dl info p len rsp q) λ a.
      ((a.len ≡ 0) ⊎ (a.len ≡ 6)) × (a.link ≡ record dl { rlen = a.link.rlen; rbuf = a.link.rbuf })
unfolding llcp_sap_snep create_msg
llcp_sap_snep_total dl info p len rsp q h =
    ground (arith, length-read info (p + 6) (be32_to_cpu info (p + 2)))

-- A PUT request of a supported version whose payload has at most 255 bytes, and no byte more or
-- less than its length field says, is answered by a success message without a payload, and its
-- payload is what the link's receive buffer then holds.
pub put_delivered :
    (dl : DataLink) (info : Buf) (p len : ℕ) (rsp : Buf) (q : ℕ)
    → length dl.rbuf ≡ 256
    → info p ≤ 0x10
    → info (p + 1) ≡ req_put
    → be32_to_cpu info (p + 2) < 256
    → len ≡ 6 + be32_to_cpu info (p + 2)
    → Returns (llcp_sap_snep dl info p len rsp q) λ a.
      (dl_read_rbuf a.link (be32_to_cpu info (p + 2))
        ≡ ok (read info (p + 6) (be32_to_cpu info (p + 2))))
      × (a.link.rlen ≡ be32_to_cpu info (p + 2))
      × (a.len ≡ 6)
      × (read a.rsp q 6 ≡ 0x10 ∷ rsp_success ∷ 0 ∷ 0 ∷ 0 ∷ 0 ∷ [])
unfolding llcp_sap_snep dl_read_rbuf create_msg
put_delivered dl info p len rsp q hr hv hm hn hl =
    let n = be32_to_cpu info (p + 2) in
    ground (
      arith,
      length-read info (p + 6) n,
      take-splice dl.rbuf (read info (p + 6) n) n,
      take_long (read info (p + 6) n) n,
    )

-- The response code for a message, as a decision table: its version byte, its code, the length in
-- its header and the length of the PDU that carried it.
abbrev pub response_code : ℕ → ℕ → ℕ → ℕ → Option ℕ
response_code ver msg n len =
    if not (n + 6 == len)
    then some rsp_excess_data
    else (if ltb 0x10 ver
        then some rsp_unsupported_version
        else (if msg == req_put
            then some (if ltb n 256 then rsp_success else rsp_excess_data)
            else (if msg == rsp_success then none else some rsp_not_implemented)))

-- The message that the response buffer then holds.
abbrev pub Responds : Answer → ℕ → Option ℕ → Type 0
Responds a q none = a.len ≡ 0
Responds a q (some code) = (a.len ≡ 6) × (read a.rsp q 6 ≡ 0x10 ∷ code ∷ 0 ∷ 0 ∷ 0 ∷ 0 ∷ [])

response_bytes :
    (rsp : Buf) (q code : ℕ)
    → IsByte code
    → ((create_msg rsp q code 0).1 ≡ 6)
      × (read (create_msg rsp q code 0).0 q 6 ≡ 0x10 ∷ code ∷ 0 ∷ 0 ∷ 0 ∷ 0 ∷ [])
unfolding create_msg
response_bytes rsp q code h = ground arith

-- The service answers every PDU of at least 6 bytes as the decision table says.
pub llcp_sap_snep_code :
    (dl : DataLink) (info : Buf) (p len : ℕ) (rsp : Buf) (q : ℕ)
    → 6 ≤ len
    → len < 2 ^ 16
    → Returns
        (llcp_sap_snep dl info p len rsp q)
        λ a. Responds a q (response_code (info p) (info (p + 1)) (be32_to_cpu info (p + 2)) len)
unfolding llcp_sap_snep
llcp_sap_snep_code dl info p len rsp q h k = ground (
  arith,
  length-read info (p + 6) (be32_to_cpu info (p + 2)),
  response_bytes rsp q rsp_success (omega arith),
  response_bytes rsp q rsp_excess_data (omega arith),
  response_bytes rsp q rsp_not_implemented (omega arith),
  response_bytes rsp q rsp_unsupported_version (omega arith),
)
