-- ===== src/Re/Buffers.antt =====
-- The send and receive buffers of an endpoint.
use e2f77dee9c9d8e2bfbcafc.Base.{ℕ, ◌<◌, ◌≡◌, [], some, none, arith}
use e2f77dee9c9d8e2bfbcafc.Memory.{Buf}
use e2f77dee9c9d8e2bfbcafc.Re.{Re, re_write_sbuf, re_read_sbuf, re_write_rbuf, re_read_rbuf}

-- The room of a buffer is taken to be what it already holds, so an endpoint whose buffers are empty
-- refuses every write of at least one byte and stays as it is, and reading gives it no bytes.
pub re_buffers_stay_empty :
    (re : Re) (len : ℕ) (b : Buf) (p : ℕ)
    → re.sbufsiz ≡ 0
    → re.rbufsiz ≡ 0
    → 0 < len
    → (re_write_sbuf re len b p ≡ (re, none))
      × (re_write_rbuf re len b p ≡ (re, none))
      × (re_read_sbuf re len ≡ (re, some []))
      × (re_read_rbuf re len ≡ (re, some []))
unfolding re_write_sbuf re_write_rbuf re_read_sbuf re_read_rbuf
re_buffers_stay_empty re len b p hs hr h = ground arith
