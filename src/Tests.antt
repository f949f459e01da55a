-- ===== src/Tests.antt =====
-- Runs of the development on concrete inputs, and the data that they share.
pub mod Data
pub mod Links
pub mod Send
pub mod Encoding
pub mod Console
pub mod Tags
pub mod Device
pub mod Nci
pub mod Sequence
pub mod Session
pub mod Peers
pub mod Structs
pub mod Config
use e2f77dee9c9d8e2bfbcafc.Base.{ℕ, List, get_or}
use e2f77dee9c9d8e2bfbcafc.Memory.{Buf}

abbrev pub zeros : Buf
zeros _ = 0

-- A packet with the bytes `l`, and zeros behind them.
abbrev pub packet : List ℕ → Buf
packet l i = get_or l i 0
