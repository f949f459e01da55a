-- ===== src/Nci.antt =====
-- The NCI message handling of src/nfc-nci.c: handlers, command tables, notifications, and what
-- holds of them.
pub mod Common
pub mod Config
pub mod Rf
pub mod Tables
pub mod Notify
pub mod Machine
pub mod Handlers
pub mod Reach
pub mod Answers
pub mod Discovery
pub mod Run
pub mod Sequence
pub mod Parts
pub mod Structs
pub mod Activated
pub mod Session
pub mod Refuse
