-- ===== src/Session.antt =====
-- The per-session state that guards and keys a channel.
pub mod Guard
pub mod Kdf
pub mod MsgChain
pub mod Ratchet
pub mod Causal
pub mod Pdus
pub mod Steps
pub mod Tests
