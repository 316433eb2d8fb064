-- ===== src/Session/Tests.antt =====
-- Concrete runs of a session's state, with toy primitives in place of HMAC and HKDF.
pub mod Toy
mod Guard
mod Chain
mod Ratchet
mod Causal
