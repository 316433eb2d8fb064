-- ===== src/Traversal.antt =====
-- Reaching a peer behind a NAT: addresses, the STUN codec and the TURN relay.
pub mod Address
pub mod Samples
pub mod Stun
pub mod Turn
