-- ===== src/Relay.antt =====
-- Relays: identity-free channels, and the constraint on the relays of a group of shards.
pub mod Signing
pub mod Flow
pub mod Envelope
pub mod Derp
pub mod Vouchers
pub mod Exit
pub mod Policy
pub mod Tor
pub mod Bundles
pub mod Hop
pub mod Channels
pub mod Diversity
