-- ===== src/Transport.antt =====
-- From application bytes to erasure-coded shards and back.
pub mod Erasure
pub mod Coalesce
pub mod Reassembly
pub mod EndToEnd
mod Tests
