-- ===== src/Ledger.antt =====
-- Vouchers and credits that pay for forwarding.
pub mod Bandwidth
pub mod Energy
mod Tests
