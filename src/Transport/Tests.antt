-- ===== src/Transport/Tests.antt =====
-- Concrete runs of the transport, with an erasure code of the required kind: the parity of two bytes is
-- their sum modulo 256.
mod SumCode
mod Examples
