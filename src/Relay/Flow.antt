-- ===== src/Relay/Flow.antt =====
-- `FlowController` of src/ghost/net/mod.rs, the token bucket that rations the traffic a node
-- forwards for others. The clock's reading is an argument; the two atomic operations of a call are
-- taken together.
pub mod Rate
mod Tests
use vantablack.Prelude.{
  ℕ, ◌+◌, ◌-◌, ◌*◌, ◌/◌, ◌%◌, ◌^◌, min, max, Bool, true, false, ltb, leb, if◌then◌else◌,
}

-- `MIN_TRANSIT_BURST`
abbrev pub min_transit_burst : ℕ
min_transit_burst = 1500

pub record FlowController : Type 0 where
  pub transit_bucket : ℕ
  pub transit_rate : ℕ
  pub transit_burst : ℕ
  pub last_replenish : ℕ

-- `new`, with the wrap of a release build in the product.
unfoldable pub new : ℕ → ℕ → FlowController
new transit_rate_mbps now =
    let bytes_per_sec = transit_rate_mbps * 125000 % 2 ^ 64 in
    record {
      transit_bucket = bytes_per_sec;
      transit_rate = bytes_per_sec;
      transit_burst = max (bytes_per_sec / 10) min_transit_burst;
      last_replenish = now;
    }

-- `replenish`; on ℕ the difference is the saturating one.
unfoldable pub replenish : ℕ → FlowController → FlowController
replenish now f =
    let elapsed = now - f.last_replenish in
    let tokens = min (f.transit_rate * elapsed) (2 ^ 128 - 1) / 1000000000 in
    if ltb 1000000 elapsed
    then record f {
      transit_bucket = min (f.transit_bucket + tokens) f.transit_burst % 2 ^ 64;
      last_replenish = now;
    }
    else f

-- `try_consume_transit`
unfoldable pub try_consume_transit : ℕ → ℕ → FlowController → Bool × FlowController
unfolding replenish
try_consume_transit bytes now f =
    let g = replenish now f in
    if leb bytes g.transit_bucket
    then (true, record g { transit_bucket = g.transit_bucket - bytes })
    else (false, g)

-- `set_transit_rate_bps`
unfoldable pub set_transit_rate_bps : ℕ → ℕ → FlowController → FlowController
set_transit_rate_bps bytes_per_sec now f = record {
  transit_bucket = bytes_per_sec;
  transit_rate = bytes_per_sec;
  transit_burst = max (bytes_per_sec / 10) min_transit_burst;
  last_replenish = now;
}

-- `set_transit_rate_mbps`
unfoldable pub set_transit_rate_mbps : ℕ → ℕ → FlowController → FlowController
unfolding set_transit_rate_bps
set_transit_rate_mbps mbps = set_transit_rate_bps (mbps * 125000 % 2 ^ 64)
