-- ===== src/Relay/Flow/Rate.antt =====
-- What the token bucket of src/ghost/net/mod.rs lets through, over a history of packets.
use vantablack.Prelude.{
  ℕ, ◌+◌, ◌-◌, ◌*◌, ◌/◌, ◌^◌, ◌≤◌, ◌<◌, ◌≡◌, min, true, List, [], ◌∷◌, arith, if◌then◌else◌,
}
use vantablack.Relay.Flow.{
  FlowController, min_transit_burst, new, replenish, try_consume_transit, set_transit_rate_bps,
}

-- A packet to forward: its length, and what the clock reads.
pub record Transit : Type 0 where
  pub bytes : ℕ
  pub now : ℕ

-- The bytes let through, and the controller after a list of packets.
unfoldable pub let_through : List Transit → FlowController → ℕ
unfolding try_consume_transit
let_through [] f = 0
let_through (p ∷ ps) f =
    let (ok, f') = try_consume_transit p.bytes p.now f in
    (if ok then p.bytes else 0) + let_through ps f'

unfoldable pub after : List Transit → FlowController → FlowController
unfolding try_consume_transit
after [] f = f
after (p ∷ ps) f = let (ok, f') = try_consume_transit p.bytes p.now f in after ps f'

-- The clock never reads more than `t`.
abbrev pub Until : ℕ → List Transit → Type 0
Until t [] = Unit {0}
Until t (p ∷ ps) = (p.now ≤ t) × Until t ps

-- The tokens in the bucket and those that time has yet to bring, in billionths.
unfoldable pub credit : ℕ → FlowController → ℕ
credit t f = f.transit_bucket * 1000000000 + f.transit_rate * (t - f.last_replenish)

floor_le : (a b : ℕ) → a / 1000000000 * 1000000000 ≤ a
floor_le a b = omega arith

min_floor : (a m : ℕ) → min a m / 1000000000 * 1000000000 ≤ a
min_floor a m = omega arith

-- Time is split at a call.
split_time :
    (r now last t : ℕ) → last ≤ now → now ≤ t → r * (now - last) + r * (t - now) ≡ r * (t - last)
split_time r now last t h k =
    let e : t - last ≡ now - last + (t - now) = omega arith in rw e (grind arith)

replenish-credit :
    (t now : ℕ) (f : FlowController) → now ≤ t → credit t (replenish now f) ≤ credit t f
unfolding replenish credit
replenish-credit t now f h = ground (
  arith,
  min_floor (f.transit_rate * (now - f.last_replenish)) (2 ^ 128 - 1),
  split_time f.transit_rate now f.last_replenish t,
)

pub try_consume_transit-credit :
    (bytes t now : ℕ) (f : FlowController)
    → now ≤ t
    → let (ok, f') = try_consume_transit bytes now f in
      (if ok then bytes else 0) * 1000000000 + credit t f' ≤ credit t f
unfolding try_consume_transit credit
try_consume_transit-credit bytes t now f h = ground (arith, replenish-credit t now f h)

let_through-credit :
    (ps : List Transit) (t : ℕ) (f : FlowController)
    → Until t ps
    → let_through ps f * 1000000000 ≤ credit t f
unfolding let_through
let_through-credit [] t f u = omega arith
let_through-credit (p ∷ ps) t f u = omega (
  arith,
  try_consume_transit-credit p.bytes t p.now f u.0,
  let_through-credit ps t (try_consume_transit p.bytes p.now f).1 u.1,
)

-- Whatever packets arrive and whatever the clock reads, as long as it never reads more than `t`, the bytes let through are at most the tokens that were in the bucket and those that the rate brings from the last replenishment to `t`.
pub let_through_bound :
    (ps : List Transit) (t : ℕ) (f : FlowController)
    → Until t ps
    → let_through ps f ≤ f.transit_bucket + f.transit_rate * (t - f.last_replenish) / 1000000000
unfolding credit
let_through_bound ps t f u = omega (arith, let_through-credit ps t f u)

-- The ranges of the fields' types, and a burst that fits a whole packet.
pub record IsFlow (f : FlowController) : Type 0 where
  pub rate_fits : f.transit_rate < 2 ^ 64
  pub burst_fits : f.transit_burst < 2 ^ 64
  pub burst_whole : min_transit_burst ≤ f.transit_burst

pub new-IsFlow : (mbps now : ℕ) → IsFlow (new mbps now)
unfolding new
new-IsFlow mbps now = record {
  rate_fits = omega arith;
  burst_fits = omega arith;
  burst_whole = omega arith;
}

set_transit_rate_bps-IsFlow :
    (rate now : ℕ) (f : FlowController) → rate < 2 ^ 64 → IsFlow (set_transit_rate_bps rate now f)
unfolding set_transit_rate_bps
set_transit_rate_bps-IsFlow rate now f h = record {
  rate_fits = h;
  burst_fits = omega arith;
  burst_whole = omega arith;
}

try_consume_transit-IsFlow :
    (bytes now : ℕ) (f : FlowController) → IsFlow f → IsFlow (try_consume_transit bytes now f).1
unfolding try_consume_transit
try_consume_transit-IsFlow bytes now f v = record {
  rate_fits = ground (arith, v.rate_fits);
  burst_fits = ground (arith, v.burst_fits);
  burst_whole = ground (arith, v.burst_whole);
}

-- The product fits 128 bits, so `saturating_mul` is exact.
product_fits : (r e : ℕ) → r < 2 ^ 64 → e < 2 ^ 64 → r * e ≤ 2 ^ 128 - 1
product_fits r e h k = grind arith

-- A packet of at most 1,500 bytes waits only so long: on a well-formed controller, whatever was
-- let through before, once the clock, of 64 bits, reads more than a millisecond past the last
-- replenishment and late enough for the rate to have brought the packet's bytes, it is let
-- through.
pub try_consume_transit_late :
    (ps : List Transit) (bytes now : ℕ) (f : FlowController)
    → IsFlow f
    → bytes ≤ min_transit_burst
    → now < 2 ^ 64
    → (after ps f).last_replenish + 1000000 < now
    → bytes * 1000000000 ≤ (after ps f).transit_rate * (now - (after ps f).last_replenish)
    → (try_consume_transit bytes now (after ps f)).0 ≡ true
unfolding after
try_consume_transit_late [] bytes now f v h k late enough =
    unfold try_consume_transit in
    let fits : f.transit_rate * (now - f.last_replenish) ≤ 2 ^ 128 - 1 =
      product_fits f.transit_rate (now - f.last_replenish) v.rate_fits (omega arith) in
    ground (arith, v.burst_whole, v.burst_fits)
try_consume_transit_late (p ∷ ps) bytes now f v h k late enough =
    try_consume_transit_late ps bytes now (try_consume_transit p.bytes p.now f).1
      (try_consume_transit-IsFlow p.bytes p.now f v) h k late enough
