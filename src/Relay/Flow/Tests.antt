-- ===== src/Relay/Flow/Tests.antt =====
-- Runs of the token bucket.
use vantablack.Prelude.{◌≡◌, true, List, [], ◌∷◌, arith}
use vantablack.Relay.Flow.{new, try_consume_transit}
use vantablack.Relay.Flow.Rate.{Transit, after, try_consume_transit_late, new-IsFlow}

abbrev packets : List Transit
packets = record { bytes = 1200; now = 2000000 } ∷ record { bytes = 90000; now = 4000000 } ∷ []

try_consume_transit_late_example :
    (try_consume_transit 1400 90000000 (after packets (new 1 0))).0 ≡ true
try_consume_transit_late_example =
    try_consume_transit_late packets 1400 90000000 (new 1 0) (new-IsFlow 1 0) (omega arith)
      (omega arith) (unfold new after try_consume_transit in omega arith)
      (unfold new after try_consume_transit in omega arith)
