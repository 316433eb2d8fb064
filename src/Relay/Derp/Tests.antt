-- ===== src/Relay/Derp/Tests.antt =====
-- Runs of the blind relay.
use vantablack.Prelude.{◌+◌, ◌*◌, ◌-◌, ◌/◌, ◌%◌, ◌^◌, ◌≤◌, ◌≡◌, refl, List, [], ◌∷◌, arith}
use vantablack.Prelude.Bytes.{Bytes, codes}
use vantablack.Prelude.Dict.{lookup}
use vantablack.Prelude.Utf8.{from_utf8}
use vantablack.Relay.Flow.{FlowController, try_consume_transit}
use vantablack.Relay.Envelope.{wrap_blind_frame, parse_blind_frame}
use vantablack.Relay.Derp.{DerpRelay, new, forward}
use vantablack.Relay.Derp.Forward.{Allowed, forward-Allowed}
use vantablack.Relay.Derp.Runs.{
  Call, authorizes, frame_from, run, outcomes, total, frames_of, bytes_of, refusals_of, run-new,
}

abbrev alice : Bytes
alice = codes "aaaa"

abbrev bob : Bytes
bob = codes "bbbb"

abbrev flow : FlowController
flow = record {
  transit_bucket = 100;
  transit_rate = 1000;
  transit_burst = 1500;
  last_replenish = 0;
}

abbrev relay : DerpRelay
relay = record (new flow) {
  authorized = (alice, 11) ∷ (bob, 22) ∷ [];
  candidates = (codes "c", 33) ∷ (bob, 22) ∷ [];
}

abbrev frame : Bytes
frame = wrap_blind_frame bob (1 ∷ 2 ∷ 3 ∷ [])

forward-Allowed_example : Allowed alice frame relay 22 (1 ∷ 2 ∷ 3 ∷ [])
forward-Allowed_example = forward-Allowed alice frame 5 22 relay (1 ∷ 2 ∷ 3 ∷ []) (
    unfold new forward lookup wrap_blind_frame try_consume_transit parse_blind_frame from_utf8 in
    refl)

abbrev calls : List Call
calls =
    authorizes alice 11
    ∷ authorizes bob 22
    ∷ frame_from alice frame 5
    ∷ frame_from alice frame 6
    ∷ frame_from bob frame 7
    ∷ frame_from bob (1 ∷ []) 7
    ∷ []

run-new_example :
    ((run calls (new flow)).forwarded_frames ≡ total frames_of (outcomes calls (new flow)) % 2 ^ 64)
    × ((run calls (new flow)).forwarded_bytes ≡ total bytes_of (outcomes calls (new flow)) % 2 ^ 64)
    × ((run calls (new flow)).dropped_frames
        ≡ total refusals_of (outcomes calls (new flow)) % 2 ^ 64)
    × (total bytes_of (outcomes calls (new flow)) ≤ 100 + 1000 * (9 - 0) / 1000000000)
run-new_example =
    run-new calls 9 flow (omega arith, (omega arith, (omega arith, (omega arith, tt))))
