-- ===== src/Relay/Envelope/Tests.antt =====
-- Envelopes of concrete names.
use vantablack.Prelude.{◌≡◌, refl, none, [], ◌∷◌, arith}
use vantablack.Prelude.Bytes.{codes}
use vantablack.Prelude.Utf8.{is_utf8}
use vantablack.Relay.Envelope.{build_relay_packet, build_onion_route, parse_relay_header}
use vantablack.Relay.Envelope.Layout.{IsName}

pub target-IsName : IsName (codes "bbbb")
target-IsName = record { no_null = refl; fits = omega arith; text = unfold is_utf8 in refl }

-- A packet with a payload of three bytes is built and not parsed.
short_payload : parse_relay_header (build_relay_packet (codes "bbbb") 1 (1 ∷ 2 ∷ 3 ∷ [])) ≡ none
unfolding parse_relay_header build_relay_packet
short_payload = refl

-- A route that comes back to its start is refused.
no_circle : build_onion_route (codes "a" ∷ codes "b" ∷ codes "a" ∷ []) (1 ∷ 2 ∷ 3 ∷ 4 ∷ []) ≡ none
unfolding build_onion_route
no_circle = refl
