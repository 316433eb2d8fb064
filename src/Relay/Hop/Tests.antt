-- ===== src/Relay/Hop/Tests.antt =====
-- An onion of three hops.
use vantablack.Prelude.{ℕ, [], ◌∷◌}
use vantablack.Prelude.Bytes.{Bytes}
use vantablack.Relay.Hop.Route.{Tables}

abbrev tables : Bytes → Tables ℕ
tables fp = record { sessions = (fp, 1) ∷ []; peer_addrs = (fp, 2) ∷ [] }

abbrev payload : Bytes
payload = 1 ∷ 2 ∷ 3 ∷ 4 ∷ 5 ∷ []
