-- ===== src/Relay/Tor/Tests.antt =====
-- A concrete encapsulation.
use vantablack.Prelude.{◌≡◌, refl, [], ◌∷◌}
use vantablack.Relay.Tor.{circuit_for_shard}

third : circuit_for_shard 5 (record { circuit_endpoints = 9050 ∷ 9052 ∷ 9054 ∷ [] }) ≡ 9054
unfolding circuit_for_shard
third = refl
