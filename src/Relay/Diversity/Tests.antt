-- ===== src/Relay/Diversity/Tests.antt =====
-- Runs of assignments.
use vantablack.Prelude.{ℕ, ◌≡◌, refl, List, [], ◌∷◌}
use vantablack.Relay.Diversity.{default, assign_shard_asn}
use vantablack.Relay.Diversity.Shards.{asns, assign_all}

-- Shard 1 asks for the system of shard 0, then for another.
abbrev requests : List (ℕ × ℕ)
requests = (0, 64500) ∷ (1, 64500) ∷ (1, 64501) ∷ (2, 64502) ∷ []

assigned-requests : asns (assign_all requests default).assigned_asns ≡ 64500 ∷ 64501 ∷ 64502 ∷ []
unfolding assign_all assign_shard_asn default
assigned-requests = refl
