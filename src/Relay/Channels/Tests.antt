-- ===== src/Relay/Channels/Tests.antt =====
-- Runs of a channel.
use vantablack.Prelude.{ℕ, ◌%◌, List, [], ◌∷◌}
use vantablack.Prelude.Bytes.{Bytes, from_be_bytes}
use vantablack.Relay.Channels.Quota.{Packet}

abbrev hash : Bytes → ℕ
hash b = from_be_bytes b % 1009

abbrev packet : ℕ → ℕ → Packet
packet id len = record { token_id = id; packet_len = len; now = 5 }

abbrev packets : List Packet
packets = packet 1 700 ∷ packet 2 800 ∷ packet 1 900 ∷ []
