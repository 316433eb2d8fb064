-- ===== src/Traversal/Turn.antt =====
-- The TURN relay of src/ghost/net/turn.rs: the framing of channel data, and the state of a server.
-- An `Instant` is a number of nanoseconds.
pub mod Server
pub mod Client
pub mod Permission
pub mod Ports
pub mod Bindings
pub mod Invariant
pub mod Peer
pub mod Sealed
pub mod Exchange
pub mod Channels
mod Tests
use vantablack.Prelude.{
  ℕ, zero, suc, ◌+◌, ◌-◌, ◌*◌, ◌/◌, ◌%◌, ◌^◌, Bool, true, false, not, ◌||◌, ◌&&◌, Option, none,
  some, List, [], ◌∷◌, ◌++◌, length, take, drop, ltb, leb, ◌==◌, if◌then◌else◌,
}
use vantablack.Prelude.Bytes.{Bytes, codes, to_be_bytes, from_be_bytes, slice}
use vantablack.Prelude.Tables.{pad}
use vantablack.Traversal.Address.{SocketAddr, IpAddr}
use vantablack.Traversal.Stun.{channel_number_min, channel_number_max}

abbrev pub seconds : ℕ → ℕ
seconds n = n * 1000000000

-- `MIN_LIFETIME_SECS`, `DEFAULT_PERMISSION_LIFETIME`, `CHANNEL_LIFETIME_SECS` and
-- `MAX_OUTSTANDING_NONCES`
abbrev pub min_lifetime_secs : ℕ
min_lifetime_secs = 600

abbrev pub default_permission_lifetime : ℕ
default_permission_lifetime = seconds 300

abbrev pub channel_lifetime_secs : ℕ
channel_lifetime_secs = 600

abbrev pub max_outstanding_nonces : ℕ
max_outstanding_nonces = 4096

-- `channel_data`
unfoldable pub channel_data : ℕ → Bytes → Bytes
unfolding pad
channel_data channel payload =
    pad ((to_be_bytes 2 channel ++ to_be_bytes 2 (length payload % 2 ^ 16)) ++ payload)

abbrev pub is_channel : ℕ → Bool
is_channel channel = leb channel_number_min channel && leb channel channel_number_max

-- `parse_channel_data`
unfoldable pub parse_channel_data : Bytes → Option (ℕ × Bytes)
parse_channel_data raw =
    let channel = from_be_bytes (take 2 raw) in
    let len = from_be_bytes (slice 2 2 raw) in
    if ltb (length raw) 4
    then none
    else if not (is_channel channel)
    then none
    else if ltb (length raw) (4 + len)
    then none
    else some (channel, slice 4 len raw)

-- `Outbound`
pub data Outbound : Type 0 where
  to_client : (dest : SocketAddr) (bytes : Bytes) → Outbound
  to_peer : (from_port : ℕ) (dest : SocketAddr) (bytes : Bytes) → Outbound

pub record ServerAllocation : Type 0 where
  pub relay_port : ℕ
  pub permissions : List (IpAddr × ℕ)
  pub channels : List (ℕ × SocketAddr)
  pub channel_peers : List (SocketAddr × ℕ)
  pub expires_at : ℕ

pub record TurnServer : Type 0 where
  pub server_realm : Bytes
  pub users : List (Bytes × Bytes)
  pub relay_ip : IpAddr
  pub port_min : ℕ
  pub port_max : ℕ
  pub allocations : List (SocketAddr × ServerAllocation)
  pub nonces : List (Bytes × ℕ)
  pub nonce_lifetime : ℕ

-- `TurnServer::new`
abbrev pub new_server : Bytes → List (Bytes × Bytes) → IpAddr → ℕ → ℕ → TurnServer
new_server realm users ip port_min port_max = record {
  server_realm = realm;
  users = users;
  relay_ip = ip;
  port_min = port_min;
  port_max = port_max;
  allocations = [];
  nonces = [];
  nonce_lifetime = seconds 600;
}

-- What a challenge reads besides: the clock, and sixteen random bytes.
pub record Drawn : Type 0 where
  pub clock : ℕ
  pub random : Bytes

abbrev hex_digit : ℕ → ℕ
hex_digit d = if ltb d 10 then 48 + d else 87 + d

-- `hex::encode`
abbrev pub hex_encode : Bytes → Bytes
hex_encode [] = []
hex_encode (b ∷ more) = hex_digit (b / 16) ∷ hex_digit (b % 16) ∷ hex_encode more

-- What lives at `now`: permissions, and allocations with their live permissions.
unfoldable pub live_permissions : ℕ → List (IpAddr × ℕ) → List (IpAddr × ℕ)
live_permissions now [] = []
live_permissions now ((ip, expiry) ∷ more) =
    let rest = live_permissions now more in if ltb now expiry then (ip, expiry) ∷ rest else rest

unfoldable pub live_allocations :
    ℕ → List (SocketAddr × ServerAllocation) → List (SocketAddr × ServerAllocation)
unfolding live_permissions
live_allocations now [] = []
live_allocations now ((client, a) ∷ more) =
    let rest = live_allocations now more in
    if ltb now a.expires_at
    then (client, record a { permissions = live_permissions now a.permissions }) ∷ rest
    else rest

-- `expire` and `sweep`
abbrev pub expire : ℕ → TurnServer → TurnServer
expire now s = record s { allocations = live_allocations now s.allocations }

abbrev pub sweep : ℕ → TurnServer → ℕ × TurnServer
sweep now s = (length s.allocations - length (live_allocations now s.allocations), expire now s)

-- The nonces issued less than the lifetime ago.
unfoldable pub fresh_nonces : ℕ → ℕ → List (Bytes × ℕ) → List (Bytes × ℕ)
fresh_nonces clock lifetime [] = []
fresh_nonces clock lifetime ((nonce, issued) ∷ more) =
    let rest = fresh_nonces clock lifetime more in
    if ltb (clock - issued) lifetime then (nonce, issued) ∷ rest else rest

abbrev pub has_port : ℕ → List (SocketAddr × ServerAllocation) → Bool
has_port p [] = false
has_port p ((client, a) ∷ more) = a.relay_port == p || has_port p more

-- `free_port`: the first port that no allocation has, of the `n` from `p` on.
unfoldable pub find_port : ℕ → ℕ → List (SocketAddr × ServerAllocation) → Option ℕ
find_port zero p allocations = none
find_port (suc n) p allocations =
    let more = find_port n (p + 1) allocations in if has_port p allocations then more else some p

abbrev pub free_port : TurnServer → Option ℕ
free_port s = find_port (s.port_max + 1 - s.port_min) s.port_min s.allocations

-- The allocation that has a relay port.
unfoldable pub by_port :
    ℕ → List (SocketAddr × ServerAllocation) → Option (SocketAddr × ServerAllocation)
by_port p [] = none
by_port p ((client, a) ∷ more) = if a.relay_port == p then some (client, a) else by_port p more

-- `allocation_count`
abbrev pub allocation_count : TurnServer → ℕ
allocation_count s = length s.allocations
