-- ===== src/Relay/Tor.antt =====
-- `TorMultiCircuitDispatcher` of src/ghost/net/relay.rs: the circuit of a shard, and the SOCKS5
-- encapsulation of its bytes. An endpoint is a number.
mod Tests
use vantablack.Prelude.{
  ℕ, ◌+◌, ◌%◌, ◌^◌, ◌≤◌, ◌<◌, ◌≡◌, refl, sym, ◌∙◌, Option, none, some, List, [], ◌∷◌, ◌++◌, arith,
  ltb, ◌==◌, if◌then◌else◌, length, length-append, get_or, drop, drop_prefix, Bool, true, false,
}
use vantablack.Prelude.Bytes.{Bytes, to_be_bytes, length-to_be_bytes}

pub data SocketAddr : Type 0 where
  v4 v6 : (octets : Bytes) (port : ℕ) → SocketAddr

pub record TorMultiCircuitDispatcher : Type 0 where
  pub circuit_endpoints : List ℕ

-- `circuit_for_shard`
unfoldable pub circuit_for_shard : ℕ → TorMultiCircuitDispatcher → ℕ
circuit_for_shard shard_index d = get_or d.circuit_endpoints (shard_index % 3) 0

abbrev address_bytes : SocketAddr → Bytes
address_bytes (v4 octets port) = (1 ∷ []) ++ (octets ++ to_be_bytes 2 port)
address_bytes (v6 octets port) = (4 ∷ []) ++ (octets ++ to_be_bytes 2 port)

-- `encapsulate_shard_udp`
unfoldable pub encapsulate_shard_udp : Bytes → SocketAddr → Bytes
encapsulate_shard_udp shard_data target_addr =
    (0 ∷ 0 ∷ []) ++ ((0 ∷ []) ++ (address_bytes target_addr ++ shard_data))

abbrev udp_header_len : ℕ → Option ℕ
udp_header_len atyp = if atyp == 1 then some 10 else if atyp == 4 then some 22 else none

abbrev strip : Option ℕ → Bytes → Option Bytes
strip none encapsulated = none
strip (some n) encapsulated =
    if ltb (length encapsulated) n then none else some (drop n encapsulated)

-- `decapsulate_shard_udp`
unfoldable pub decapsulate_shard_udp : Bytes → Option Bytes
decapsulate_shard_udp encapsulated =
    if ltb (length encapsulated) 10
    then none
    else strip (udp_header_len (get_or encapsulated 3 0)) encapsulated

-- The number of an address' octets.
abbrev pub IsAddr : SocketAddr → Type 0
IsAddr (v4 octets port) = length octets ≡ 4
IsAddr (v6 octets port) = length octets ≡ 16

stripped :
    (raw shard : Bytes) (n : ℕ)
    → udp_header_len (get_or raw 3 0) ≡ some n
    → 10 ≤ n
    → n ≤ length raw
    → drop n raw ≡ shard
    → decapsulate_shard_udp raw ≡ some shard
unfolding decapsulate_shard_udp
stripped raw shard n k ten fits d =
    let long : ltb (length raw) 10 ≡ false = ground arith in
    let all : ltb (length raw) n ≡ false = ground arith in rw (long, k, all, d) refl

-- A shard that was encapsulated for an address, of four or of sixteen octets, is recovered as it
-- was.
pub decapsulate_shard_udp-encapsulate_shard_udp :
    (shard : Bytes) (addr : SocketAddr)
    → IsAddr addr
    → decapsulate_shard_udp (encapsulate_shard_udp shard addr) ≡ some shard
unfolding encapsulate_shard_udp
decapsulate_shard_udp-encapsulate_shard_udp shard (v4 octets port) h =
    let p = length-to_be_bytes 2 port in
    let w = length-append octets (to_be_bytes 2 port) in
    stripped (encapsulate_shard_udp shard (v4 octets port)) shard 10 refl (omega arith)
      (omega (arith, length-append (octets ++ to_be_bytes 2 port) shard))
      (drop_prefix 6 (octets ++ to_be_bytes 2 port) shard (omega arith))
decapsulate_shard_udp-encapsulate_shard_udp shard (v6 octets port) h =
    let p = length-to_be_bytes 2 port in
    let w = length-append octets (to_be_bytes 2 port) in
    stripped (encapsulate_shard_udp shard (v6 octets port)) shard 22 refl (omega arith)
      (omega (arith, length-append (octets ++ to_be_bytes 2 port) shard))
      (drop_prefix 18 (octets ++ to_be_bytes 2 port) shard (omega arith))
