-- ===== src/Traversal/Address.antt =====
-- `IpAddr` and `SocketAddr` of the standard library, an address by its octets.
use vantablack.Prelude.{
  ℕ, ◌^◌, ◌<◌, ◌≡◌, ◌↔◌, Bool, true, false, ◌&&◌, List, ◌==◌, length, All, arith,
}
use vantablack.Prelude.Bytes.{Bytes, equal, equal_iff}
use vantablack.Prelude.Keyed.{Keys}
use vantablack.Prelude.Xor.{IsByte}

pub data IpAddr : Type 0 where
  v4 : Bytes → IpAddr
  v6 : Bytes → IpAddr

pub record SocketAddr : Type 0 where
  pub ip : IpAddr
  pub port : ℕ

abbrev pub ip_equal : IpAddr → IpAddr → Bool
ip_equal (v4 a) (v4 b) = equal a b
ip_equal (v6 a) (v6 b) = equal a b
ip_equal (v4 a) (v6 b) = false
ip_equal (v6 a) (v4 b) = false

pub ip_equal_iff : (a b : IpAddr) → (ip_equal a b ≡ true) ↔ (a ≡ b)
ip_equal_iff (v4 a) (v4 b) = ground (arith, equal_iff a b)
ip_equal_iff (v6 a) (v6 b) = ground (arith, equal_iff a b)
ip_equal_iff (v4 a) (v6 b) = ground arith
ip_equal_iff (v6 a) (v4 b) = ground arith

abbrev pub addr_equal : SocketAddr → SocketAddr → Bool
addr_equal a b = ip_equal a.ip b.ip && a.port == b.port

pub addr_equal_iff : (a b : SocketAddr) → (addr_equal a b ≡ true) ↔ (a ≡ b)
addr_equal_iff a b = ground (arith, ip_equal_iff a.ip b.ip)

abbrev pub ip_keys : Keys IpAddr
ip_keys = record { same = ip_equal; same_iff = ip_equal_iff }

abbrev pub addr_keys : Keys SocketAddr
addr_keys = record { same = addr_equal; same_iff = addr_equal_iff }

-- The octets are bytes, as many as the family has, and the port is a 16-bit word.
abbrev pub IsIpAddr : IpAddr → Type 0
IsIpAddr (v4 a) = (length a ≡ 4) × All IsByte a
IsIpAddr (v6 a) = (length a ≡ 16) × All IsByte a

abbrev pub IsAddr : SocketAddr → Type 0
IsAddr a = IsIpAddr a.ip × (a.port < 2 ^ 16)

abbrev zeros : Bytes → Bool
zeros List.[] = true
zeros (List.◌∷◌ b bs) = b == 0 && zeros bs

-- `is_unspecified`
unfoldable pub is_unspecified : IpAddr → Bool
is_unspecified (v4 a) = zeros a
is_unspecified (v6 a) = zeros a
