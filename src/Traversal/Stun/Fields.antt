-- ===== src/Traversal/Stun/Fields.antt =====
-- What a STUN message says: the accessors of `Message`.
use vantablack.Prelude.{ℕ, Option, none, some, List, []}
use vantablack.Prelude.Bytes.{Bytes}
use vantablack.Traversal.Address.{SocketAddr}
use vantablack.Traversal.Stun.{Attribute, Message, get}
use vantablack.Traversal.Stun.Kinds

abbrev pub realm_of : Option Attribute → Option Bytes
realm_of (some (Attribute.realm s)) = some s
realm_of _ = none

abbrev pub realm : Message → Option Bytes
realm m = realm_of (get Kinds.realm m)

abbrev pub nonce_of : Option Attribute → Option Bytes
nonce_of (some (Attribute.nonce s)) = some s
nonce_of _ = none

abbrev pub nonce : Message → Option Bytes
nonce m = nonce_of (get Kinds.nonce m)

abbrev pub lifetime_of : Option Attribute → Option ℕ
lifetime_of (some (Attribute.lifetime s)) = some s
lifetime_of _ = none

abbrev pub lifetime : Message → Option ℕ
lifetime m = lifetime_of (get Kinds.lifetime m)

abbrev pub channel_number_of : Option Attribute → Option ℕ
channel_number_of (some (Attribute.channel_number n)) = some n
channel_number_of _ = none

abbrev pub channel_number : Message → Option ℕ
channel_number m = channel_number_of (get Kinds.channel_number m)

abbrev pub requested_transport_of : Option Attribute → Option ℕ
requested_transport_of (some (Attribute.requested_transport p)) = some p
requested_transport_of _ = none

abbrev pub requested_transport : Message → Option ℕ
requested_transport m = requested_transport_of (get Kinds.requested_transport m)

abbrev pub payload_of : Option Attribute → Option Bytes
payload_of (some (Attribute.payload d)) = some d
payload_of _ = none

abbrev pub payload : Message → Option Bytes
payload m = payload_of (get Kinds.payload m)

abbrev pub xor_relayed_address_of : Option Attribute → Option SocketAddr
xor_relayed_address_of (some (Attribute.xor_relayed_address a)) = some a
xor_relayed_address_of _ = none

abbrev pub xor_relayed_address : Message → Option SocketAddr
xor_relayed_address m = xor_relayed_address_of (get Kinds.xor_relayed_address m)

abbrev pub xor_peer_address_of : Option Attribute → Option SocketAddr
xor_peer_address_of (some (Attribute.xor_peer_address a)) = some a
xor_peer_address_of _ = none

abbrev pub xor_peer_address : Message → Option SocketAddr
xor_peer_address m = xor_peer_address_of (get Kinds.xor_peer_address m)

abbrev pub unknown_attributes_of : Option Attribute → List ℕ
unknown_attributes_of (some (Attribute.unknown_attributes l)) = l
unknown_attributes_of _ = []

abbrev pub unknown_attributes : Message → List ℕ
unknown_attributes m = unknown_attributes_of (get Kinds.unknown_attributes m)

abbrev pub error_code_of : Option Attribute → Option (ℕ × Bytes)
error_code_of (some (Attribute.error_code c r)) = some (c, r)
error_code_of _ = none

abbrev pub error_code : Message → Option (ℕ × Bytes)
error_code m = error_code_of (get Kinds.error_code m)

-- `xor_mapped_address` falls back on the address that is not obfuscated.
abbrev pub mapped_address_of : Option Attribute → Option SocketAddr
mapped_address_of (some (Attribute.mapped_address a)) = some a
mapped_address_of _ = none

abbrev pub xor_mapped_address_of : Option Attribute → Option Attribute → Option SocketAddr
xor_mapped_address_of (some (Attribute.xor_mapped_address a)) plain = some a
xor_mapped_address_of _ plain = mapped_address_of plain

abbrev pub xor_mapped_address : Message → Option SocketAddr
xor_mapped_address m =
    xor_mapped_address_of (get Kinds.xor_mapped_address m) (get Kinds.mapped_address m)
