-- ===== src/Traversal/Turn/Client.antt =====
-- `TurnClient` of src/ghost/net/turn.rs: sealing a request, the choice of a channel, and what is
-- sent and received over the allocation. A socket's reads and writes are not modelled.
use vantablack.Prelude.{
  ◌%◌, ◌/◌, ◌^◌, max, ℕ, zero, suc, ◌+◌, ◌-◌, Bool, false, not, ◌||◌, Option, none, some, List, [],
  ◌∷◌, leb, ltb, ◌==◌, if◌then◌else◌, is_some,
}
use vantablack.Prelude.Bytes.{Bytes, codes}
use vantablack.Prelude.Keyed
use vantablack.Prelude.Keyed.{num_keys}
use vantablack.Traversal.Address.{SocketAddr, IpAddr, addr_keys, ip_keys}
use vantablack.Traversal.Stun.{
  Class, allocate, request, success_response, error_response, transport_udp, Attribute, Message,
  Result, ok, err, indication, message, method, class, push, send, data_method, bits,
  channel_number_min, channel_number_max,
}
use vantablack.Traversal.Stun.Encode.{Crypto, encode, encode_with_integrity, long_term_key}
use vantablack.Traversal.Stun.Decode.{parse}
use vantablack.Traversal.Stun.Fields
use vantablack.Traversal.Turn.{
  seconds, min_lifetime_secs, channel_data, parse_channel_data, default_permission_lifetime,
}

-- `Allocation`
pub record Allocation : Type 0 where
  pub relayed_addr : SocketAddr
  pub mapped_addr : Option SocketAddr
  pub lifetime : ℕ
  pub expires_at : ℕ

pub record TurnClient : Type 0 where
  pub server : SocketAddr
  pub username : Bytes
  pub password : Bytes
  pub realm : Option Bytes
  pub nonce : Option Bytes
  pub allocation : Option Allocation
  pub permissions : List (IpAddr × ℕ)
  pub channels : List (ℕ × SocketAddr)
  pub channel_peers : List (SocketAddr × ℕ)
  pub next_channel : ℕ
  pub timeout : ℕ

-- `is_live`
abbrev pub live_until : Option Allocation → ℕ → Bool
live_until none now = false
live_until (some a) now = ltb now a.expires_at

abbrev pub is_live : ℕ → TurnClient → Bool
is_live now t = live_until t.allocation now

-- `TurnInbound`
pub data TurnInbound : Type 0 where
  from_peer : (peer : SocketAddr) (payload : Bytes) → TurnInbound
  on_channel : (channel : ℕ) (payload : Bytes) → TurnInbound

-- `allocate_channel`, with the number of rounds left.
unfoldable pub channel_loop : ℕ → ℕ → List (ℕ × SocketAddr) → Option ℕ × ℕ
channel_loop zero next channels = (none, next)
channel_loop (suc n) next channels =
    let following = if leb channel_number_max next then channel_number_min else next + 1 in
    let more = channel_loop n following channels in
    if is_some (Keyed.lookup num_keys next channels) then more else (some next, following)

unfoldable pub allocate_channel : TurnClient → Option ℕ × TurnClient
unfolding channel_loop Keyed.lookup
allocate_channel t =
    let (channel, next) =
      channel_loop (channel_number_max - channel_number_min + 1) t.next_channel t.channels in
    (channel, record t { next_channel = next })

-- `channel_bind`, once the server has agreed.
abbrev pub bound : ℕ → SocketAddr → ℕ → TurnClient → TurnClient
bound channel peer now t = record t {
  channels = Keyed.insert num_keys channel peer t.channels;
  channel_peers = Keyed.insert addr_keys peer channel t.channel_peers;
  permissions = Keyed.insert ip_keys peer.ip (now + default_permission_lifetime) t.permissions;
}

-- `allocate`: the request, for a lifetime in nanoseconds.
abbrev pub allocate_request : ℕ → Bytes → Message
allocate_request lifetime txid = message allocate request txid (
    Attribute.requested_transport transport_udp
    ∷ Attribute.lifetime (max (lifetime / seconds 1 % 2 ^ 32) min_lifetime_secs)
    ∷ Attribute.dont_fragment
    ∷ [])

-- `allocate`: what is made of the response.
pub data Allocating : Type 0 where
  allocated : SocketAddr → TurnClient → Allocating
  retry : TurnClient → Allocating
  rejected : ℕ → Bytes → Allocating
  missing_credentials : Allocating
  unexpected : Bytes → Allocating

abbrev pub or_else {ℓ} : {A : Type ℓ} → Option A → Option A → Option A
or_else (some a) o = some a
or_else none o = o

abbrev pub granted_lifetime : Option ℕ → ℕ → ℕ
granted_lifetime (some n) lifetime = seconds n
granted_lifetime none lifetime = lifetime

abbrev pub allocate_relayed : Option SocketAddr → Message → ℕ → ℕ → TurnClient → Allocating
allocate_relayed none response now lifetime t =
    unexpected (codes "allocation without XOR-RELAYED-ADDRESS")
allocate_relayed (some relayed) response now lifetime t =
    let granted = granted_lifetime (Fields.lifetime response) lifetime in
    allocated relayed (record t {
      allocation = some (record {
        relayed_addr = relayed;
        mapped_addr = Fields.xor_mapped_address response;
        lifetime = granted;
        expires_at = now + granted;
      });
    })

abbrev pub adopt : Option Bytes → Option Bytes → TurnClient → Allocating
adopt (some realm) (some nonce) t = retry (record t { realm = some realm; nonce = some nonce })
adopt _ _ t = missing_credentials

abbrev pub allocate_refused : Option (ℕ × Bytes) → Message → TurnClient → Allocating
allocate_refused none response t = rejected 0 []
allocate_refused (some (code, reason)) response t =
    if code == 401 || code == 438
    then adopt (or_else (Fields.realm response) t.realm) (or_else (Fields.nonce response) t.nonce) t
    else rejected code reason

abbrev pub allocate_class : Class → Message → ℕ → ℕ → TurnClient → Allocating
allocate_class success_response response now lifetime t =
    allocate_relayed (Fields.xor_relayed_address response) response now lifetime t
allocate_class error_response response now lifetime t =
    allocate_refused (Fields.error_code response) response t
allocate_class request response now lifetime t = unexpected (codes "server sent a request")
allocate_class indication response now lifetime t = unexpected (codes "server sent an indication")

unfoldable pub allocate_response : Message → ℕ → ℕ → TurnClient → Allocating
unfolding class
allocate_response response now lifetime t =
    allocate_class (class response.typ) response now lifetime t

-- The attributes that `seal` adds.
abbrev pub with_credentials : TurnClient → Bytes → Bytes → Message → Message
with_credentials t realm nonce msg =
    push (Attribute.nonce nonce)
      (push (Attribute.realm realm) (push (Attribute.username t.username) msg))

module _ (c : Crypto) where
  -- `key`, on the realm
  abbrev pub key_for : Option Bytes → TurnClient → Option Bytes
  key_for none t = none
  key_for (some realm) t = some (long_term_key c t.username realm t.password)

  -- `seal`: nothing without a realm and a nonce (`MissingCredentials`).
  abbrev pub seal_with : Option Bytes → Option Bytes → TurnClient → Message → Option (Result Bytes)
  seal_with (some realm) (some nonce) t msg = some (
      encode_with_integrity c (long_term_key c t.username realm t.password)
        (with_credentials t realm nonce msg))
  seal_with _ _ t msg = none

  unfoldable pub seal : TurnClient → Message → Option (Result Bytes)
  unfolding encode_with_integrity long_term_key
  seal t msg = seal_with t.realm t.nonce t msg

  abbrev pub sealed_or_plain : Option Bytes → Message → Result Bytes
  sealed_or_plain (some key) msg = encode_with_integrity c key msg
  sealed_or_plain none msg = ok (encode msg)

  -- The bytes of `send`: over the peer's channel, or as an indication.
  abbrev pub datagram_on : Option ℕ → SocketAddr → Bytes → Bytes → TurnClient → Result Bytes
  datagram_on (some channel) peer txid payload t = ok (channel_data channel payload)
  datagram_on none peer txid payload t = sealed_or_plain (key_for t.realm t) (
      message send indication txid
        (Attribute.xor_peer_address peer ∷ Attribute.payload payload ∷ []))

  unfoldable pub datagram : SocketAddr → Bytes → Bytes → TurnClient → Option (Result Bytes)
  unfolding channel_data encode encode_with_integrity long_term_key Keyed.lookup
  datagram peer txid payload t =
      if is_some t.allocation
      then some (datagram_on (Keyed.lookup addr_keys peer t.channel_peers) peer txid payload t)
      else none

-- `decode_inbound`
abbrev pub inbound_data : Option SocketAddr → Option Bytes → Option TurnInbound
inbound_data (some peer) (some payload) = some (from_peer peer payload)
inbound_data _ _ = none

abbrev pub inbound_message : Result Message → Option TurnInbound
inbound_message (err e) = none
inbound_message (ok msg) =
    if not (method msg.typ == data_method) || not (bits (class msg.typ) == bits indication)
    then none
    else inbound_data (Fields.xor_peer_address msg) (Fields.payload msg)

abbrev pub inbound_on : Option (ℕ × Bytes) → Bytes → Option TurnInbound
inbound_on (some (channel, payload)) raw = some (on_channel channel payload)
inbound_on none raw = inbound_message (parse raw)

unfoldable pub decode_inbound : Bytes → Option TurnInbound
unfolding parse_channel_data parse method class
decode_inbound raw = inbound_on (parse_channel_data raw) raw

-- `peer_for_channel`
abbrev pub peer_for_channel : ℕ → TurnClient → Option SocketAddr
peer_for_channel channel t = Keyed.lookup num_keys channel t.channels
