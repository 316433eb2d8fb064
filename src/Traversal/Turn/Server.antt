-- ===== src/Traversal/Turn/Server.antt =====
-- `TurnServer` of src/ghost/net/turn.rs: the handling of a datagram.
use vantablack.Prelude.{
  ℕ, ◌+◌, max, Bool, false, not, ◌||◌, Option, none, some, List, [], ◌∷◌, length, leb, ◌==◌,
  if◌then◌else◌, is_some,
}
use vantablack.Prelude.Bytes.{Bytes, codes, equal}
use vantablack.Prelude.Dict
use vantablack.Prelude.Keyed
use vantablack.Prelude.Keyed.{num_keys}
use vantablack.Prelude.Utf8.{from_utf8_lossy}
use vantablack.Traversal.Address.{
  IpAddr, SocketAddr, ip_equal, addr_equal, ip_keys, addr_keys, is_unspecified,
}
use vantablack.Traversal.Stun.{
  Attribute, Class, Message, Result, ok, err, request, indication, success_response, error_response,
  message, method, class, get, allocate, refresh, create_permission, channel_bind, send,
  data_method, transport_udp, push,
}
use vantablack.Traversal.Stun.Encode.{Crypto, encode, encode_with_integrity, long_term_key}
use vantablack.Traversal.Stun.Decode.{parse}
use vantablack.Traversal.Stun.Verify.{verify_integrity}
use vantablack.Traversal.Stun.Fields
use vantablack.Traversal.Stun.Kinds
use vantablack.Traversal.Turn.{
  TurnServer, ServerAllocation, Outbound, to_client, to_peer, Drawn, hex_encode, fresh_nonces,
  max_outstanding_nonces, free_port, by_port, expire, live_allocations, find_port, seconds,
  min_lifetime_secs, default_permission_lifetime, channel_lifetime_secs, is_channel, channel_data,
  parse_channel_data,
}

-- What a handler gives: the datagrams to send, and the new state.
abbrev pub Handled : Type 0
Handled = List Outbound × TurnServer

-- `issue_nonce`
unfoldable pub issue_nonce : Drawn → TurnServer → Bytes × TurnServer
unfolding fresh_nonces Dict.insert
issue_nonce d s =
    let kept = fresh_nonces d.clock s.nonce_lifetime s.nonces in
    let room = if leb max_outstanding_nonces (length kept) then [] else kept in
    let nonce = hex_encode d.random in (nonce, record s { nonces = Dict.insert nonce d.clock room })

-- `error_response`
unfoldable pub error_response_to :
    SocketAddr → Message → ℕ → Bytes → Drawn → TurnServer → Outbound × TurnServer
unfolding issue_nonce encode
error_response_to dest msg code reason d s =
    let resp =
      message (method msg.typ) error_response msg.txid (Attribute.error_code code reason ∷ []) in
    let (nonce, s') = issue_nonce d s in
    if code == 401 || code == 438
    then (
      to_client dest
          (encode (push (Attribute.nonce nonce) (push (Attribute.realm s.server_realm) resp))),
      s',
    )
    else (to_client dest (encode resp), s)

abbrev pub refuse : SocketAddr → Message → ℕ → Bytes → Drawn → TurnServer → Handled
refuse from msg code reason d s =
    let (out, s') = error_response_to from msg code reason d s in (out ∷ [], s')

abbrev pub unauthorized : SocketAddr → Message → Drawn → TurnServer → Handled
unauthorized from msg d s = refuse from msg 401 (codes "Unauthorized") d s

abbrev pub bad_request : SocketAddr → Message → Drawn → TurnServer → Handled
bad_request from msg d s = refuse from msg 400 (codes "Bad Request") d s

abbrev pub mismatch : SocketAddr → Message → Drawn → TurnServer → Handled
mismatch from msg d s = refuse from msg 437 (codes "Allocation Mismatch") d s

abbrev pub forbidden : SocketAddr → Message → Drawn → TurnServer → Handled
forbidden from msg d s = refuse from msg 403 (codes "Forbidden") d s

abbrev pub or_encoded : Result Bytes → Message → Bytes
or_encoded (ok sealed) resp = sealed
or_encoded (err e) resp = encode resp

abbrev pub or_default : Option ℕ → ℕ → ℕ
or_default none n = n
or_default (some m) n = m

-- `outbound_to_peer`, on the client's allocation.
unfoldable pub outbound_to_peer : Option ServerAllocation → SocketAddr → Bytes → List Outbound
unfolding Keyed.lookup
outbound_to_peer none peer bytes = []
outbound_to_peer (some a) peer bytes =
    if is_some (Keyed.lookup ip_keys peer.ip a.permissions)
    then to_peer a.relay_port peer bytes ∷ []
    else []

abbrev pub relay_to : Option SocketAddr → ServerAllocation → Bytes → List Outbound
relay_to none a payload = []
relay_to (some peer) a payload = to_peer a.relay_port peer payload ∷ []

-- `relay_channel_data`, on the client's allocation.
unfoldable pub relay_channel_data : Option ServerAllocation → ℕ → Bytes → List Outbound
unfolding Keyed.lookup
relay_channel_data none channel payload = []
relay_channel_data (some a) channel payload =
    relay_to (Keyed.lookup num_keys channel a.channels) a payload

-- An allocation without permissions or channels.
abbrev pub new_allocation : ℕ → ℕ → ServerAllocation
new_allocation port expires_at = record {
  relay_port = port;
  permissions = [];
  channels = [];
  channel_peers = [];
  expires_at = expires_at;
}

-- `handle_allocate`: the port that the client has, or a free one.
abbrev pub allocation_port : Option ServerAllocation → TurnServer → Option ℕ
allocation_port (some existing) s = some existing.relay_port
allocation_port none s = free_port s

-- `handle_channel_bind`: whether a channel or a peer is bound otherwise.
abbrev pub bound_otherwise : Option SocketAddr → SocketAddr → Bool
bound_otherwise none peer = false
bound_otherwise (some existing) peer = not (addr_equal existing peer)

abbrev pub taken_otherwise : Option ℕ → ℕ → Bool
taken_otherwise none channel = false
taken_otherwise (some existing) channel = not (existing == channel)

abbrev pub bind : ℕ → SocketAddr → ℕ → ServerAllocation → ServerAllocation
bind channel peer now a = record a {
  channels = Keyed.insert num_keys channel peer a.channels;
  channel_peers = Keyed.insert addr_keys peer channel a.channel_peers;
  permissions = Keyed.insert ip_keys peer.ip (now + default_permission_lifetime) a.permissions;
}

-- `handle_send`
abbrev pub send_on : Option SocketAddr → Option Bytes → SocketAddr → TurnServer → List Outbound
send_on (some peer) (some bytes) from s =
    outbound_to_peer (Keyed.lookup addr_keys from s.allocations) peer bytes
send_on _ _ from s = []

unfoldable pub handle_send : Option Bytes → Message → SocketAddr → TurnServer → Handled
unfolding outbound_to_peer Keyed.lookup
handle_send none msg from s = ([], s)
handle_send (some key) msg from s =
    (send_on (Fields.xor_peer_address msg) (Fields.payload msg) from s, s)

module _ (c : Crypto) where
  abbrev pub answer : Bytes → SocketAddr → Message → TurnServer → Handled
  answer key from resp s =
      (to_client from (or_encoded (encode_with_integrity c key resp) resp) ∷ [], s)

  -- `authenticate`, once each thing that it looks up is there.
  abbrev pub check_key : Result (Unit {0}) → Bytes → Option Bytes
  check_key (ok u) key = some key
  check_key (err e) key = none

  abbrev pub check_password : Option Bytes → Bytes → Bytes → Bytes → Option Bytes
  check_password none username realm raw = none
  check_password (some password) username realm raw =
      let key = long_term_key c username realm password in
      check_key (verify_integrity c raw key) key

  abbrev pub check_nonce : Option Bytes → Bytes → Bytes → TurnServer → Bytes → Option Bytes
  check_nonce none username realm s raw = none
  check_nonce (some nonce) username realm s raw =
      if is_some (Dict.lookup nonce s.nonces)
      then check_password (Dict.lookup username s.users) username realm raw
      else none

  abbrev pub check_realm : Option Bytes → Bytes → Message → TurnServer → Bytes → Option Bytes
  check_realm none username msg s raw = none
  check_realm (some realm) username msg s raw =
      if equal realm s.server_realm
      then check_nonce (Fields.nonce msg) username realm s raw
      else none

  abbrev pub check_username : Option Attribute → Message → TurnServer → Bytes → Option Bytes
  check_username (some (Attribute.username u)) msg s raw =
      check_realm (Fields.realm msg) (from_utf8_lossy u) msg s raw
  check_username _ msg s raw = none

  -- `authenticate`
  unfoldable pub authenticate : Bytes → Message → TurnServer → Option Bytes
  unfolding long_term_key verify_integrity from_utf8_lossy Dict.lookup
  authenticate raw msg s = check_username (get Kinds.username msg) msg s raw

  -- `handle_allocate`, from the port on, from the transport on, and whole.
  unfoldable pub allocate_at :
      Option ℕ → Bytes → Message → SocketAddr → ℕ → Drawn → TurnServer → Handled
  unfolding error_response_to encode_with_integrity encode Keyed.insert
  allocate_at none key msg from now d s = refuse from msg 508 (codes "Insufficient Capacity") d s
  allocate_at (some port) key msg from now d s =
      let requested = max (or_default (Fields.lifetime msg) 600) min_lifetime_secs in
      answer key from
        (message allocate success_response msg.txid (
          Attribute.xor_relayed_address (record { ip = s.relay_ip; port = port })
          ∷ Attribute.xor_mapped_address from
          ∷ Attribute.lifetime requested
          ∷ []))
        (record s {
          allocations =
              Keyed.insert addr_keys from (new_allocation port (now + seconds requested))
                s.allocations;
        })

  unfoldable pub allocate_for :
      Option ℕ → Bytes → Message → SocketAddr → ℕ → Drawn → TurnServer → Handled
  unfolding allocate_at find_port Keyed.lookup
  allocate_for none key msg from now d s = bad_request from msg d s
  allocate_for (some proto) key msg from now d s =
      if not (proto == transport_udp)
      then refuse from msg 442 (codes "Unsupported Transport Protocol") d s
      else if ip_equal from.ip s.relay_ip
      then forbidden from msg d s
      else allocate_at (allocation_port (Keyed.lookup addr_keys from s.allocations) s) key msg from
          now d s

  unfoldable pub handle_allocate :
      Option Bytes → Message → SocketAddr → ℕ → Drawn → TurnServer → Handled
  unfolding allocate_for
  handle_allocate none msg from now d s = unauthorized from msg d s
  handle_allocate (some key) msg from now d s =
      allocate_for (Fields.requested_transport msg) key msg from now d s

  -- `handle_refresh`
  unfoldable pub refresh_on :
      Option ServerAllocation → Bytes → Message → SocketAddr → ℕ → Drawn → TurnServer → Handled
  unfolding error_response_to encode_with_integrity encode Keyed.insert Keyed.remove
  refresh_on none key msg from now d s = mismatch from msg d s
  refresh_on (some a) key msg from now d s =
      let lifetime = or_default (Fields.lifetime msg) 600 in
      let granted = max lifetime min_lifetime_secs in
      if lifetime == 0
      then answer key from (message refresh success_response msg.txid (Attribute.lifetime 0 ∷ []))
          (record s { allocations = Keyed.remove addr_keys from s.allocations })
      else answer key from
          (message refresh success_response msg.txid (Attribute.lifetime granted ∷ []))
          (record s {
            allocations =
                Keyed.insert addr_keys from (record a { expires_at = now + seconds granted })
                  s.allocations;
          })

  unfoldable pub handle_refresh :
      Option Bytes → Message → SocketAddr → ℕ → Drawn → TurnServer → Handled
  unfolding refresh_on Keyed.lookup
  handle_refresh none msg from now d s = unauthorized from msg d s
  handle_refresh (some key) msg from now d s =
      refresh_on (Keyed.lookup addr_keys from s.allocations) key msg from now d s

  -- `handle_create_permission`
  unfoldable pub permit_on :
      Option ServerAllocation
      → SocketAddr
      → Bytes
      → Message
      → SocketAddr
      → ℕ
      → Drawn
      → TurnServer
      → Handled
  unfolding error_response_to encode_with_integrity encode is_unspecified Keyed.insert
  permit_on none peer key msg from now d s = mismatch from msg d s
  permit_on (some a) peer key msg from now d s =
      if is_unspecified peer.ip
      then forbidden from msg d s
      else answer key from (message create_permission success_response msg.txid []) (record s {
        allocations =
            Keyed.insert addr_keys from
              (record a {
                permissions =
                    Keyed.insert ip_keys peer.ip (now + default_permission_lifetime) a.permissions;
              })
              s.allocations;
      })

  abbrev pub permit_for :
      Option SocketAddr → Bytes → Message → SocketAddr → ℕ → Drawn → TurnServer → Handled
  permit_for none key msg from now d s = bad_request from msg d s
  permit_for (some peer) key msg from now d s =
      permit_on (Keyed.lookup addr_keys from s.allocations) peer key msg from now d s

  unfoldable pub handle_create_permission :
      Option Bytes → Message → SocketAddr → ℕ → Drawn → TurnServer → Handled
  unfolding permit_on Keyed.lookup
  handle_create_permission none msg from now d s = unauthorized from msg d s
  handle_create_permission (some key) msg from now d s =
      permit_for (Fields.xor_peer_address msg) key msg from now d s

  unfoldable pub bind_on :
      Option ServerAllocation
      → ℕ
      → SocketAddr
      → Bytes
      → Message
      → SocketAddr
      → ℕ
      → Drawn
      → TurnServer
      → Handled
  unfolding error_response_to encode_with_integrity encode Keyed.insert Keyed.lookup
  bind_on none channel peer key msg from now d s = mismatch from msg d s
  bind_on (some a) channel peer key msg from now d s =
      if bound_otherwise (Keyed.lookup num_keys channel a.channels) peer
      then bad_request from msg d s
      else if taken_otherwise (Keyed.lookup addr_keys peer a.channel_peers) channel
      then bad_request from msg d s
      else answer key from
          (message channel_bind success_response msg.txid
            (Attribute.lifetime channel_lifetime_secs ∷ []))
          (record s {
            allocations = Keyed.insert addr_keys from (bind channel peer now a) s.allocations;
          })

  abbrev pub bind_for :
      Option ℕ → Option SocketAddr → Bytes → Message → SocketAddr → ℕ → Drawn → TurnServer → Handled
  bind_for (some channel) (some peer) key msg from now d s =
      if not (is_channel channel)
      then bad_request from msg d s
      else bind_on (Keyed.lookup addr_keys from s.allocations) channel peer key msg from now d s
  bind_for _ _ key msg from now d s = bad_request from msg d s

  unfoldable pub handle_channel_bind :
      Option Bytes → Message → SocketAddr → ℕ → Drawn → TurnServer → Handled
  unfolding bind_on Keyed.lookup
  handle_channel_bind none msg from now d s = unauthorized from msg d s
  handle_channel_bind (some key) msg from now d s =
      bind_for (Fields.channel_number msg) (Fields.xor_peer_address msg) key msg from now d s

  -- `handle`, on a parsed message by its class and method.
  unfoldable pub handle_message :
      Class → Bytes → Message → SocketAddr → ℕ → Drawn → TurnServer → Handled
  unfolding authenticate handle_allocate handle_refresh handle_create_permission handle_channel_bind
      handle_send method
  handle_message request raw msg from now d s =
      let key = authenticate raw msg s in
      let m = method msg.typ in
      if m == allocate
      then handle_allocate key msg from now d s
      else if m == refresh
      then handle_refresh key msg from now d s
      else if m == create_permission
      then handle_create_permission key msg from now d s
      else if m == channel_bind
      then handle_channel_bind key msg from now d s
      else ([], s)
  handle_message indication raw msg from now d s =
      if method msg.typ == send then handle_send (authenticate raw msg s) msg from s else ([], s)
  handle_message success_response raw msg from now d s = ([], s)
  handle_message error_response raw msg from now d s = ([], s)

  abbrev pub handle_stun : Result Message → Bytes → SocketAddr → ℕ → Drawn → TurnServer → Handled
  handle_stun (err e) raw from now d s = ([], s)
  handle_stun (ok msg) raw from now d s = handle_message (class msg.typ) raw msg from now d s

  abbrev pub handle_on : Option (ℕ × Bytes) → Bytes → SocketAddr → ℕ → Drawn → TurnServer → Handled
  handle_on (some (channel, payload)) raw from now d s =
      (relay_channel_data (Keyed.lookup addr_keys from s.allocations) channel payload, s)
  handle_on none raw from now d s = handle_stun (parse raw) raw from now d s

  -- `handle`
  unfoldable pub handle : Bytes → SocketAddr → ℕ → Drawn → TurnServer → Handled
  unfolding parse_channel_data parse class handle_message relay_channel_data live_allocations
      Keyed.lookup
  handle raw from now d s = handle_on (parse_channel_data raw) raw from now d (expire now s)

-- `handle_peer_data`: what the client is sent, over its channel for the peer if it has one.
abbrev pub peer_data : Option ℕ → SocketAddr → Bytes → Bytes → Bytes
peer_data (some channel) peer txid payload = channel_data channel payload
peer_data none peer txid payload = encode (
    message data_method indication txid
      (Attribute.xor_peer_address peer ∷ Attribute.payload payload ∷ []))

abbrev pub peer_data_on :
    Option (SocketAddr × ServerAllocation) → SocketAddr → Bytes → Bytes → Option Outbound
peer_data_on none peer txid payload = none
peer_data_on (some (client, a)) peer txid payload =
    if is_some (Keyed.lookup ip_keys peer.ip a.permissions)
    then some (
        to_client client
          (peer_data (Keyed.lookup addr_keys peer a.channel_peers) peer txid payload))
    else none

unfoldable pub handle_peer_data : ℕ → SocketAddr → Bytes → Bytes → TurnServer → Option Outbound
unfolding by_port channel_data encode Keyed.lookup
handle_peer_data relay_port peer txid payload s =
    peer_data_on (by_port relay_port s.allocations) peer txid payload

-- `relay_addr`
abbrev pub relay_addr_of : Option ServerAllocation → IpAddr → Option SocketAddr
relay_addr_of none ip = none
relay_addr_of (some a) ip = some (record { ip = ip; port = a.relay_port })

unfoldable pub relay_addr : SocketAddr → TurnServer → Option SocketAddr
unfolding Keyed.lookup
relay_addr client s = relay_addr_of (Keyed.lookup addr_keys client s.allocations) s.relay_ip
