-- ===== src/Traversal/Turn/Tests.antt =====
-- The TURN relay on concrete datagrams.
use vantablack.Prelude.{◌+◌, ◌≡◌, refl, [], ◌∷◌, All, arith, some, none, true}
use vantablack.Prelude.Bytes.{Bytes, codes}
use vantablack.Prelude.Dict
use vantablack.Prelude.Keyed
use vantablack.Prelude.Keyed.{num_keys}
use vantablack.Prelude.Utf8.{is_utf8}
use vantablack.Traversal.Address.{SocketAddr, addr_keys, ip_keys}
use vantablack.Traversal.Samples.{sums, txid, client, peer, relay}
use vantablack.Traversal.Stun.{Message, ok}
use vantablack.Traversal.Stun.Decode.{parse}
use vantablack.Traversal.Turn.{
  TurnServer, ServerAllocation, Drawn, to_client, to_peer, new_server, expire, seconds,
  channel_data, is_channel, find_port, live_allocations, by_port,
}
use vantablack.Traversal.Turn.Server.{handle, handle_peer_data, new_allocation}
use vantablack.Traversal.Turn.Client.{
  TurnClient, seal, allocate_request, allocate_response, allocated, allocate_channel,
}
use vantablack.Traversal.Turn.Permission.{Permitted, handle-Permitted}
use vantablack.Traversal.Turn.Ports.{IsServer, Bound}
use vantablack.Traversal.Turn.Invariant.{Datagram, after, after-IsServer}
use vantablack.Traversal.Turn.Peer.{ReadAs, handle_peer_data-ReadAs}
use vantablack.Traversal.Turn.Sealed.{Knows}
use vantablack.Traversal.Turn.Exchange.{IsAdmitted, asked, allocate_exchange}
use vantablack.Traversal.Turn.Channels.{allocate_channel_lem, send_indication, handle-channel_data}
use vantablack.Traversal.Stun.Values.{IsTxid}
use vantablack.Traversal.Stun.Encode.{encode}

abbrev nonce : Bytes
nonce = codes "00ff"

abbrev user : TurnClient
user = record {
  server = record { ip = relay; port = 3478 };
  username = codes "alice";
  password = codes "secret";
  realm = some (codes "vanta");
  nonce = some nonce;
  allocation = none;
  permissions = [];
  channels = (16384, peer) ∷ [];
  channel_peers = (peer, 16384) ∷ [];
  next_channel = 16384;
  timeout = seconds 5;
}

-- A server that has challenged the user once.
abbrev server : TurnServer
server =
    record (new_server (codes "vanta") ((codes "alice", codes "secret") ∷ []) relay 50000 50009) {
      nonces = (nonce, 0) ∷ [];
    }

abbrev drawn : Drawn
drawn = record { clock = 7; random = 1 ∷ 255 ∷ [] }

admitted : IsAdmitted user server nonce client 5 50000
unfolding is_utf8 Keyed.lookup Dict.lookup find_port live_allocations
admitted = record {
  known = record {
    issued = 0;
    realm_known = refl;
    nonce_held = refl;
    nonce_known = refl;
    user_known = refl;
    user_text = refl;
  };
  realm_text = refl;
  nonce_text = refl;
  short = omega arith;
  client = omega arith;
  relay = omega arith;
  apart = refl;
  new = refl;
  free = refl;
}

txid-IsTxid : IsTxid txid
txid-IsTxid = omega arith

allocate_exchange_example :
    let granted = asked (seconds 700) in
    let relayed : SocketAddr = record { ip = relay; port = 50000 } in
    (out : Bytes) × (bytes : Bytes) × (reply : Message) × (seal sums user
        (allocate_request (seconds 700) txid)
      ≡ some (ok out))
    × (handle sums out client 5 drawn server ≡ (
      to_client client bytes ∷ [],
      record (expire 5 server) {
        allocations =
            Keyed.insert addr_keys client
              (new_allocation 50000 (5 + seconds granted))
              (expire 5 server).allocations;
      },
    ))
    × (parse bytes ≡ ok reply)
    × (allocate_response reply 9 (seconds 700) user
        ≡ allocated relayed (record user {
          allocation = some (record {
            relayed_addr = relayed;
            mapped_addr = some client;
            lifetime = seconds granted;
            expires_at = 9 + seconds granted;
          });
        }))
allocate_exchange_example =
    allocate_exchange sums user server nonce client 5 50000 drawn txid (seconds 700) 9 txid-IsTxid
      admitted

abbrev junk : Datagram
junk = record { raw = codes "junk"; from = client; now = 3; drawn = drawn }

-- A request without credentials, which is challenged.
abbrev asking : Datagram
asking = record {
  raw = encode (allocate_request (seconds 700) txid);
  from = client;
  now = 4;
  drawn = drawn;
}

after-IsServer_example :
    IsServer (after sums (junk ∷ asking ∷ []) (new_server (codes "vanta") [] relay 50000 50009))
after-IsServer_example =
    after-IsServer sums (junk ∷ asking ∷ []) (codes "vanta") [] relay 50000 50009

-- A server with an allocation that admits the peer, which no channel is bound to.
abbrev admitting : ServerAllocation
admitting = record (new_allocation 50000 (seconds 600)) {
  permissions = (peer.ip, seconds 300) ∷ [];
}

abbrev serving : TurnServer
serving = record server { allocations = (client, admitting) ∷ [] }

admitting-Bound : Bound admitting
unfolding Keyed.lookup
admitting-Bound channel p = (((λ h. cc), (λ h. cc)), (λ h. cc))

serving-IsServer : IsServer serving
unfolding Keyed.lookup
serving-IsServer = record {
  clients = (refl, tt);
  ports = (refl, tt);
  sound = ((omega arith, omega arith, admitting-Bound), tt);
  bounded = omega arith;
}

found : by_port 50000 serving.allocations ≡ some (client, admitting)
unfolding by_port
found = refl

permitted : Keyed.lookup ip_keys peer.ip admitting.permissions ≡ some (seconds 300)
unfolding Keyed.lookup
permitted = refl

handle_peer_data-ReadAs_example :
    (bytes : Bytes) × (handle_peer_data 50000 peer txid (codes "hello") serving
      ≡ some (to_client client bytes))
    × ReadAs admitting peer (codes "hello") bytes
handle_peer_data-ReadAs_example =
    handle_peer_data-ReadAs serving 50000 (seconds 300) client peer admitting txid (codes "hello")
      serving-IsServer found permitted (omega arith) txid-IsTxid (omega arith)

allocate_channel_run : (allocate_channel user).0 ≡ some 16385
unfolding allocate_channel
allocate_channel_run = refl

allocate_channel_lem_example :
    (is_channel 16385 ≡ true)
    × (Keyed.lookup num_keys 16385 user.channels ≡ none)
    × (is_channel (allocate_channel user).1.next_channel ≡ true)
allocate_channel_lem_example = allocate_channel_lem user 16385 refl allocate_channel_run

-- An allocation whose channel is bound, and whose permission ran out at 300 seconds.
abbrev outlived : ServerAllocation
outlived = record (new_allocation 50000 (seconds 600)) {
  permissions = (peer.ip, seconds 300) ∷ [];
  channels = (16384, peer) ∷ [];
  channel_peers = (peer, 16384) ∷ [];
}

abbrev outliving : TurnServer
outliving = record server { allocations = (client, outlived) ∷ [] }

still_there :
    Keyed.lookup addr_keys client (expire (seconds 400) outliving).allocations
    ≡ some (record outlived { permissions = [] })
unfolding Keyed.lookup live_allocations
still_there = refl

still_bound : Keyed.lookup num_keys 16384 outlived.channels ≡ some peer
unfolding Keyed.lookup
still_bound = refl

handle-Permitted_example :
    All
      (Permitted (seconds 400) client (expire (seconds 400) outliving))
      (handle sums (channel_data 16384 (codes "hello")) client (seconds 400) drawn outliving).0
handle-Permitted_example =
    handle-Permitted sums (channel_data 16384 (codes "hello")) client (seconds 400) drawn outliving

outliving-Knows : Knows outliving user nonce
unfolding is_utf8 Dict.lookup
outliving-Knows = record {
  issued = 0;
  realm_known = refl;
  nonce_held = refl;
  nonce_known = refl;
  user_known = refl;
  user_text = refl;
}

realm_text : is_utf8 (codes "vanta") ≡ true
unfolding is_utf8
realm_text = refl

nonce_text : is_utf8 nonce ≡ true
unfolding is_utf8
nonce_text = refl

handle-channel_data_example :
    (handle sums (channel_data 16384 (codes "hello")) client (seconds 400) drawn outliving
      ≡ (to_peer 50000 peer (codes "hello") ∷ [], expire (seconds 400) outliving))
    × ((out : Bytes) × (seal sums user (send_indication peer txid (codes "hello")) ≡ some (ok out))
        × (handle sums out client (seconds 400) drawn outliving
            ≡ ([], expire (seconds 400) outliving)))
unfolding Keyed.lookup
handle-channel_data_example =
    handle-channel_data sums user outliving nonce client peer (seconds 400) 16384
      (record outlived { permissions = [] }) txid (codes "hello") drawn still_there still_bound refl
      outliving-Knows realm_text nonce_text (omega arith) txid-IsTxid (omega arith)
