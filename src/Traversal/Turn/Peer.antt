-- ===== src/Traversal/Turn/Peer.antt =====
-- What a TURN server hands its client of a peer's data, and what the client reads.
use vantablack.Prelude.{
  suc, ℕ, ◌+◌, ◌%◌, ◌^◌, ◌<◌, ◌≤◌, ◌≡◌, refl, ap, ◌∙◌, subst, ◌⊎◌, inl, inr, Bool, true, false,
  Option, none, some, List, [], ◌∷◌, ◌++◌, length, length-append, replicate, take_prefix, ltb, ◌==◌,
  ==_iff, if◌then◌else◌, Bool-cases, arith,
}
use vantablack.Prelude.Bytes.{Bytes, to_be_bytes, from_be_bytes-to_be_bytes}
use vantablack.Prelude.Keyed
use vantablack.Prelude.Keyed.{some_inj, num_keys, Values}
use vantablack.Prelude.Xor.{length-xor_bytes}
use vantablack.Prelude.Tables.{pad_lem, padding}
use vantablack.Traversal.Address.{SocketAddr, IpAddr, v4, v6, addr_keys, ip_keys, IsAddr, IsIpAddr}
use vantablack.Traversal.Stun.{
  Attribute, Message, indication, magic_cookie, message, data_method, message_type, method, class,
}
use vantablack.Traversal.Stun.Encode.{encode, encode_value, encode_address, encode_ip, write_header}
use vantablack.Traversal.Stun.Values.{IsTxid}
use vantablack.Traversal.Stun.Layout.{body, piece, length-piece, Short-body, encode-body}
use vantablack.Traversal.Stun.RoundTrip.{IsMessage, parse-encode}
use vantablack.Traversal.Turn.{
  TurnServer, ServerAllocation, to_client, channel_data, parse_channel_data, is_channel, by_port,
}
use vantablack.Traversal.Turn.Server.{handle_peer_data, peer_data}
use vantablack.Traversal.Turn.Client.{
  from_peer, on_channel, decode_inbound, inbound_on, inbound_message,
}
use vantablack.Traversal.Turn.Ports.{IsServer, IsAllocation, Bound}

pub parse_channel_data-channel_data :
    (channel : ℕ) (payload : Bytes)
    → is_channel channel ≡ true
    → length payload < 2 ^ 16
    → parse_channel_data (channel_data channel payload) ≡ some (channel, payload)
unfolding parse_channel_data channel_data
parse_channel_data-channel_data channel payload h s =
    let n : ℕ = length payload in
    let cast : n % 2 ^ 16 ≡ n = omega (arith, s) in
    let row = (to_be_bytes 2 channel ++ to_be_bytes 2 n) ++ payload in
    let zeros = replicate {A = ℕ} (padding (length row)) 0 in
    let small : channel < 256 ^ 2 = ground (arith, h) in
    let word = from_be_bytes-to_be_bytes 2 channel small in
    let len = from_be_bytes-to_be_bytes 2 n (omega (arith, s)) in
    let whole = length-append payload zeros in
    rw (cast, pad_lem row, word, len, h, take_prefix n payload zeros refl)
      (fits (length (payload ++ zeros)) n _ _ (omega (arith, whole)))
  where
    fits :
        (l n : ℕ) (x y : Option (ℕ × Bytes))
        → n ≤ l
        → (if ltb (suc (suc (suc (suc l)))) 4
            then x
            else if ltb (suc (suc (suc (suc l)))) (4 + n)
            then x
            else y)
          ≡ y
    fits l n x y h = ground arith

pub length-encode_address :
    (a : SocketAddr) (txid : Bytes) → IsAddr a → length (encode_address a txid true) ≤ 20
unfolding encode_address
length-encode_address a txid h = on a.ip h.0
  where
    on : (ip : IpAddr) → IsIpAddr ip → length (encode_ip ip a.port txid true) ≤ 20
    on (v4 octets) k = omega (arith, length-xor_bytes octets (to_be_bytes 4 magic_cookie), k.0)
    on (v6 octets) k =
        omega (arith, length-xor_bytes octets (to_be_bytes 4 magic_cookie ++ txid), k.0)

module _ (peer : SocketAddr) (txid payload : Bytes) (p : IsAddr peer) (t : IsTxid txid)
    (s : length payload + 32 < 2 ^ 16) where
  abbrev data_indication : Message
  data_indication =
      message data_method indication txid
        (Attribute.xor_peer_address peer ∷ Attribute.payload payload ∷ [])

  data_fits : length (body txid data_indication.attributes) < 2 ^ 16
  unfolding encode_value
  data_fits =
      let address = Attribute.xor_peer_address peer in
      let bytes = Attribute.payload payload in
      omega (
        arith,
        length-append (piece txid address) (piece txid bytes ++ []),
        length-append (piece txid bytes) [],
        length-piece txid address,
        length-piece txid bytes,
        length-encode_address peer txid p,
        s,
      )

  data_sound : IsMessage data_indication
  unfolding message_type
  data_sound = record {
    typed = omega arith;
    identified = t;
    built = (p, (tt, tt));
    fits = data_fits;
  }

  no_channel_data : parse_channel_data (encode data_indication) ≡ none
  unfolding parse_channel_data message_type
  no_channel_data =
      let b = body txid data_indication.attributes in
      ap parse_channel_data
        (encode-body data_indication t.0 (Short-body txid data_indication.attributes data_fits))
      ∙ none_either (ltb (length (write_header data_indication (length b % 2 ^ 16) ++ b)) 4)
    where
      none_either :
          (b : Bool) → (if b then none else none) ≡ (let o : Option (ℕ × Bytes) = none in o)
      none_either true = refl
      none_either false = refl

  decode_inbound-indication :
      decode_inbound (encode data_indication) ≡ some (from_peer peer payload)
  unfolding decode_inbound message_type method class
  decode_inbound-indication =
      ap (λ o. inbound_on o (encode data_indication)) no_channel_data
      ∙ ap inbound_message (parse-encode data_indication data_sound)

by_port-Values :
    (P : ServerAllocation → Type 0) (port : ℕ) (l : List (SocketAddr × ServerAllocation))
    (client : SocketAddr) (a : ServerAllocation)
    → Values addr_keys P l
    → by_port port l ≡ some (client, a)
    → P a × (a.relay_port ≡ port)
unfolding by_port
by_port-Values P port [] client a v h = cc
by_port-Values P port ((j, w) ∷ l) client a v h = elim (Bool-cases (w.relay_port == port)) [
  | inl same ↦
      let found : some (j, w) ≡ some (client, a) = rw same at h in
      let e : w ≡ a = ap (λ (x : SocketAddr × ServerAllocation). x.1) (some_inj found) in
      (
        subst P e v.0,
        subst (λ (x : ServerAllocation). x.relay_port ≡ port) e ((==_iff w.relay_port port).0 same),
      )
  | inr other ↦ by_port-Values P port l client a v.1 (rw other at h)
]

-- How a client reads what it is handed: as data of the peer, or on the channel bound to it.
abbrev pub ReadAs : ServerAllocation → SocketAddr → Bytes → Bytes → Type 0
ReadAs a peer payload bytes =
    (decode_inbound bytes ≡ some (from_peer peer payload))
    ⊎ ((channel : ℕ) × (decode_inbound bytes ≡ some (on_channel channel payload))
        × (Keyed.lookup num_keys channel a.channels ≡ some peer))

peer_data-ReadAs :
    (a : ServerAllocation) (o : Option ℕ) (peer : SocketAddr) (txid payload : Bytes)
    → Bound a
    → Keyed.lookup addr_keys peer a.channel_peers ≡ o
    → IsAddr peer
    → IsTxid txid
    → length payload + 32 < 2 ^ 16
    → ReadAs a peer payload (peer_data o peer txid payload)
unfolding decode_inbound
peer_data-ReadAs a none peer txid payload b h p t s =
    inl (decode_inbound-indication peer txid payload p t s)
peer_data-ReadAs a (some channel) peer txid payload b h p t s =
    let bound = (b channel peer).0.1 h in
    inr (
      channel,
      ap (λ o. inbound_on o (channel_data channel payload))
          (parse_channel_data-channel_data channel payload ((b channel peer).1 bound)
            (omega (arith, s))),
      bound,
    )

-- Data of at most 65,503 bytes that arrives from a peer at a relay port of a well-formed TURN
-- server, whose allocation has an entry for the peer among its permissions, is sent to that
-- allocation's client, and the client reads it as that data from that peer, or on a channel that
-- is bound to that peer.
pub handle_peer_data-ReadAs :
    (s : TurnServer) (port expiry : ℕ) (client peer : SocketAddr) (a : ServerAllocation)
    (txid payload : Bytes)
    → IsServer s
    → by_port port s.allocations ≡ some (client, a)
    → Keyed.lookup ip_keys peer.ip a.permissions ≡ some expiry
    → IsAddr peer
    → IsTxid txid
    → length payload + 32 < 2 ^ 16
    → (bytes : Bytes) × (handle_peer_data port peer txid payload s ≡ some (to_client client bytes))
      × ReadAs a peer payload bytes
unfolding handle_peer_data
handle_peer_data-ReadAs s port expiry client peer a txid payload v h permitted p t fits =
    let held =
      by_port-Values (IsAllocation s.port_min s.port_max) port s.allocations client a v.sound h in
    (
      peer_data (Keyed.lookup addr_keys peer a.channel_peers) peer txid payload,
      rw (h, permitted) refl,
      peer_data-ReadAs a (Keyed.lookup addr_keys peer a.channel_peers) peer txid payload held.0.2
          refl p t fits,
    )
