-- ===== src/Traversal/Turn/Channels.antt =====
-- Channels of the TURN relay: the client's choice of one, and what a binding admits.
use vantablack.Prelude.{
  ℕ, zero, suc, ◌+◌, ◌-◌, ◌^◌, ◌<◌, ◌≡◌, refl, ap, ◌∙◌, subst, true, false, Option, none, some,
  List, [], ◌∷◌, ◌++◌, length, length-append, leb, if◌then◌else◌, is_some, Bool-cases, inl, inr,
  arith,
}
use vantablack.Prelude.Bytes.{Bytes}
use vantablack.Prelude.Keyed
use vantablack.Prelude.Keyed.{num_keys, some_inj}
use vantablack.Traversal.Address.{SocketAddr, addr_keys, ip_keys, IsAddr}
use vantablack.Traversal.Stun.{
  channel_number_min, channel_number_max, Attribute, Message, ok, message, indication, send, method,
  class, message_type,
}
use vantablack.Traversal.Stun.Encode.{Crypto, strip, encode_value, long_term_key}
use vantablack.Traversal.Stun.Decode.{parse}
use vantablack.Traversal.Stun.Values.{IsTxid}
use vantablack.Traversal.Stun.Layout.{body, piece, length-piece}
use vantablack.Traversal.Turn.{
  TurnServer, ServerAllocation, Outbound, to_peer, Drawn, expire, channel_data, is_channel,
}
use vantablack.Traversal.Turn.Server.{
  handle, handle_on, handle_stun, handle_message, handle_send, outbound_to_peer, relay_channel_data,
  authenticate,
}
use vantablack.Traversal.Turn.Client.{
  TurnClient, channel_loop, allocate_channel, seal, with_credentials, datagram,
}
use vantablack.Traversal.Turn.Peer.{parse_channel_data-channel_data, length-encode_address}
use vantablack.Traversal.Stun.Sealed.{encode_with_integrity-verified}
use vantablack.Traversal.Turn.Sealed.{Knows, expire-Knows, authenticate-seal}
use vantablack.Traversal.Turn.Exchange.{parse_channel_data-none}
use vantablack.Prelude.Utf8.{is_utf8}

empty-of-unbound : (o : Option SocketAddr) → is_some o ≡ false → o ≡ none
empty-of-unbound none h = refl
empty-of-unbound (some a) h = cc

channel_loop_lem :
    (n next : ℕ) (channels : List (ℕ × SocketAddr)) (channel following : ℕ)
    → is_channel next ≡ true
    → channel_loop n next channels ≡ (some channel, following)
    → (is_channel channel ≡ true)
      × (Keyed.lookup num_keys channel channels ≡ none)
      × (is_channel following ≡ true)
unfolding channel_loop
channel_loop_lem zero next channels channel following v h = cc
channel_loop_lem (suc n) next channels channel following v h =
    let step = if leb channel_number_max next then channel_number_min else next + 1 in
    let v' : is_channel step ≡ true = ground (arith, v) in
    elim (Bool-cases (is_some (Keyed.lookup num_keys next channels))) [
      | inl bound ↦ channel_loop_lem n step channels channel following v' (rw bound at h)
      | inr free ↦
          let e = rw free at h in
          let same : next ≡ channel = some_inj (ap (λ (r : Option ℕ × ℕ). r.0) e) in
          (
            subst (λ q. is_channel q ≡ true) same v,
            subst (λ q. Keyed.lookup num_keys q channels ≡ none) same (empty-of-unbound _ free),
            subst (λ q. is_channel q ≡ true) (ap (λ (r : Option ℕ × ℕ). r.1) e) v',
          )
    ]

-- The channel that a TURN client chooses, starting in the range of the channel numbers, is in
-- that range and bound to no peer, and so is in the range the number from which the next choice
-- starts.
pub allocate_channel_lem :
    (t : TurnClient) (channel : ℕ)
    → is_channel t.next_channel ≡ true
    → (allocate_channel t).0 ≡ some channel
    → (is_channel channel ≡ true)
      × (Keyed.lookup num_keys channel t.channels ≡ none)
      × (is_channel (allocate_channel t).1.next_channel ≡ true)
unfolding allocate_channel
allocate_channel_lem t channel v h =
    channel_loop_lem (channel_number_max - channel_number_min + 1) t.next_channel t.channels channel
      (allocate_channel t).1.next_channel v (ap (λ o. (o, (allocate_channel t).1.next_channel)) h)

-- What a client sends as an indication.
abbrev pub send_indication : SocketAddr → Bytes → Bytes → Message
send_indication peer txid payload =
    message send indication txid (Attribute.xor_peer_address peer ∷ Attribute.payload payload ∷ [])

module _ (c : Crypto) (t : TurnClient) (s : TurnServer) (nonce : Bytes) (from peer : SocketAddr)
    (now : ℕ) (a : ServerAllocation) (txid payload : Bytes) (d : Drawn)
    (held : Keyed.lookup addr_keys from (expire now s).allocations ≡ some a)
    (known : Knows s t nonce) (realm_text : is_utf8 s.server_realm ≡ true)
    (nonce_text : is_utf8 nonce ≡ true) (p : IsAddr peer) (id : IsTxid txid)
    (short : length t.username + length s.server_realm + length nonce + length payload + 100
      < 2 ^ 16) where
  indication_fits :
      length (
          body txid (
            strip
              (with_credentials t s.server_realm nonce
                (send_indication peer txid payload)).attributes))
        + 32
      < 2 ^ 16
  unfolding encode_value
  indication_fits =
      let address = Attribute.xor_peer_address peer in
      let bytes = Attribute.payload payload in
      let user = Attribute.username t.username in
      let realm = Attribute.realm s.server_realm in
      let nonced = Attribute.nonce nonce in
      omega (
        arith,
        length-append (piece txid address) (body txid (bytes ∷ user ∷ realm ∷ nonced ∷ [])),
        length-append (piece txid bytes) (body txid (user ∷ realm ∷ nonced ∷ [])),
        length-append (piece txid user) (body txid (realm ∷ nonced ∷ [])),
        length-append (piece txid realm) (body txid (nonced ∷ [])),
        length-append (piece txid nonced) [],
        length-piece txid address,
        length-piece txid bytes,
        length-piece txid user,
        length-piece txid realm,
        length-piece txid nonced,
        length-encode_address peer txid p,
        short,
      )

  abbrev relayed : List Outbound
  relayed =
      if is_some (Keyed.lookup ip_keys peer.ip a.permissions)
      then to_peer a.relay_port peer payload ∷ []
      else []

  handle-proved :
      (out : Bytes) (read : List Attribute) (key : Bytes)
      → let msg : Message = record (send_indication peer txid payload) {
        attributes = (send_indication peer txid payload).attributes ++ read;
      } in
        parse out ≡ ok msg
        → authenticate c out msg (expire now s) ≡ some key
        → handle c out from now d s ≡ (relayed, expire now s)
  unfolding handle handle_message handle_send outbound_to_peer method class message_type
  handle-proved out read key parsed proved =
      let msg : Message = record (send_indication peer txid payload) {
        attributes = (send_indication peer txid payload).attributes ++ read;
      } in
      ap (λ o. handle_on c o out from now d (expire now s))
        (parse_channel_data-none out msg parsed refl)
      ∙ ap (λ r. handle_stun c r out from now d (expire now s)) parsed
      ∙ ap (λ o. handle_send o msg from (expire now s)) proved
      ∙ ap (λ o. (outbound_to_peer o peer payload, expire now s)) held

  handle-sealed :
      (out : Bytes) × (seal c t (send_indication peer txid payload) ≡ some (ok out))
      × (handle c out from now d s ≡ (relayed, expire now s))
  unfolding message_type
  handle-sealed =
      let (out, read, made, parsed, proved) =
        authenticate-seal c t (expire now s) nonce (send_indication peer txid payload)
          (expire-Knows now s t nonce known)
          (record { no_username = refl; no_realm = refl; no_nonce = refl }) (omega arith) id
          (p, (tt, (tt, (realm_text, (nonce_text, tt))))) indication_fits in
      (
        out,
        made,
        handle-proved out read (long_term_key c t.username s.server_realm t.password) parsed proved,
      )

-- A client's live allocation binds a channel to a peer, and the client holds credentials that the
-- server knows, whose texts are UTF-8 and fit a message together with the data. Channel data on
-- that channel is sent to the peer, whether or not the allocation has a permission for the peer's
-- address. A Send indication of the same data, sealed with the credentials, is sent to the peer
-- if the allocation has such a permission and is dropped if it has none.
pub handle-channel_data :
    (c : Crypto) (t : TurnClient) (s : TurnServer) (nonce : Bytes) (from peer : SocketAddr)
    (now channel : ℕ) (a : ServerAllocation) (txid payload : Bytes) (d : Drawn)
    → Keyed.lookup addr_keys from (expire now s).allocations ≡ some a
    → Keyed.lookup num_keys channel a.channels ≡ some peer
    → is_channel channel ≡ true
    → Knows s t nonce
    → is_utf8 s.server_realm ≡ true
    → is_utf8 nonce ≡ true
    → IsAddr peer
    → IsTxid txid
    → length t.username + length s.server_realm + length nonce + length payload + 100 < 2 ^ 16
    → let sent : List Outbound = to_peer a.relay_port peer payload ∷ [] in
      (handle c (channel_data channel payload) from now d s ≡ (sent, expire now s))
      × ((out : Bytes) × (seal c t (send_indication peer txid payload) ≡ some (ok out))
          × (handle c out from now d s ≡ (
            (if is_some (Keyed.lookup ip_keys peer.ip a.permissions) then sent else []),
            expire now s,
          )))
unfolding handle relay_channel_data
handle-channel_data c t s nonce from peer now channel a txid payload d h b v k rt nt p id l = (
  ap (λ o. handle_on c o (channel_data channel payload) from now d (expire now s))
        (parse_channel_data-channel_data channel payload v (omega (arith, l)))
      ∙ (rw (h, b) refl),
  handle-sealed c t s nonce from peer now a txid payload d h k rt nt p id l,
)

-- What `send` of a client makes of data for a peer that it has bound to no channel has no credentials
-- but the digest, and a server drops it, whatever permissions there are.
handle-datagram :
    (c : Crypto) (t : TurnClient) (s : TurnServer) (realm : Bytes) (from peer : SocketAddr)
    (now : ℕ) (txid payload : Bytes) (d : Drawn)
    → is_some t.allocation ≡ true
    → t.realm ≡ some realm
    → Keyed.lookup addr_keys peer t.channel_peers ≡ none
    → IsAddr peer
    → IsTxid txid
    → length payload + 100 < 2 ^ 16
    → (out : Bytes) × (datagram c peer txid payload t ≡ some (ok out))
      × (handle c out from now d s ≡ ([], expire now s))
unfolding datagram handle handle_message handle_send authenticate method class message_type
    encode_value
handle-datagram c t s realm from peer now txid payload d held r unbound p id short =
    let address = Attribute.xor_peer_address peer in
    let bytes = Attribute.payload payload in
    let (out, tag, crc, made, verified, summed, parsed) =
      encode_with_integrity-verified c (long_term_key c t.username realm t.password)
        (send_indication peer txid payload) (omega arith) id (p, (tt, tt))
        (omega (
          arith,
          length-append (piece txid address) (body txid (bytes ∷ [])),
          length-append (piece txid bytes) [],
          length-piece txid address,
          length-piece txid bytes,
          length-encode_address peer txid p,
          short,
        )) in
    (
      out,
      rw (held, unbound, r) (ap some made),
      ap (λ o. handle_on c o out from now d (expire now s))
            (parse_channel_data-none out _ parsed refl)
          ∙ ap (λ q. handle_stun c q out from now d (expire now s)) parsed,
    )
