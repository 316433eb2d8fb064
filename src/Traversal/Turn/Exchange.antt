-- ===== src/Traversal/Turn/Exchange.antt =====
-- A client's allocation at a TURN server, from the sealed request to the answer that is read.
use vantablack.Prelude.{
  ℕ, ◌+◌, ◌-◌, ◌/◌, ◌%◌, ◌^◌, ◌<◌, ◌≡◌, refl, ap, ◌∙◌, max, not, Bool, true, false, Option, none,
  some, List, [], ◌∷◌, ◌++◌, length, length-append, take, ltb, ◌==◌, if◌then◌else◌, arith,
}
use vantablack.Prelude.Bytes.{Bytes, from_be_bytes, slice}
use vantablack.Prelude.Utf8.{is_utf8}
use vantablack.Prelude.Keyed
use vantablack.Traversal.Address.{SocketAddr, addr_keys, ip_equal, IsAddr}
use vantablack.Traversal.Stun.{
  Attribute, Message, Result, ok, err, method, class, message_type, message, allocate,
  success_response, header_len, magic_cookie, ◌>>=◌,
}
use vantablack.Traversal.Stun.Encode.{Crypto, strip, encode_value, long_term_key}
use vantablack.Traversal.Stun.Decode.{parse, parse_loop}
use vantablack.Traversal.Stun.Values.{IsTxid}
use vantablack.Traversal.Stun.Layout.{body, piece, length-piece}
use vantablack.Traversal.Stun.Sealed.{encode_with_integrity-verified}
use vantablack.Traversal.Turn.{
  TurnServer, Drawn, to_client, expire, seconds, min_lifetime_secs, is_channel, parse_channel_data,
  free_port,
}
use vantablack.Traversal.Turn.Permission.{either}
use vantablack.Traversal.Turn.Server.{
  handle, handle_on, handle_stun, handle_message, handle_allocate, allocate_for, allocate_at,
  new_allocation, authenticate, answer, or_encoded,
}
use vantablack.Traversal.Turn.Client.{
  TurnClient, seal, with_credentials, allocate_request, allocate_response, allocated,
}
use vantablack.Traversal.Turn.Peer.{length-encode_address}
use vantablack.Traversal.Turn.Sealed.{Knows, expire-Knows, IsRequest, authenticate-seal}

-- The type of a message that is read stands in its first two bytes.
parse-typ : (buf : Bytes) (m : Message) → parse buf ≡ ok m → from_be_bytes (take 2 buf) ≡ m.typ
unfolding parse
parse-typ buf m =
    let P = λ (r : Result Message). r ≡ ok m → from_be_bytes (take 2 buf) ≡ m.typ in
    let declared = from_be_bytes (slice 2 2 buf) in
    either P (ltb (length buf) header_len) _ _ (λ h. cc)
      (either P (not (declared % 4 == 0)) _ _ (λ h. cc)
        (either P (not (from_be_bytes (slice 4 4 buf) == magic_cookie)) _ _ (λ h. cc)
          (either P (ltb (length buf - header_len) declared) _ _ (λ h. cc)
            (last (
              parse_loop (length (slice header_len declared buf)) (slice header_len declared buf)
                (slice 8 12 buf))))))
  where
    last :
        (r : Result (List Attribute))
        → (r >>= λ found. ok (record {
          typ = from_be_bytes (take 2 buf);
          txid = slice 8 12 buf;
          attributes = found;
        }))
          ≡ ok m
        → from_be_bytes (take 2 buf) ≡ m.typ
    last (ok found) h = ap typ_of h
      where
        typ_of : Result Message → ℕ
        typ_of (ok x) = x.typ
        typ_of (err e) = 0
    last (err e) h = cc

-- A message of another type is not taken for channel data.
pub parse_channel_data-none :
    (buf : Bytes) (m : Message)
    → parse buf ≡ ok m
    → is_channel m.typ ≡ false
    → parse_channel_data buf ≡ none
unfolding parse_channel_data
parse_channel_data-none buf m h k = rw (parse-typ buf m h, k) (none_either (ltb (length buf) 4))
  where
    none_either : (b : Bool) → (if b then none else none) ≡ (let o : Option (ℕ × Bytes) = none in o)
    none_either true = refl
    none_either false = refl

-- What a client asks for, in seconds.
abbrev pub asked : ℕ → ℕ
asked lifetime = max (lifetime / seconds 1 % 2 ^ 32) min_lifetime_secs

-- A client at `from` that has no allocation at a server with a free port, and whose credentials the
-- server knows.
pub record IsAdmitted (t : TurnClient) (s : TurnServer) (nonce : Bytes) (from : SocketAddr)
    (now p : ℕ) : Type 0 where
  pub known : Knows s t nonce
  pub realm_text : is_utf8 s.server_realm ≡ true
  pub nonce_text : is_utf8 nonce ≡ true
  pub short : length t.username + length s.server_realm + length nonce + 100 < 2 ^ 16
  pub client : IsAddr from
  pub relay : IsAddr (record { ip = s.relay_ip; port = p })
  pub apart : ip_equal from.ip s.relay_ip ≡ false
  pub new : Keyed.lookup addr_keys from (expire now s).allocations ≡ none
  pub free : free_port (expire now s) ≡ some p

module _ (c : Crypto) (t : TurnClient) (s : TurnServer) (nonce : Bytes) (from : SocketAddr)
    (now p : ℕ) (d : Drawn) (txid : Bytes) (lifetime clock : ℕ) (id : IsTxid txid)
    (v : IsAdmitted t s nonce from now p) where
  abbrev whole : Message
  whole = with_credentials t s.server_realm nonce (allocate_request lifetime txid)

  request_fits : length (body txid (strip whole.attributes)) + 32 < 2 ^ 16
  unfolding encode_value
  request_fits =
      let transport = Attribute.requested_transport 17 in
      let wanted = Attribute.lifetime (asked lifetime) in
      let user = Attribute.username t.username in
      let realm = Attribute.realm s.server_realm in
      let nonced = Attribute.nonce nonce in
      omega (
        arith,
        length-append (piece txid transport)
            (body txid (wanted ∷ Attribute.dont_fragment ∷ user ∷ realm ∷ nonced ∷ [])),
        length-append (piece txid wanted)
            (body txid (Attribute.dont_fragment ∷ user ∷ realm ∷ nonced ∷ [])),
        length-append (piece txid Attribute.dont_fragment) (body txid (user ∷ realm ∷ nonced ∷ [])),
        length-append (piece txid user) (body txid (realm ∷ nonced ∷ [])),
        length-append (piece txid realm) (body txid (nonced ∷ [])),
        length-append (piece txid nonced) [],
        length-piece txid transport,
        length-piece txid wanted,
        length-piece txid Attribute.dont_fragment,
        length-piece txid user,
        length-piece txid realm,
        length-piece txid nonced,
        v.short,
      )

  abbrev granted : ℕ
  granted = max (asked lifetime) min_lifetime_secs

  abbrev response : Message
  response = message allocate success_response txid (
      Attribute.xor_relayed_address (record { ip = s.relay_ip; port = p })
      ∷ Attribute.xor_mapped_address from
      ∷ Attribute.lifetime granted
      ∷ [])

  response_fits : length (body txid (strip response.attributes)) + 32 < 2 ^ 16
  unfolding encode_value
  response_fits =
      let relayed = Attribute.xor_relayed_address (record { ip = s.relay_ip; port = p }) in
      let mapped = Attribute.xor_mapped_address from in
      let kept = Attribute.lifetime granted in
      omega (
        arith,
        length-append (piece txid relayed) (body txid (mapped ∷ kept ∷ [])),
        length-append (piece txid mapped) (body txid (kept ∷ [])),
        length-append (piece txid kept) [],
        length-piece txid relayed,
        length-piece txid mapped,
        length-piece txid kept,
        length-encode_address (record { ip = s.relay_ip; port = p }) txid v.relay,
        length-encode_address from txid v.client,
      )

  abbrev key : Bytes
  key = long_term_key c t.username s.server_realm t.password

  abbrev granting : TurnServer
  granting = record (expire now s) {
    allocations =
        Keyed.insert addr_keys from (new_allocation p (now + seconds granted))
          (expire now s).allocations;
  }

  allocate_for-granted :
      (read : List Attribute)
      → allocate_for c
          (some 17)
          key
          (record whole { attributes = (allocate_request lifetime txid).attributes ++ read })
          from
          now
          d
          (expire now s)
        ≡ answer c key from response granting
  unfolding allocate_for allocate_at
  allocate_for-granted read = rw (v.apart, v.new, v.free) refl

  handle-granted :
      (out : Bytes) (read : List Attribute)
      → parse out
        ≡ ok (record whole { attributes = (allocate_request lifetime txid).attributes ++ read })
      → authenticate c out
          (record whole { attributes = (allocate_request lifetime txid).attributes ++ read })
          (expire now s)
        ≡ some key
      → handle c out from now d s ≡ answer c key from response granting
  unfolding handle handle_message handle_allocate method class message_type
  handle-granted out read parsed proved =
      let msg = record whole { attributes = (allocate_request lifetime txid).attributes ++ read } in
      ap (λ o. handle_on c o out from now d (expire now s))
        (parse_channel_data-none out msg parsed refl)
      ∙ ap (λ r. handle_stun c r out from now d (expire now s)) parsed
      ∙ ap (λ o. handle_allocate c o msg from now d (expire now s)) proved
      ∙ allocate_for-granted read

-- When a TURN server has a free port, and a client at an address that has no allocation there,
-- and is not the relay's own, holds the server's realm, a nonce that the server has issued and a
-- user's name and password that the server knows, then the Allocate request that the client seals
-- is answered to the client alone, the server then has an allocation for it at that port, without
-- permissions and channels, and the client reads the answer as an allocation at the relay's
-- address and that port, both for the lifetime asked for. HMAC-SHA1 and MD5 are parameters; the
-- texts are UTF-8 and fit a message.
pub allocate_exchange :
    (c : Crypto) (t : TurnClient) (s : TurnServer) (nonce : Bytes) (from : SocketAddr) (now p : ℕ)
    (d : Drawn) (txid : Bytes) (lifetime clock : ℕ)
    → IsTxid txid
    → IsAdmitted t s nonce from now p
    → let granted = asked lifetime in
      let relayed : SocketAddr = record { ip = s.relay_ip; port = p } in
      (out : Bytes) × (bytes : Bytes) × (reply : Message) × (seal c t
          (allocate_request lifetime txid)
        ≡ some (ok out))
      × (handle c out from now d s ≡ (
        to_client from bytes ∷ [],
        record (expire now s) {
          allocations =
              Keyed.insert addr_keys from
                (new_allocation p (now + seconds granted))
                (expire now s).allocations;
        },
      ))
      × (parse bytes ≡ ok reply)
      × (allocate_response reply clock lifetime t
          ≡ allocated relayed (record t {
            allocation = some (record {
              relayed_addr = relayed;
              mapped_addr = some from;
              lifetime = seconds granted;
              expires_at = clock + seconds granted;
            });
          }))
unfolding allocate_response message_type class
allocate_exchange c t s nonce from now p d txid lifetime clock id v =
    let bare : IsRequest (allocate_request lifetime txid) = record {
      no_username = refl;
      no_realm = refl;
      no_nonce = refl;
    } in
    let kept : max (asked lifetime) min_lifetime_secs ≡ asked lifetime = omega arith in
    let (out, read, made, parsed, proved) =
      authenticate-seal c t (expire now s) nonce (allocate_request lifetime txid)
        (expire-Knows now s t nonce v.known) bare (omega arith) id
        (tt, (omega arith, (tt, (tt, (v.realm_text, (v.nonce_text, tt))))))
        (request_fits c t s nonce from now p d txid lifetime clock id v) in
    let reply = response c t s nonce from now p d txid lifetime clock id v in
    let key = long_term_key c t.username s.server_realm t.password in
    let (bytes, tag, crc, sealed, verified, summed, read_back) =
      encode_with_integrity-verified c key reply (omega arith) id
        (v.relay, (v.client, (omega arith, tt)))
        (response_fits c t s nonce from now p d txid lifetime clock id v) in
    (
      out,
      bytes,
      _,
      made,
      handle-granted c t s nonce from now p d txid lifetime clock id v out read parsed proved
          ∙ ap
              (λ r. (
                to_client from (or_encoded r reply) ∷ [],
                granting c t s nonce from now p d txid lifetime clock id v,
              ))
              sealed
          ∙ ap
              (λ g. (
                to_client from bytes ∷ [],
                record (expire now s) {
                  allocations =
                      Keyed.insert addr_keys from (new_allocation p (now + seconds g))
                        (expire now s).allocations;
                },
              ))
              kept,
      read_back,
      ap
          (λ g.
            allocated (record { ip = s.relay_ip; port = p })
              (record t {
                allocation = some (record {
                  relayed_addr = record { ip = s.relay_ip; port = p };
                  mapped_addr = some from;
                  lifetime = seconds g;
                  expires_at = clock + seconds g;
                });
              }))
          kept,
    )
