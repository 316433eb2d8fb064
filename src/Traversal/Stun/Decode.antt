-- ===== src/Traversal/Stun/Decode.antt =====
-- Reading a STUN message: `Message::parse` of src/ghost/net/stun.rs.
use vantablack.Prelude.{
  ℕ, zero, suc, ◌+◌, ◌-◌, ◌*◌, ◌/◌, ◌%◌, bit_and, Bool, true, false, not, List, [], ◌∷◌, length,
  get_or, take, drop, ltb, ◌==◌, if◌then◌else◌,
}
use vantablack.Prelude.Bytes.{Bytes, codes, from_be_bytes, slice}
use vantablack.Prelude.Utf8.{from_utf8_lossy}
use vantablack.Prelude.Xor.{xor_bytes}
use vantablack.Traversal.Address.{SocketAddr, v4, v6}
use vantablack.Traversal.Stun.{
  Attribute, Message, Result, ok, err, malformed, magic_cookie, header_len, ◌>>=◌, too_short,
  unpadded_length, bad_magic_cookie, length_mismatch, truncated_attribute, truncated_value,
  unknown_family,
}
use vantablack.Traversal.Stun.Encode.{mask_port, mask_v4, mask_v6}
use vantablack.Traversal.Stun.Kinds

-- `decode_address`
unfoldable pub decode_address : Bytes → Bytes → Bool → Result SocketAddr
unfolding xor_bytes
decode_address value txid xor =
    let family = get_or value 1 0 in
    let port = mask_port xor (from_be_bytes (slice 2 2 value)) in
    if ltb (length value) 4
    then err (malformed (codes "address attribute shorter than 4 bytes"))
    else if family == 1
    then (if ltb (length value) 8
        then err (malformed (codes "IPv4 address attribute needs 8 bytes"))
        else ok (record { ip = v4 (mask_v4 xor (slice 4 4 value)); port = port }))
    else if family == 2
    then (if ltb (length value) 20
        then err (malformed (codes "IPv6 address attribute needs 20 bytes"))
        else ok (record { ip = v6 (mask_v6 xor txid (slice 4 16 value)); port = port }))
    else err (unknown_family family)

-- `read_u64`
unfoldable pub read_u64 : Bytes → Result ℕ
read_u64 value =
    if ltb (length value) 8
    then err (malformed (codes "64-bit attribute shorter than 8 bytes"))
    else ok (from_be_bytes (take 8 value))

-- `value.as_chunks::<2>()`, each read as a word.
abbrev pub decode_words : Bytes → List ℕ
decode_words [] = []
decode_words (a ∷ []) = []
decode_words (a ∷ b ∷ more) = from_be_bytes (a ∷ b ∷ []) ∷ decode_words more

unfoldable pub decode_error_code : Bytes → Result Attribute
unfolding from_utf8_lossy
decode_error_code value =
    if ltb (length value) 4
    then err (malformed (codes "ERROR-CODE shorter than 4 bytes"))
    else ok (
        Attribute.error_code (bit_and (get_or value 2 0) 7 * 100 + get_or value 3 0)
          (from_utf8_lossy (drop 4 value)))

-- A word of four bytes at the front of a value.
abbrev pub read_u32 : Bytes → Bytes → (ℕ → Attribute) → Result Attribute
read_u32 text value make =
    if ltb (length value) 4 then err (malformed text) else ok (make (from_be_bytes (take 4 value)))

-- `decode_attribute`
unfoldable pub decode_attribute : ℕ → Bytes → Bytes → Result Attribute
unfolding decode_address read_u64 decode_error_code from_utf8_lossy
decode_attribute kind value txid =
    if kind == Kinds.mapped_address
    then (decode_address value txid false >>= λ a. ok (Attribute.mapped_address a))
    else if kind == Kinds.xor_mapped_address
    then (decode_address value txid true >>= λ a. ok (Attribute.xor_mapped_address a))
    else if kind == Kinds.username
    then ok (Attribute.username value)
    else if kind == Kinds.message_integrity
    then (if ltb (length value) 20
        then err (malformed (codes "MESSAGE-INTEGRITY shorter than 20 bytes"))
        else ok (Attribute.message_integrity (take 20 value)))
    else if kind == Kinds.error_code
    then decode_error_code value
    else if kind == Kinds.priority
    then read_u32 (codes "PRIORITY shorter than 4 bytes") value Attribute.priority
    else if kind == Kinds.use_candidate
    then ok Attribute.use_candidate
    else if kind == Kinds.ice_controlled
    then (read_u64 value >>= λ t. ok (Attribute.ice_controlled t))
    else if kind == Kinds.ice_controlling
    then (read_u64 value >>= λ t. ok (Attribute.ice_controlling t))
    else if kind == Kinds.software
    then ok (Attribute.software (from_utf8_lossy value))
    else if kind == Kinds.xor_peer_address
    then (decode_address value txid true >>= λ a. ok (Attribute.xor_peer_address a))
    else if kind == Kinds.xor_relayed_address
    then (decode_address value txid true >>= λ a. ok (Attribute.xor_relayed_address a))
    else if kind == Kinds.payload
    then ok (Attribute.payload value)
    else if kind == Kinds.realm
    then ok (Attribute.realm (from_utf8_lossy value))
    else if kind == Kinds.nonce
    then ok (Attribute.nonce (from_utf8_lossy value))
    else if kind == Kinds.requested_transport
    then (if length value == 0
        then err (malformed (codes "REQUESTED-TRANSPORT shorter than 1 byte"))
        else ok (Attribute.requested_transport (get_or value 0 0)))
    else if kind == Kinds.lifetime
    then (if length value == 0
        then err (malformed (codes "LIFETIME empty"))
        else read_u32 (codes "LIFETIME short") value Attribute.lifetime)
    else if kind == Kinds.channel_number
    then (if ltb (length value) 2
        then err (malformed (codes "CHANNEL-NUMBER short"))
        else ok (Attribute.channel_number (from_be_bytes (take 2 value))))
    else if kind == Kinds.unknown_attributes
    then (if length value % 2 == 0
        then ok (Attribute.unknown_attributes (decode_words value))
        else err (malformed (codes "UNKNOWN-ATTRIBUTES not even")))
    else if kind == Kinds.dont_fragment
    then ok Attribute.dont_fragment
    else if kind == Kinds.fingerprint
    then read_u32 (codes "FINGERPRINT shorter than 4 bytes") value Attribute.fingerprint
    else ok (Attribute.unknown kind value)

-- A length rounded up to a multiple of four, `(len + 3) & !3`.
abbrev pub padded : ℕ → ℕ
padded len = (len + 3) / 4 * 4

-- The loop of `Message::parse` over the rest of the body; each round takes four bytes or more.
unfoldable pub parse_loop : ℕ → Bytes → Bytes → Result (List Attribute)
unfolding decode_attribute
parse_loop zero rest txid = ok []
parse_loop (suc fuel) rest txid =
    let len = from_be_bytes (slice 2 2 rest) in
    let more = parse_loop fuel (drop (4 + padded len) rest) txid in
    if length rest == 0
    then ok []
    else if ltb (length rest) 4
    then err truncated_attribute
    else if ltb (length rest) (4 + len)
    then err truncated_value
    else (decode_attribute (from_be_bytes (take 2 rest)) (slice 4 len rest) txid >>= λ a.
        if ltb (length rest) (4 + padded len)
        then err truncated_value
        else (more >>= λ found. ok (a ∷ found)))

-- `Message::parse`
unfoldable pub parse : Bytes → Result Message
unfolding parse_loop
parse buf =
    let declared = from_be_bytes (slice 2 2 buf) in
    let txid = slice 8 12 buf in
    let body = slice header_len declared buf in
    if ltb (length buf) header_len
    then err too_short
    else if not (declared % 4 == 0)
    then err unpadded_length
    else if not (from_be_bytes (slice 4 4 buf) == magic_cookie)
    then err bad_magic_cookie
    else if ltb (length buf - header_len) declared
    then err (length_mismatch declared (length buf - header_len))
    else (parse_loop (length body) body txid >>= λ found.
        ok (record { typ = from_be_bytes (take 2 buf); txid = txid; attributes = found }))
