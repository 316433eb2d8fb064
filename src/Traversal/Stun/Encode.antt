-- ===== src/Traversal/Stun/Encode.antt =====
-- Writing a STUN message: `encode` and `encode_with_integrity` of src/ghost/net/stun.rs.
use vantablack.Prelude.{
  ℕ, ◌+◌, ◌-◌, ◌/◌, ◌%◌, ◌^◌, bit_and, Bool, true, false, List, [], ◌∷◌, ◌++◌, length, take, drop,
  if◌then◌else◌, ◌≡◌,
}
use Prim.Native.Nat.{bit_xor}
use vantablack.Prelude.Bytes.{Bytes, codes, to_be_bytes}
use vantablack.Prelude.Xor.{xor_bytes}
use vantablack.Prelude.Tables.{pad}
use vantablack.Traversal.Address.{SocketAddr, IpAddr, v4, v6}
use vantablack.Traversal.Stun.{
  Attribute, Message, Result, ok, err, malformed, kind, magic_cookie, header_len, integrity_size,
  fingerprint_size, fingerprint_xor,
}
use vantablack.Traversal.Stun.Kinds

-- The crates `hmac`, `sha1` and `md5`. `hmac` documents that a key may have any length, and a tag
-- of HMAC-SHA1 has 20 bytes.
pub record Crypto : Type 0 where
  pub accepts_key : Bytes → Bool
  pub hmac_sha1 : Bytes → Bytes → Bytes
  pub md5 : Bytes → Bytes
  pub accepts_key_any : (key : Bytes) → accepts_key key ≡ true
  pub length-hmac_sha1 : (key m : Bytes) → length (hmac_sha1 key m) ≡ 20

-- The port, and the masks of `encode_address` and `decode_address`.
abbrev pub mask_port : Bool → ℕ → ℕ
mask_port true port = bit_xor port (magic_cookie / 2 ^ 16)
mask_port false port = port

abbrev pub mask_v4 : Bool → Bytes → Bytes
mask_v4 true raw = xor_bytes raw (to_be_bytes 4 magic_cookie)
mask_v4 false raw = raw

abbrev pub mask_v6 : Bool → Bytes → Bytes → Bytes
mask_v6 true txid raw = xor_bytes raw (to_be_bytes 4 magic_cookie ++ txid)
mask_v6 false txid raw = raw

abbrev pub encode_ip : IpAddr → ℕ → Bytes → Bool → Bytes
encode_ip (v4 octets) port txid xor =
    0 ∷ 1 ∷ (to_be_bytes 2 (mask_port xor port) ++ mask_v4 xor octets)
encode_ip (v6 octets) port txid xor =
    0 ∷ 2 ∷ (to_be_bytes 2 (mask_port xor port) ++ mask_v6 xor txid octets)

unfoldable pub encode_address : SocketAddr → Bytes → Bool → Bytes
unfolding xor_bytes
encode_address addr txid xor = encode_ip addr.ip addr.port txid xor

abbrev pub encode_words : List ℕ → Bytes
encode_words [] = []
encode_words (k ∷ list) = to_be_bytes 2 k ++ encode_words list

-- `Attribute::encode_value`
unfoldable pub encode_value : Attribute → Bytes → Bytes
unfolding encode_address
encode_value (Attribute.mapped_address a) txid = encode_address a txid false
encode_value (Attribute.xor_mapped_address a) txid = encode_address a txid true
encode_value (Attribute.username u) txid = u
encode_value (Attribute.message_integrity h) txid = h
encode_value (Attribute.error_code code reason) txid =
    0 ∷ 0 ∷ bit_and (code / 100 % 2 ^ 8) 7 ∷ code % 100 % 2 ^ 8 ∷ reason
encode_value (Attribute.priority p) txid = to_be_bytes 4 p
encode_value Attribute.use_candidate txid = []
encode_value (Attribute.ice_controlled t) txid = to_be_bytes 8 t
encode_value (Attribute.ice_controlling t) txid = to_be_bytes 8 t
encode_value (Attribute.software s) txid = s
encode_value (Attribute.fingerprint c) txid = to_be_bytes 4 c
encode_value (Attribute.xor_peer_address a) txid = encode_address a txid true
encode_value (Attribute.xor_relayed_address a) txid = encode_address a txid true
encode_value (Attribute.payload d) txid = d
encode_value (Attribute.realm s) txid = s
encode_value (Attribute.nonce s) txid = s
encode_value (Attribute.requested_transport proto) txid = proto ∷ 0 ∷ 0 ∷ 0 ∷ []
encode_value (Attribute.lifetime secs) txid = to_be_bytes 4 secs
encode_value (Attribute.channel_number n) txid = to_be_bytes 2 n ++ (0 ∷ 0 ∷ [])
encode_value (Attribute.unknown_attributes list) txid = encode_words list
encode_value Attribute.dont_fragment txid = []
encode_value (Attribute.unknown k value) txid = value

-- `Attribute::encode_into`: the new `out`.
unfoldable pub encode_into : Attribute → Bytes → Bytes → Bytes
unfolding encode_value pad
encode_into a txid out =
    let value = encode_value a txid in
    pad (((out ++ to_be_bytes 2 (kind a)) ++ to_be_bytes 2 (length value % 2 ^ 16)) ++ value)

unfoldable pub encode_all : List Attribute → Bytes → Bytes → Bytes
unfolding encode_into
encode_all [] txid out = out
encode_all (a ∷ more) txid out = encode_all more txid (encode_into a txid out)

-- `write_header`
abbrev pub write_header : Message → ℕ → Bytes
write_header m attr_len =
    ((to_be_bytes 2 m.typ ++ to_be_bytes 2 attr_len) ++ to_be_bytes 4 magic_cookie) ++ m.txid

-- `out[2..4].copy_from_slice(&(n as u16).to_be_bytes())`
abbrev pub set_length : ℕ → Bytes → Bytes
set_length n out = take 2 out ++ (to_be_bytes 2 (n % 2 ^ 16) ++ drop 4 out)

-- `Message::encode`
unfoldable pub encode : Message → Bytes
unfolding encode_all
encode m =
    let out = encode_all m.attributes m.txid (write_header m 0) in
    set_length (length out - header_len) out

-- One attribute of a digest is kept out of the message that is sealed.
abbrev pub is_digest : Attribute → Bool
is_digest (Attribute.message_integrity h) = true
is_digest (Attribute.fingerprint c) = true
is_digest _ = false

abbrev pub strip : List Attribute → List Attribute
strip [] = []
strip (a ∷ more) = if is_digest a then strip more else a ∷ strip more

-- `crc32_ieee`: eight rounds for each byte.
unfoldable pub crc_round : ℕ → ℕ
crc_round crc =
    let mask = (2 ^ 32 - bit_and crc 1) % 2 ^ 32 in bit_xor (crc / 2) (bit_and 0xedb88320 mask)

abbrev pub crc_byte : ℕ → ℕ → ℕ
crc_byte crc byte = crc_round (
    crc_round
      (crc_round (crc_round (crc_round (crc_round (crc_round (crc_round (bit_xor crc byte))))))))

abbrev pub crc_loop : ℕ → Bytes → ℕ
crc_loop crc [] = crc
crc_loop crc (byte ∷ more) = crc_loop (crc_byte crc byte) more

unfoldable pub crc32_ieee : Bytes → ℕ
unfolding crc_round
crc32_ieee bytes = 2 ^ 32 - 1 - crc_loop 0xffffffff bytes

module _ (c : Crypto) where
  -- `encode_with_integrity` once the attributes are written: the two digests.
  unfoldable pub add_fingerprint : Bytes → Bytes
  unfolding crc32_ieee
  add_fingerprint out =
      let out = set_length (length out - header_len + fingerprint_size) out in
      let crc = bit_xor (crc32_ieee out) fingerprint_xor in
      ((out ++ to_be_bytes 2 Kinds.fingerprint) ++ to_be_bytes 2 4) ++ to_be_bytes 4 crc

  unfoldable pub add_integrity : Bytes → Bytes → Bytes
  add_integrity key out =
      let out = set_length (length out - header_len + integrity_size) out in
      ((out ++ to_be_bytes 2 Kinds.message_integrity) ++ to_be_bytes 2 20) ++ c.hmac_sha1 key out

  -- `Message::encode_with_integrity`
  unfoldable pub encode_with_integrity : Bytes → Message → Result Bytes
  unfolding encode_all add_integrity add_fingerprint
  encode_with_integrity key m =
      let out = encode_all (strip m.attributes) m.txid (write_header m 0) in
      if c.accepts_key key
      then ok (add_fingerprint (add_integrity key out))
      else err (malformed (codes "bad HMAC key"))

  -- `long_term_key`
  unfoldable pub long_term_key : Bytes → Bytes → Bytes → Bytes
  long_term_key username realm password =
      c.md5 (username ++ (codes ":" ++ (realm ++ (codes ":" ++ password))))
