-- ===== src/Traversal/Stun/Values.antt =====
-- Each attribute's value is read back: `decode_attribute` after `encode_value`.
use vantablack.Prelude.{
  ℕ, ◌+◌, ◌*◌, ◌/◌, ◌%◌, ◌^◌, ◌<◌, ◌≡◌, refl, ap₂, ◌∙◌, bit_and, Bool, true, false, List, [], ◌∷◌,
  length, All, take_all, mem, ==_iff, ◌==◌, arith,
}
use vantablack.Prelude.Bytes.{Bytes, from_be_bytes-to_be_bytes}
use vantablack.Prelude.Utf8.{is_utf8, from_utf8_lossy_text}
use vantablack.Prelude.Tables.{tabulated, tabulated_lem}
use vantablack.Prelude.Xor.{
  IsByte, bit_xor-lt-pow, bit_xor_twice, length-xor_bytes, xor_bytes_twice,
}
use vantablack.Traversal.Address.{SocketAddr, IsAddr, IsIpAddr, IpAddr, v4, v6}
use vantablack.Traversal.Stun.{Attribute, ok, kind}
use vantablack.Traversal.Stun.Encode.{
  encode_value, encode_address, encode_ip, mask_port, mask_v4, mask_v6, encode_words,
}
use vantablack.Traversal.Stun.Decode.{decode_address, decode_attribute, decode_words}
use vantablack.Traversal.Stun.Kinds

-- What the program puts in an attribute: words of its width, texts, and in an attribute that is
-- kept as it came a kind that is not decoded otherwise.
abbrev pub IsAttribute : Attribute → Type 0
IsAttribute (Attribute.mapped_address a) = IsAddr a
IsAttribute (Attribute.xor_mapped_address a) = IsAddr a
IsAttribute (Attribute.username u) = Unit {0}
IsAttribute (Attribute.message_integrity h) = length h ≡ 20
IsAttribute (Attribute.error_code code reason) = (code < 800) × (is_utf8 reason ≡ true)
IsAttribute (Attribute.priority p) = p < 2 ^ 32
IsAttribute Attribute.use_candidate = Unit {0}
IsAttribute (Attribute.ice_controlled t) = t < 2 ^ 64
IsAttribute (Attribute.ice_controlling t) = t < 2 ^ 64
IsAttribute (Attribute.software s) = is_utf8 s ≡ true
IsAttribute (Attribute.fingerprint c) = c < 2 ^ 32
IsAttribute (Attribute.xor_peer_address a) = IsAddr a
IsAttribute (Attribute.xor_relayed_address a) = IsAddr a
IsAttribute (Attribute.payload d) = Unit {0}
IsAttribute (Attribute.realm s) = is_utf8 s ≡ true
IsAttribute (Attribute.nonce s) = is_utf8 s ≡ true
IsAttribute (Attribute.requested_transport p) = Unit {0}
IsAttribute (Attribute.lifetime s) = s < 2 ^ 32
IsAttribute (Attribute.channel_number n) = n < 2 ^ 16
IsAttribute (Attribute.unknown_attributes l) = All (λ k. k < 2 ^ 16) l
IsAttribute Attribute.dont_fragment = Unit {0}
IsAttribute (Attribute.unknown k v) = (k < 2 ^ 16) × (mem k Kinds.known ≡ false)

abbrev pub IsTxid : Bytes → Type 0
IsTxid txid = (length txid ≡ 12) × All IsByte txid

mask_port_twice :
    (xor : Bool) (p : ℕ)
    → p < 2 ^ 16
    → (mask_port xor (mask_port xor p) ≡ p) × (mask_port xor p < 256 ^ 2)
mask_port_twice true p h =
    (bit_xor_twice 16 p 0x2112 h (omega arith), bit_xor-lt-pow 16 p 0x2112 h (omega arith))
mask_port_twice false p h = (refl, h)

mask_v4_twice :
    (xor : Bool) (raw : Bytes)
    → All IsByte raw
    → (mask_v4 xor (mask_v4 xor raw) ≡ raw) × (length (mask_v4 xor raw) ≡ length raw)
mask_v4_twice true raw h = (
  xor_bytes_twice raw _ h (omega arith, (omega arith, (omega arith, (omega arith, tt)))),
  length-xor_bytes raw _,
)
mask_v4_twice false raw h = (refl, refl)

mask_v6_twice :
    (xor : Bool) (txid raw : Bytes)
    → All IsByte raw
    → All IsByte txid
    → (mask_v6 xor txid (mask_v6 xor txid raw) ≡ raw) × (length (mask_v6 xor txid raw) ≡ length raw)
mask_v6_twice true txid raw h k = (
  xor_bytes_twice raw _ h (omega arith, (omega arith, (omega arith, (omega arith, k)))),
  length-xor_bytes raw _,
)
mask_v6_twice false txid raw h k = (refl, refl)

decode_ip-encode_ip :
    (ip : IpAddr) (port : ℕ) (txid : Bytes) (xor : Bool)
    → IsIpAddr ip
    → port < 2 ^ 16
    → All IsByte txid
    → decode_address (encode_ip ip port txid xor) txid xor ≡ ok (record { ip = ip; port = port })
unfolding decode_address
decode_ip-encode_ip (v4 octets) port txid xor h p k =
    let masked = mask_v4_twice xor octets h.1 in
    let len : length (mask_v4 xor octets) ≡ 4 = masked.1 ∙ h.0 in
    let again = mask_port_twice xor port p in
    let word = from_be_bytes-to_be_bytes 2 (mask_port xor port) again.1 in
    rw (len, word, again.0, take_all 4 (mask_v4 xor octets) (omega (arith, len)), masked.0) refl
decode_ip-encode_ip (v6 octets) port txid xor h p k =
    let masked = mask_v6_twice xor txid octets h.1 k in
    let len : length (mask_v6 xor txid octets) ≡ 16 = masked.1 ∙ h.0 in
    let again = mask_port_twice xor port p in
    let word = from_be_bytes-to_be_bytes 2 (mask_port xor port) again.1 in
    rw (len, word, again.0, take_all 16 (mask_v6 xor txid octets) (omega (arith, len)), masked.0)
      refl

decode_address-encode_address :
    (a : SocketAddr) (txid : Bytes) (xor : Bool)
    → IsAddr a
    → All IsByte txid
    → decode_address (encode_address a txid xor) txid xor ≡ ok a
unfolding encode_address
decode_address-encode_address a txid xor h k = decode_ip-encode_ip a.ip a.port txid xor h.0 h.1 k

decode_words-encode_words :
    (l : List ℕ)
    → All (λ k. k < 2 ^ 16) l
    → (decode_words (encode_words l) ≡ l) × (length (encode_words l) % 2 ≡ 0)
decode_words-encode_words [] h = (refl, refl)
decode_words-encode_words (k ∷ l) h =
    let rest = decode_words-encode_words l h.1 in
    (
      ap₂ (λ x xs. x ∷ xs) (from_be_bytes-to_be_bytes 2 k (omega (arith, h.0))) rest.0,
      omega (arith, rest.1),
    )

abbrev code_kept : ℕ → Bool
code_kept code = bit_and (bit_and (code / 100 % 2 ^ 8) 7) 7 * 100 + code % 100 % 2 ^ 8 == code

code_table : tabulated code_kept 800 ≡ true
unfolding tabulated
code_table = refl

module _ (txid : Bytes) (t : All IsByte txid) where
  -- An attribute is read back from its value under its kind.
  pub decode_attribute-encode_value :
      (a : Attribute) → IsAttribute a → decode_attribute (kind a) (encode_value a txid) txid ≡ ok a
  unfolding decode_attribute encode_value
  decode_attribute-encode_value (Attribute.mapped_address a) h =
      rw (decode_address-encode_address a txid false h t) refl
  decode_attribute-encode_value (Attribute.xor_mapped_address a) h =
      rw (decode_address-encode_address a txid true h t) refl
  decode_attribute-encode_value (Attribute.username u) h = refl
  decode_attribute-encode_value (Attribute.message_integrity m) h =
      rw (h, take_all 20 m (omega (arith, h))) refl
  decode_attribute-encode_value (Attribute.error_code code reason) h =
      let code_same = (==_iff _ code).0 (tabulated_lem code_kept h.0 code_table) in
      rw (code_same, from_utf8_lossy_text reason h.1) (ground arith)
  decode_attribute-encode_value (Attribute.priority p) h = rw (from_be_bytes-to_be_bytes 4 p h) refl
  decode_attribute-encode_value Attribute.use_candidate h = refl
  decode_attribute-encode_value (Attribute.ice_controlled n) h =
      rw (from_be_bytes-to_be_bytes 8 n h) refl
  decode_attribute-encode_value (Attribute.ice_controlling n) h =
      rw (from_be_bytes-to_be_bytes 8 n h) refl
  decode_attribute-encode_value (Attribute.software s) h = rw (from_utf8_lossy_text s h) refl
  decode_attribute-encode_value (Attribute.fingerprint c) h =
      rw (from_be_bytes-to_be_bytes 4 c h) refl
  decode_attribute-encode_value (Attribute.xor_peer_address a) h =
      rw (decode_address-encode_address a txid true h t) refl
  decode_attribute-encode_value (Attribute.xor_relayed_address a) h =
      rw (decode_address-encode_address a txid true h t) refl
  decode_attribute-encode_value (Attribute.payload d) h = refl
  decode_attribute-encode_value (Attribute.realm s) h = rw (from_utf8_lossy_text s h) refl
  decode_attribute-encode_value (Attribute.nonce s) h = rw (from_utf8_lossy_text s h) refl
  decode_attribute-encode_value (Attribute.requested_transport p) h = refl
  decode_attribute-encode_value (Attribute.lifetime s) h = rw (from_be_bytes-to_be_bytes 4 s h) refl
  decode_attribute-encode_value (Attribute.channel_number n) h =
      rw (from_be_bytes-to_be_bytes 2 n h) refl
  decode_attribute-encode_value (Attribute.unknown_attributes l) h =
      let words = decode_words-encode_words l h in rw (words.1, words.0) refl
  decode_attribute-encode_value Attribute.dont_fragment h = refl
  decode_attribute-encode_value (Attribute.unknown k v) h = ground arith
