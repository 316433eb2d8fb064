-- ===== src/Traversal/Stun/Sealed.antt =====
-- A sealed STUN message passes both checks and is read back.
use Prim.Native.Nat.{bit_xor}
use vantablack.Prelude.{
  ℕ, ◌+◌, ◌-◌, ◌^◌, ◌<◌, ◌≡◌, refl, sym, ap, ap₂, ◌∙◌, false, List, [], ◌∷◌, ◌++◌, drop-drop,
  append_assoc, append-nil, length, length-append, All, All-append, arith, take, drop, ltb, ◌==◌,
  ◌||◌, some,
}
use vantablack.Prelude.Bytes.{
  Bytes, to_be_bytes, from_be_bytes, from_be_bytes-to_be_bytes, slice, slice_piece,
}
use vantablack.Prelude.Xor.{bit_xor-lt-pow}
use vantablack.Traversal.Stun.{Attribute, Message, ok, kind, header_len, fingerprint_xor}
use vantablack.Traversal.Stun.Encode.{
  Crypto, add_integrity, add_fingerprint, encode_with_integrity, encode_value, write_header, strip,
  set_length, crc32_ieee,
}
use vantablack.Traversal.Stun.Decode.{parse}
use vantablack.Traversal.Stun.Verify.{
  find_raw_attribute, verify_integrity, verify_fingerprint, verify_integrity_at,
  verify_fingerprint_at,
}
use vantablack.Traversal.Stun.Values.{IsAttribute, IsTxid}
use vantablack.Traversal.Stun.Layout.{
  piece, body, length-body-four, body-append, Short, Short-body, encode_all-body,
  length-write_header,
}
use vantablack.Traversal.Stun.RoundTrip.{parse_header, parse_loop-body, length-le-body}
use vantablack.Traversal.Stun.Integrity.{
  IsPlain, strip-IsPlain, found_in, length-found_in, drop-offset, find_raw_attribute-found_in,
  covered_lem, take-offset,
}
use vantablack.Traversal.Stun.Kinds
use vantablack.Traversal.Stun.Digests.{
  IsPlain-built, IsPlain-integrity, IsPlain-fingerprint, taken, crc32_ieee-lt, piece-integrity,
  piece-fingerprint, roomy, verify_integrity_at-tagged, verify_fingerprint_at-summed,
}

-- The message `m` sealed under a key.
module _ (c : Crypto) (key : Bytes) (m : Message) (t : IsTxid m.txid) (typed : m.typ < 2 ^ 16)
    (built : All IsAttribute m.attributes)
    (fits : length (body m.txid (strip m.attributes)) + 32 < 2 ^ 16) where
  abbrev base : List Attribute
  base = strip m.attributes

  abbrev b : Bytes
  b = body m.txid base

  abbrev tag : Bytes
  tag = c.hmac_sha1 key (write_header m (length b + 24) ++ b)

  abbrev with_tag : List Attribute
  with_tag = base ++ (Attribute.message_integrity tag ∷ [])

  abbrev crc : ℕ
  crc =
      bit_xor (crc32_ieee (write_header m (length b + 32) ++ body m.txid with_tag)) fingerprint_xor

  abbrev sealed : List Attribute
  sealed = with_tag ++ (Attribute.fingerprint crc ∷ [])

  abbrev bytes : Bytes
  bytes = write_header m (length b + 32) ++ body m.txid sealed

  length-tag : length tag ≡ 20
  length-tag = c.length-hmac_sha1 key _

  plain : All IsPlain base
  plain = strip-IsPlain m.attributes built

  short : All (Short m.txid) base
  short = Short-body m.txid base (omega (arith, fits))

  body-with_tag : body m.txid with_tag ≡ b ++ piece m.txid (Attribute.message_integrity tag)
  body-with_tag =
      body-append m.txid base (Attribute.message_integrity tag ∷ [])
      ∙ ap (λ r. b ++ r) (append-nil _)

  length-with_tag : length (body m.txid with_tag) ≡ length b + 24
  length-with_tag =
      ap length (body-with_tag ∙ ap (λ r. b ++ r) (piece-integrity m.txid tag length-tag))
      ∙ omega (arith, length-append b (to_be_bytes 2 8 ++ (to_be_bytes 2 20 ++ tag)), length-tag)

  body-sealed :
      body m.txid sealed ≡ body m.txid with_tag ++ piece m.txid (Attribute.fingerprint crc)
  body-sealed =
      body-append m.txid with_tag (Attribute.fingerprint crc ∷ [])
      ∙ ap (λ r. body m.txid with_tag ++ r) (append-nil _)

  length-sealed : length (body m.txid sealed) ≡ length b + 32
  length-sealed =
      ap length body-sealed
      ∙ omega (
        arith,
        length-append (body m.txid with_tag) (piece m.txid (Attribute.fingerprint crc)),
        ap length (piece-fingerprint m.txid crc),
        length-with_tag,
      )

  crc-lt : crc < 2 ^ 32
  crc-lt = bit_xor-lt-pow 32 _ fingerprint_xor (crc32_ieee-lt _) (omega arith)

  -- A header with the length field set to what is added.
  set_total :
      (n k add total : ℕ) (r : Bytes)
      → n ≡ length r
      → total ≡ n + add
      → total < 2 ^ 16
      → set_length (length (write_header m k ++ r) - header_len + add) (write_header m k ++ r)
        ≡ write_header m total ++ r
  set_total n k add total r e s lt =
      ap (λ l. write_header m l ++ r)
        (omega (arith, length-append (write_header m k) r, length-write_header m k t.0, e, s, lt))

  add_integrity-header :
      add_integrity c key (write_header m 0 ++ b)
      ≡ write_header m (length b + 24) ++ body m.txid with_tag
  unfolding add_integrity
  add_integrity-header =
      let out = write_header m (length b + 24) ++ b in
      ap (λ o. ((o ++ to_be_bytes 2 8) ++ to_be_bytes 2 20) ++ c.hmac_sha1 key o)
        (set_total (length b) 0 24 (length b + 24) b refl refl (omega (arith, fits)))
      ∙ (simp append_assoc)
      ∙ ap (λ r. write_header m (length b + 24) ++ r)
          (ap (λ r. b ++ r) (sym (piece-integrity m.txid tag length-tag)) ∙ sym body-with_tag)

  add_fingerprint-header :
      add_fingerprint c (write_header m (length b + 24) ++ body m.txid with_tag) ≡ bytes
  unfolding add_fingerprint
  add_fingerprint-header =
      ap
        (λ o.
          ((o ++ to_be_bytes 2 0x8028) ++ to_be_bytes 2 4)
          ++ to_be_bytes 4 (bit_xor (crc32_ieee o) fingerprint_xor))
        (set_total (length b + 24) (length b + 24) 8 (length b + 32) (body m.txid with_tag)
          (sym length-with_tag) (omega arith) fits)
      ∙ (simp append_assoc)
      ∙ ap (λ r. write_header m (length b + 32) ++ r)
          (ap (λ r. body m.txid with_tag ++ r) (sym (piece-fingerprint m.txid crc))
            ∙ sym body-sealed)

  encode_with_integrity-bytes : encode_with_integrity c key m ≡ ok bytes
  unfolding encode_with_integrity
  encode_with_integrity-bytes =
      let head = length-write_header m 0 t.0 in
      let written = encode_all-body m.txid (write_header m 0) base (omega (arith, head)) short in
      taken (c.accepts_key key) _ _ (c.accepts_key_any key)
      ∙ ap ok (
          ap (λ o. add_fingerprint c (add_integrity c key o)) written
          ∙ ap (add_fingerprint c) add_integrity-header
          ∙ add_fingerprint-header)

  parse-bytes : parse bytes ≡ ok (record m { attributes = sealed })
  parse-bytes =
      let whole =
        All-append IsAttribute with_tag (Attribute.fingerprint crc ∷ [])
          (All-append IsAttribute base (Attribute.message_integrity tag ∷ [])
            (IsPlain-built base plain) (length-tag, tt))
          (crc-lt, tt) in
      parse_header m (length b + 32) (body m.txid sealed) sealed typed t.0 length-sealed fits
        (omega (arith, length-body-four m.txid base))
        (parse_loop-body (length (body m.txid sealed)) m.txid sealed t whole
          (Short-body m.txid sealed (omega (arith, length-sealed, fits)))
          (length-le-body m.txid sealed))

  in_integrity :
      bytes
      ≡ found_in m
          (length b + 32)
          base
          (Attribute.message_integrity tag)
          (piece m.txid (Attribute.fingerprint crc))
  in_integrity =
      ap (λ r. write_header m (length b + 32) ++ r)
        (body-sealed
          ∙ ap (λ r. r ++ piece m.txid (Attribute.fingerprint crc)) body-with_tag
          ∙ append_assoc b (piece m.txid (Attribute.message_integrity tag)) _)

  in_fingerprint : bytes ≡ found_in m (length b + 32) with_tag (Attribute.fingerprint crc) []
  in_fingerprint =
      ap (λ r. write_header m (length b + 32) ++ r)
        (body-sealed ∙ ap (λ r. body m.txid with_tag ++ r) (sym (append-nil _)))

  tagged_fits : All (Short m.txid) with_tag
  tagged_fits = Short-body m.txid with_tag (omega (arith, length-with_tag, fits))

  size_integrity :
      length b + 32
      ≡ length b
        + (length (piece m.txid (Attribute.message_integrity tag))
            + length (piece m.txid (Attribute.fingerprint crc)))
  size_integrity = omega (
    arith,
    length-with_tag,
    ap length body-with_tag,
    length-append b (piece m.txid (Attribute.message_integrity tag)),
    ap length (piece-fingerprint m.txid crc),
  )

  size_fingerprint :
      length b + 32
      ≡ length (body m.txid with_tag) + (length (piece m.txid (Attribute.fingerprint crc)) + 0)
  size_fingerprint = omega (arith, length-with_tag, ap length (piece-fingerprint m.txid crc))

  found_integrity : find_raw_attribute bytes Kinds.message_integrity ≡ some (20 + length b, 20)
  unfolding encode_value
  found_integrity =
      ap (λ r. find_raw_attribute r Kinds.message_integrity) in_integrity
      ∙ find_raw_attribute-found_in m (length b + 32) base (Attribute.message_integrity tag)
          (piece m.txid (Attribute.fingerprint crc)) t.0 short fits size_integrity
          Kinds.message_integrity (IsPlain-integrity base plain) (omega (arith, length-tag)) refl
          (omega arith)
      ∙ ap (λ l. some (20 + length b, l)) length-tag

  found_fingerprint : find_raw_attribute bytes Kinds.fingerprint ≡ some (20 + (length b + 24), 4)
  unfolding encode_value
  found_fingerprint =
      ap (λ r. find_raw_attribute r Kinds.fingerprint) in_fingerprint
      ∙ find_raw_attribute-found_in m (length b + 32) with_tag (Attribute.fingerprint crc) [] t.0
          tagged_fits fits size_fingerprint Kinds.fingerprint
          (All-append (λ a. IsAttribute a × ((kind a == Kinds.fingerprint) ≡ false)) base
            (Attribute.message_integrity tag ∷ []) (IsPlain-fingerprint base plain)
            ((length-tag, refl), tt))
          (omega arith) refl (omega arith)
      ∙ ap (λ l. some (20 + l, 4)) length-with_tag

  verified_integrity : verify_integrity c bytes key ≡ ok tt
  unfolding verify_integrity
  verified_integrity =
      let fp = piece m.txid (Attribute.fingerprint crc) in
      let mi = Attribute.message_integrity tag in
      let size : length bytes ≡ 20 + (length b + 32) =
        ap length in_integrity
        ∙ length-found_in m (length b + 32) base mi fp t.0 short fits size_integrity in
      let room : (ltb (length bytes) (20 + length b + 24) || ltb (20 + length b) 20) ≡ false =
        roomy (length bytes) (20 + length b) 24 (omega (arith, size)) (omega arith) in
      let at_digest : drop (20 + length b) bytes ≡ piece m.txid mi ++ fp =
        ap (drop (20 + length b)) in_integrity
        ∙ drop-offset m (length b + 32) base mi fp t.0 short fits size_integrity in
      ap (λ o. verify_integrity_at c o bytes key) found_integrity
      ∙ verify_integrity_at-tagged c bytes key (write_header m (length b + 24) ++ b) (20 + length b)
          20 (length b + 24) room (omega (arith, fits))
          (ap (λ r. take 2 r ++ (to_be_bytes 2 (length b + 24) ++ slice 4 (20 + length b - 4) r))
              in_integrity
            ∙ covered_lem m (length b + 32) base mi fp t.0 short fits size_integrity
                (length b + 24))
          (slice_piece (20 + length b + 4) 20 bytes tag fp
            (sym (drop-drop 4 (20 + length b) bytes)
              ∙ ap (drop 4) (at_digest ∙ ap (λ r. r ++ fp) (piece-integrity m.txid tag length-tag)))
            (sym length-tag))

  verified_fingerprint : verify_fingerprint bytes ≡ ok tt
  unfolding verify_fingerprint
  verified_fingerprint =
      let fp = Attribute.fingerprint crc in
      let off : ℕ = 20 + (length b + 24) in
      let from : 20 + length (body m.txid with_tag) ≡ off = ap (λ l. 20 + l) length-with_tag in
      let size : length bytes ≡ 20 + (length b + 32) =
        ap length in_fingerprint
        ∙ length-found_in m (length b + 32) with_tag fp [] t.0 tagged_fits fits size_fingerprint in
      let room : (ltb (length bytes) (off + 8) || ltb off 20) ≡ false =
        roomy (length bytes) off 8 (omega (arith, size)) (omega arith) in
      let at_digest : drop off bytes ≡ piece m.txid fp ++ [] =
        ap₂ drop (sym from) in_fingerprint
        ∙ drop-offset m (length b + 32) with_tag fp [] t.0 tagged_fits fits size_fingerprint in
      let before : take off bytes ≡ write_header m (length b + 32) ++ body m.txid with_tag =
        ap₂ take (sym from) in_fingerprint
        ∙ take-offset m (length b + 32) with_tag fp [] t.0 tagged_fits fits size_fingerprint in
      ap (λ o. verify_fingerprint_at o bytes) found_fingerprint
      ∙ verify_fingerprint_at-summed bytes (write_header m (length b + 32) ++ body m.txid with_tag)
          off 4 crc room
          (ap (set_length (off - 20 + 8)) before
            ∙ ap (λ l. write_header m l ++ body m.txid with_tag) (omega (arith, fits)))
          refl
          (ap from_be_bytes (
              slice_piece (off + 4) 4 bytes (to_be_bytes 4 crc) []
                (sym (drop-drop 4 off bytes)
                  ∙ ap (drop 4) (at_digest ∙ ap (λ r. r ++ []) (piece-fingerprint m.txid crc)))
                refl)
            ∙ from_be_bytes-to_be_bytes 4 crc crc-lt)

-- A STUN message whose type is a 16-bit word, whose transaction identifier has 12 bytes, whose
-- attributes hold what their types say and whose attributes but the digests take fewer than
-- 65,504 bytes, is sealed under a key to bytes that pass the checks of MESSAGE-INTEGRITY under
-- that key and of FINGERPRINT, and that are read back as the message with its old digests
-- replaced by the two new ones. HMAC-SHA1 is a parameter with tags of 20 bytes.
pub encode_with_integrity-verified :
    (c : Crypto) (key : Bytes) (m : Message)
    → m.typ < 2 ^ 16
    → IsTxid m.txid
    → All IsAttribute m.attributes
    → length (body m.txid (strip m.attributes)) + 32 < 2 ^ 16
    → (out : Bytes) × (tag : Bytes) × (crc : ℕ) × (encode_with_integrity c key m ≡ ok out)
      × (verify_integrity c out key ≡ ok tt)
      × (verify_fingerprint out ≡ ok tt)
      × (parse out
          ≡ ok (record m {
            attributes =
                (strip m.attributes ++ (Attribute.message_integrity tag ∷ []))
                ++ (Attribute.fingerprint crc ∷ []);
          }))
encode_with_integrity-verified c key m typed t built fits = (
  bytes c key m t typed built fits,
  tag c key m t typed built fits,
  crc c key m t typed built fits,
  encode_with_integrity-bytes c key m t typed built fits,
  verified_integrity c key m t typed built fits,
  verified_fingerprint c key m t typed built fits,
  parse-bytes c key m t typed built fits,
)
