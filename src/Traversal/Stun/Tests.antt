-- ===== src/Traversal/Stun/Tests.antt =====
-- The STUN codec on concrete messages.
use vantablack.Prelude.{ℕ, ◌+◌, ◌≡◌, ◌<◌, ◌^◌, refl, [], ◌∷◌, ◌++◌, length, All, arith}
use vantablack.Prelude.Bytes.{Bytes, codes}
use vantablack.Prelude.Utf8.{is_utf8}
use vantablack.Traversal.Samples.{sums, txid, client}
use vantablack.Traversal.Stun.{
  Attribute, Message, ok, binding_success, message_type, binding, request,
}
use vantablack.Traversal.Stun.Encode.{
  encode, encode_value, encode_with_integrity, crc32_ieee, strip,
}
use vantablack.Traversal.Stun.Decode.{parse, parse_loop}
use vantablack.Traversal.Stun.Verify.{verify_integrity, verify_fingerprint}
use vantablack.Traversal.Stun.Values.{IsTxid, IsAttribute}
use vantablack.Traversal.Stun.Layout.{body}
use vantablack.Traversal.Stun.RoundTrip.{IsMessage, parse-encode, parse_loop_enough}
use vantablack.Traversal.Stun.Sealed.{encode_with_integrity-verified}

abbrev mapped : Message
mapped = binding_success txid client

txid-IsTxid : IsTxid txid
txid-IsTxid = omega arith

mapped-IsMessage : IsMessage mapped
unfolding message_type encode_value is_utf8
mapped-IsMessage = record {
  typed = omega arith;
  identified = omega arith;
  built = (omega arith, (refl, tt));
  fits = omega arith;
}

parse-encode_example : parse (encode mapped) ≡ ok mapped
parse-encode_example = parse-encode mapped mapped-IsMessage

fits : length (body txid (strip mapped.attributes)) + 32 < 2 ^ 16
unfolding encode_value
fits = omega arith

typed : mapped.typ < 2 ^ 16
unfolding message_type
typed = omega arith

built : All IsAttribute mapped.attributes
unfolding is_utf8
built = (omega arith, (refl, tt))

encode_with_integrity-verified_example :
    (out : Bytes) × (tag : Bytes) × (crc : ℕ) × (encode_with_integrity sums (codes "secret") mapped
      ≡ ok out)
    × (verify_integrity sums out (codes "secret") ≡ ok tt)
    × (verify_fingerprint out ≡ ok tt)
    × (parse out
        ≡ ok (record mapped {
          attributes =
              (strip mapped.attributes ++ (Attribute.message_integrity tag ∷ []))
              ++ (Attribute.fingerprint crc ∷ []);
        }))
encode_with_integrity-verified_example =
    encode_with_integrity-verified sums (codes "secret") mapped typed txid-IsTxid built fits

parse_loop_enough_example :
    parse_loop 4 (0 ∷ 37 ∷ 0 ∷ 0 ∷ []) txid ≡ parse_loop 9 (0 ∷ 37 ∷ 0 ∷ 0 ∷ []) txid
parse_loop_enough_example =
    parse_loop_enough 4 9 (0 ∷ 37 ∷ 0 ∷ 0 ∷ []) txid (omega arith) (omega arith)

-- `crc32_matches_the_standard_vector`
crc32_ieee_check : crc32_ieee (codes "123456789") ≡ 0xcbf43926
unfolding crc32_ieee
crc32_ieee_check = refl

-- `binding_request_type_is_0x0001`
binding_type : message_type binding request ≡ 1
unfolding message_type
binding_type = refl
