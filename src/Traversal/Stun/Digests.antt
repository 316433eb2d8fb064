-- ===== src/Traversal/Stun/Digests.antt =====
-- The attributes of the two digests, and the comparison at a digest that is found.
use Prim.Native.Nat.{bit_xor}
use vantablack.Prelude.{
  ℕ, ◌+◌, ◌-◌, ◌%◌, ◌^◌, ◌<◌, ◌≤◌, ◌≡◌, refl, ap, ap₂, ◌∙◌, Bool, true, false, List, [], ◌∷◌, ◌++◌,
  append-nil, length, All, arith, take, ltb, ==_iff, ◌==◌, ◌||◌, if◌then◌else◌, some,
}
use vantablack.Prelude.Bytes.{Bytes, to_be_bytes, from_be_bytes, slice, equal_iff}
use vantablack.Traversal.Stun.{Attribute, ok, err, bad_fingerprint, kind, fingerprint_xor}
use vantablack.Traversal.Stun.Encode.{Crypto, encode_value, set_length, crc32_ieee}
use vantablack.Traversal.Stun.Verify.{verify_integrity_at, verify_fingerprint_at}
use vantablack.Traversal.Stun.Values.{IsAttribute}
use vantablack.Traversal.Stun.Layout.{piece}
use vantablack.Traversal.Stun.Integrity.{IsPlain}
use vantablack.Traversal.Stun.Kinds

pub IsPlain-built : (l : List Attribute) → All IsPlain l → All IsAttribute l
IsPlain-built [] h = tt
IsPlain-built (a ∷ l) h = (h.0.0, IsPlain-built l h.1)

pub IsPlain-integrity :
    (l : List Attribute)
    → All IsPlain l
    → All (λ a. IsAttribute a × ((kind a == Kinds.message_integrity) ≡ false)) l
IsPlain-integrity [] h = tt
IsPlain-integrity (a ∷ l) h = ((h.0.0, h.0.1), IsPlain-integrity l h.1)

pub IsPlain-fingerprint :
    (l : List Attribute)
    → All IsPlain l
    → All (λ a. IsAttribute a × ((kind a == Kinds.fingerprint) ≡ false)) l
IsPlain-fingerprint [] h = tt
IsPlain-fingerprint (a ∷ l) h = ((h.0.0, h.0.2), IsPlain-fingerprint l h.1)

pub taken : {A : Type 0} (b : Bool) (x y : A) → b ≡ true → (if b then x else y) ≡ x
taken true x y h = refl
taken false x y h = cc

pub crc32_ieee-lt : (b : Bytes) → crc32_ieee b < 2 ^ 32
unfolding crc32_ieee
crc32_ieee-lt b = omega arith

pub piece-integrity :
    (txid tag : Bytes)
    → length tag ≡ 20
    → piece txid (Attribute.message_integrity tag) ≡ to_be_bytes 2 8 ++ (to_be_bytes 2 20 ++ tag)
unfolding encode_value
piece-integrity txid tag h = rw (h, append-nil) refl

pub piece-fingerprint :
    (txid : Bytes) (crc : ℕ)
    → piece txid (Attribute.fingerprint crc)
      ≡ to_be_bytes 2 0x8028 ++ (to_be_bytes 2 4 ++ to_be_bytes 4 crc)
unfolding encode_value
piece-fingerprint txid crc = refl

pub roomy : (n off k : ℕ) → off + k ≤ n → 20 ≤ off → (ltb n (off + k) || ltb off 20) ≡ false
roomy n off k h l = ground arith

-- The comparison at a found digest.
module _ (c : Crypto) where
  pub verify_integrity_at-tagged :
      (buf key covered : Bytes) (off len k : ℕ)
      → (ltb (length buf) (off + 24) || ltb off 20) ≡ false
      → (off - 20 + 24) % 2 ^ 16 ≡ k
      → take 2 buf ++ (to_be_bytes 2 k ++ slice 4 (off - 4) buf) ≡ covered
      → slice (off + 4) 20 buf ≡ c.hmac_sha1 key covered
      → verify_integrity_at c (some (off, len)) buf key ≡ ok tt
  verify_integrity_at-tagged buf key covered off len k room n e h =
      rw (room, c.accepts_key_any key, n, e, h, (equal_iff (c.hmac_sha1 key covered) _).1 refl) refl

pub verify_fingerprint_at-summed :
    (buf covered : Bytes) (off len crc : ℕ)
    → (ltb (length buf) (off + 8) || ltb off 20) ≡ false
    → set_length (off - 20 + 8) (take off buf) ≡ covered
    → bit_xor (crc32_ieee covered) fingerprint_xor ≡ crc
    → from_be_bytes (slice (off + 4) 4 buf) ≡ crc
    → verify_fingerprint_at (some (off, len)) buf ≡ ok tt
unfolding verify_fingerprint_at
verify_fingerprint_at-summed buf covered off len crc room e d h =
    let same : (crc == crc) ≡ true = (==_iff crc crc).1 refl in
    ap
      (λ (t : Bool).
        if t
        then err bad_fingerprint
        else if bit_xor (crc32_ieee (set_length (off - 20 + 8) (take off buf))) fingerprint_xor
            == from_be_bytes (slice (off + 4) 4 buf)
        then ok tt
        else err bad_fingerprint)
      room
    ∙ ap₂ (λ (a b : ℕ). if a == b then ok tt else err bad_fingerprint)
        (ap (λ o. bit_xor (crc32_ieee o) fingerprint_xor) e ∙ d) h
    ∙ taken (crc == crc) _ _ same
