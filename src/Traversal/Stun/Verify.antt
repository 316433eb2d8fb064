-- ===== src/Traversal/Stun/Verify.antt =====
-- Checking the digests of a datagram: `verify_integrity` and `verify_fingerprint` of
-- src/ghost/net/stun.rs.
use Prim.Native.Nat.{bit_xor}
use vantablack.Prelude.{
  ℕ, zero, suc, ◌+◌, ◌-◌, ◌%◌, ◌^◌, min, ◌||◌, Option, none, some, length, take, ltb, ◌==◌,
  if◌then◌else◌, ◌++◌,
}
use vantablack.Prelude.Bytes.{Bytes, codes, to_be_bytes, from_be_bytes, equal, slice}
use vantablack.Traversal.Stun.{
  Result, ok, err, malformed, header_len, integrity_size, fingerprint_size, fingerprint_xor,
  missing_integrity, bad_integrity, missing_fingerprint, bad_fingerprint,
}
use vantablack.Traversal.Stun.Encode.{Crypto, set_length, crc32_ieee}
use vantablack.Traversal.Stun.Decode.{padded}
use vantablack.Traversal.Stun.Kinds

-- The loop of `find_raw_attribute`; each round takes four bytes or more.
unfoldable pub find_loop : ℕ → ℕ → ℕ → Bytes → ℕ → Option (ℕ × ℕ)
find_loop zero pos end buf want = none
find_loop (suc fuel) pos end buf want =
    let len = from_be_bytes (slice (pos + 2) 2 buf) in
    let more = find_loop fuel (pos + (4 + padded len)) end buf want in
    if ltb end (pos + 4)
    then none
    else if from_be_bytes (slice pos 2 buf) == want
    then some (pos, len)
    else more

-- `find_raw_attribute`
unfoldable pub find_raw_attribute : Bytes → ℕ → Option (ℕ × ℕ)
unfolding find_loop
find_raw_attribute buf want =
    let end = min (header_len + from_be_bytes (slice 2 2 buf)) (length buf) in
    if ltb (length buf) 4 then none else find_loop (length buf) header_len end buf want

module _ (c : Crypto) where
  abbrev pub verify_integrity_at : Option (ℕ × ℕ) → Bytes → Bytes → Result (Unit {0})
  verify_integrity_at none buf key = err missing_integrity
  verify_integrity_at (some (off, len)) buf key =
      let covered_len = (off - header_len + integrity_size) % 2 ^ 16 in
      let covered = take 2 buf ++ (to_be_bytes 2 covered_len ++ slice 4 (off - 4) buf) in
      if ltb (length buf) (off + integrity_size) || ltb off header_len
      then err bad_integrity
      else if c.accepts_key key
      then (if equal (c.hmac_sha1 key covered) (slice (off + 4) 20 buf)
          then ok tt
          else err bad_integrity)
      else err (malformed (codes "bad HMAC key"))

  -- `verify_integrity`
  unfoldable pub verify_integrity : Bytes → Bytes → Result (Unit {0})
  unfolding find_raw_attribute
  verify_integrity buf key =
      verify_integrity_at (find_raw_attribute buf Kinds.message_integrity) buf key

unfoldable pub verify_fingerprint_at : Option (ℕ × ℕ) → Bytes → Result (Unit {0})
unfolding crc32_ieee
verify_fingerprint_at none buf = err missing_fingerprint
verify_fingerprint_at (some (off, len)) buf =
    let covered = set_length (off - header_len + fingerprint_size) (take off buf) in
    if ltb (length buf) (off + fingerprint_size) || ltb off header_len
    then err bad_fingerprint
    else if bit_xor (crc32_ieee covered) fingerprint_xor == from_be_bytes (slice (off + 4) 4 buf)
    then ok tt
    else err bad_fingerprint

-- `verify_fingerprint`
unfoldable pub verify_fingerprint : Bytes → Result (Unit {0})
unfolding find_raw_attribute verify_fingerprint_at
verify_fingerprint buf = verify_fingerprint_at (find_raw_attribute buf Kinds.fingerprint) buf
