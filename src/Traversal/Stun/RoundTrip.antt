-- ===== src/Traversal/Stun/RoundTrip.antt =====
-- A STUN message that was written is read back.
use vantablack.Prelude.{
  ℕ, zero, suc, ◌+◌, ◌%◌, ◌^◌, ◌<◌, ◌≤◌, ◌≡◌, refl, sym, ap, ap₂, ◌∙◌, ◌/◌, true, false, List, [],
  ◌∷◌, ◌++◌, append_assoc, length, length-append, length-drop, length-replicate, replicate, All,
  arith, take, drop, take_prefix, drop_prefix, take_all, ltb, ◌==◌, ==_iff, if◌then◌else◌,
}
use vantablack.Prelude.Bytes.{Bytes, from_be_bytes, from_be_bytes-to_be_bytes, slice}
use vantablack.Prelude.Tables.{padding}
use vantablack.Traversal.Stun.{Attribute, Message, ok, kind}
use vantablack.Traversal.Stun.Encode.{encode, encode_value, write_header}
use vantablack.Traversal.Stun.Decode.{decode_attribute, parse_loop, parse, padded}
use vantablack.Traversal.Stun.Values.{IsAttribute, IsTxid, decode_attribute-encode_value}
use vantablack.Traversal.Stun.Layout.{
  piece, body, length-piece, length-body-four, Short, Short-body, encode-body,
}

-- A message that the program may send: its type is a word, its attributes hold what their types
-- say, and the attributes fit the length field.
pub record IsMessage (m : Message) : Type 0 where
  pub typed : m.typ < 2 ^ 16
  pub identified : IsTxid m.txid
  pub built : All IsAttribute m.attributes
  pub fits : length (body m.txid m.attributes) < 2 ^ 16

pub kind-lt : (a : Attribute) → IsAttribute a → kind a < 256 ^ 2
kind-lt (Attribute.mapped_address a) h = omega arith
kind-lt (Attribute.unknown k v) h = omega (arith, h.0)
kind-lt a h = omega arith

-- The tests of a round on a rest that holds the next attribute whole.
passes :
    {A : Type 0} (n len p : ℕ) (x y z w r : A)
    → 4 + p ≤ n
    → len ≤ p
    → (if n == 0
        then x
        else if ltb n 4
        then y
        else if ltb n (4 + len)
        then z
        else if ltb n (4 + p)
        then w
        else r)
      ≡ r
passes n len p x y z w r h k =
    let a : (n == 0) ≡ false = ground arith in
    let b : ltb n 4 ≡ false = ground arith in
    let c : ltb n (4 + len) ≡ false = ground arith in
    let d : ltb n (4 + p) ≡ false = ground arith in rw (a, b, c, d) refl

-- One round of the loop: the first attribute, and the rest.
parse_round :
    (f k₁ k₂ l₁ l₂ len : ℕ) (more txid : Bytes) (a : Attribute) (found : List Attribute)
    → from_be_bytes (l₁ ∷ l₂ ∷ []) ≡ len
    → padded len ≤ length more
    → decode_attribute (from_be_bytes (k₁ ∷ k₂ ∷ [])) (take len more) txid ≡ ok a
    → parse_loop f (drop (padded len) more) txid ≡ ok found
    → parse_loop (suc f) (k₁ ∷ k₂ ∷ l₁ ∷ l₂ ∷ more) txid ≡ ok (a ∷ found)
unfolding parse_loop
parse_round f k₁ k₂ l₁ l₂ len more txid a found e h d r =
    let skip : drop (4 + padded len) (k₁ ∷ k₂ ∷ l₁ ∷ l₂ ∷ more) ≡ drop (padded len) more =
      (let four : 4 + padded len ≡ suc (suc (suc (suc (padded len)))) = omega arith in
        rw four refl) in
    rw (e, skip, d, r)
      (passes (suc (suc (suc (suc (length more))))) len (padded len) _ _ _ _ _ (omega (arith, h))
        (omega arith))

pub parse_loop-body :
    (f : ℕ) (txid : Bytes) (l : List Attribute)
    → IsTxid txid
    → All IsAttribute l
    → All (Short txid) l
    → length l ≤ f
    → parse_loop f (body txid l) txid ≡ ok l
unfolding parse_loop
parse_loop-body zero txid [] t h s n = refl
parse_loop-body (suc f) txid [] t h s n = refl
parse_loop-body zero txid (a ∷ l) t h s n = absurd (omega arith)
parse_loop-body (suc f) txid (a ∷ l) t h s n =
    let value = encode_value a txid in
    let len : ℕ = length value in
    let zeros = replicate {A = ℕ} (padding len) 0 in
    let pad_len = length-replicate {A = ℕ} (padding len) 0 in
    let row = length-append value zeros in
    let rest = body txid l in
    let cut = append_assoc value zeros rest in
    let whole : padded len ≡ length (value ++ zeros) = omega (arith, row, pad_len) in
    parse_round f (kind a / 256 % 256) (kind a % 256) (len / 256 % 256) (len % 256) len
      ((value ++ zeros) ++ rest) txid a l (from_be_bytes-to_be_bytes 2 len (omega (arith, s.0)))
      (omega (arith, whole, length-append (value ++ zeros) rest))
      (ap₂ (λ k v. decode_attribute k v txid) (from_be_bytes-to_be_bytes 2 (kind a) (kind-lt a h.0))
          (ap (take len) cut ∙ take_prefix len value (zeros ++ rest) refl)
        ∙ decode_attribute-encode_value txid t.1 a h.0)
      (ap (λ b. parse_loop f b txid) (drop_prefix (padded len) (value ++ zeros) rest whole)
        ∙ parse_loop-body f txid l t h.1 s.1 (omega arith))

pub length-le-body : (txid : Bytes) (l : List Attribute) → length l ≤ length (body txid l)
length-le-body txid [] = omega arith
length-le-body txid (a ∷ l) =
    omega (
      arith,
      length-append (piece txid a) (body txid l),
      length-piece txid a,
      length-le-body txid l,
    )

-- `parse` of a header and a body of the declared length.
pub parse_header :
    (m : Message) (n : ℕ) (b : Bytes) (found : List Attribute)
    → m.typ < 2 ^ 16
    → length m.txid ≡ 12
    → length b ≡ n
    → n < 2 ^ 16
    → n % 4 ≡ 0
    → parse_loop (length b) b m.txid ≡ ok found
    → parse (write_header m n ++ b) ≡ ok (record m { attributes = found })
unfolding parse
parse_header m n b found typed t len fits four r =
    let declared = from_be_bytes-to_be_bytes 2 n (omega (arith, fits)) in
    let typ = from_be_bytes-to_be_bytes 2 m.typ (omega (arith, typed)) in
    let txid : take 12 (m.txid ++ b) ≡ m.txid = take_prefix 12 m.txid b (sym t) in
    let after : drop 12 (m.txid ++ b) ≡ b = drop_prefix 12 m.txid b (sym t) in
    let all : take n b ≡ b = take_all n b (omega (arith, len)) in
    let whole : length (m.txid ++ b) ≡ 12 + n = omega (arith, length-append m.txid b, t, len) in
    let zero_rest : ((n % 4) == 0) ≡ true = (==_iff _ 0).1 four in
    rw (declared, typ, txid, after, all, whole, zero_rest, r) (ground arith)

-- A STUN message whose type is a 16-bit word, whose transaction identifier has 12 bytes, and
-- whose attributes hold what their types say and take fewer than 65,536 bytes, is read back from
-- its encoding, attribute by attribute in order.
pub parse-encode : (m : Message) → IsMessage m → parse (encode m) ≡ ok m
parse-encode m v =
    let b = body m.txid m.attributes in
    let n : ℕ = length b in
    let s = Short-body m.txid m.attributes v.fits in
    let cast : n % 2 ^ 16 ≡ n = omega (arith, v.fits) in
    ap parse (encode-body m v.identified.0 s ∙ ap (λ t. write_header m t ++ b) cast)
    ∙ parse_header m n b m.attributes v.typed v.identified.0 refl v.fits
        (length-body-four m.txid m.attributes)
        (parse_loop-body n m.txid m.attributes v.identified v.built s
          (length-le-body m.txid m.attributes))

empty-of-le : (rest : Bytes) → length rest ≤ 0 → rest ≡ []
empty-of-le [] h = refl
empty-of-le (b ∷ rest) h = absurd (omega arith)

-- The loop that reads the attributes of a STUN message gives the same with any number of rounds
-- that is at least the number of bytes left.
pub parse_loop_enough :
    (f g : ℕ) (rest txid : Bytes)
    → length rest ≤ f
    → length rest ≤ g
    → parse_loop f rest txid ≡ parse_loop g rest txid
unfolding parse_loop
parse_loop_enough zero zero rest txid h k = refl
parse_loop_enough zero (suc g) rest txid h k = rw (empty-of-le rest h) refl
parse_loop_enough (suc f) zero rest txid h k = rw (empty-of-le rest k) refl
parse_loop_enough (suc f) (suc g) rest txid h k =
    let n = 4 + padded (from_be_bytes (slice 2 2 rest)) in
    let len = length-drop n rest in
    rw (parse_loop_enough f g (drop n rest) txid (omega (arith, len)) (omega (arith, len))) refl
