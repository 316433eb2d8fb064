-- ===== src/Traversal/Stun/Layout.antt =====
-- What the bytes of an encoded STUN message are: a header, and one padded piece for each attribute.
use vantablack.Prelude.{
  ℕ, ◌+◌, ◌-◌, ◌%◌, ◌^◌, ◌<◌, ◌≡◌, refl, sym, ap, ◌∙◌, List, [], ◌∷◌, ◌++◌, append_assoc,
  append-nil, length, length-append, length-replicate, replicate, All, arith,
}
use vantablack.Prelude.Bytes.{Bytes, to_be_bytes}
use vantablack.Prelude.Tables.{pad, pad_lem, padding}
use vantablack.Traversal.Stun.{Attribute, Message, kind, header_len}
use vantablack.Traversal.Stun.Encode.{
  encode, encode_all, encode_into, encode_value, set_length, write_header,
}

-- The piece of an attribute whose value has fewer than 2 ^ 16 bytes.
abbrev pub piece : Bytes → Attribute → Bytes
piece txid a =
    let value = encode_value a txid in
    to_be_bytes 2 (kind a)
    ++ (to_be_bytes 2 (length value) ++ (value ++ replicate (padding (length value)) 0))

abbrev pub body : Bytes → List Attribute → Bytes
body txid [] = []
body txid (a ∷ more) = piece txid a ++ body txid more

pub length-piece :
    (txid : Bytes) (a : Attribute)
    → length (piece txid a)
      ≡ 4 + (length (encode_value a txid) + padding (length (encode_value a txid)))
length-piece txid a =
    let n = length (encode_value a txid) in
    omega (
      arith,
      length-append (encode_value a txid) (replicate (padding n) 0),
      length-replicate {A = ℕ} (padding n) 0,
    )

-- Each piece fills whole groups of four bytes.
pub length-body-four : (txid : Bytes) (l : List Attribute) → length (body txid l) % 4 ≡ 0
length-body-four txid [] = refl
length-body-four txid (a ∷ more) = omega (
  arith,
  length-append (piece txid a) (body txid more),
  length-piece txid a,
  length-body-four txid more,
)

pub body-append :
    (txid : Bytes) (l more : List Attribute) → body txid (l ++ more) ≡ body txid l ++ body txid more
body-append txid [] more = refl
body-append txid (a ∷ l) more =
    ap (λ t. piece txid a ++ t) (body-append txid l more)
    ∙ sym (append_assoc (piece txid a) (body txid l) (body txid more))

encode_into-piece :
    (txid out : Bytes) (a : Attribute)
    → length out % 4 ≡ 0
    → length (encode_value a txid) < 2 ^ 16
    → encode_into a txid out ≡ out ++ piece txid a
unfolding encode_into
encode_into-piece txid out a four h =
    let value = encode_value a txid in
    let cast : length value % 2 ^ 16 ≡ length value = omega (arith, h) in
    let row = ((out ++ to_be_bytes 2 (kind a)) ++ to_be_bytes 2 (length value)) ++ value in
    let len : padding (length row) ≡ padding (length value) = omega (
      arith,
      length-append ((out ++ to_be_bytes 2 (kind a)) ++ to_be_bytes 2 (length value)) value,
      length-append (out ++ to_be_bytes 2 (kind a)) (to_be_bytes 2 (length value)),
      length-append out (to_be_bytes 2 (kind a)),
      four,
    ) in
    ap (λ t. pad (((out ++ to_be_bytes 2 (kind a)) ++ to_be_bytes 2 t) ++ value)) cast
    ∙ pad_lem row
    ∙ ap (λ t. row ++ replicate t 0) len
    ∙ simp append_assoc

abbrev pub Short : Bytes → Attribute → Type 0
Short txid a = length (encode_value a txid) < 2 ^ 16

pub Short-body :
    (txid : Bytes) (l : List Attribute) → length (body txid l) < 2 ^ 16 → All (Short txid) l
Short-body txid [] h = tt
Short-body txid (a ∷ more) h =
    let len = length-append (piece txid a) (body txid more) in
    let own = length-piece txid a in
    (omega (arith, len, own, h), Short-body txid more (omega (arith, len, own, h)))

pub encode_all-body :
    (txid out : Bytes) (l : List Attribute)
    → length out % 4 ≡ 0
    → All (Short txid) l
    → encode_all l txid out ≡ out ++ body txid l
unfolding encode_all
encode_all-body txid out [] four h = sym (append-nil out)
encode_all-body txid out (a ∷ more) four h =
    ap (encode_all more txid) (encode_into-piece txid out a four h.0)
    ∙ encode_all-body txid (out ++ piece txid a) more
        (omega (arith, length-append out (piece txid a), length-piece txid a, four)) h.1
    ∙ append_assoc out (piece txid a) (body txid more)

-- The length field is written over what follows the type.
pub set_length-write_header :
    (m : Message) (n k : ℕ) (rest : Bytes)
    → set_length n (write_header m k ++ rest) ≡ write_header m (n % 2 ^ 16) ++ rest
set_length-write_header m n k rest = refl

pub length-write_header :
    (m : Message) (n : ℕ) → length m.txid ≡ 12 → length (write_header m n) ≡ 20
length-write_header m n h = omega (arith, h)

pub encode-body :
    (m : Message)
    → length m.txid ≡ 12
    → All (Short m.txid) m.attributes
    → encode m
      ≡ write_header m (length (body m.txid m.attributes) % 2 ^ 16) ++ body m.txid m.attributes
unfolding encode
encode-body m t h =
    let b = body m.txid m.attributes in
    let head = length-write_header m 0 t in
    let left : length (write_header m 0 ++ b) - header_len ≡ length b =
      omega (arith, length-append (write_header m 0) b, head) in
    let written = encode_all-body m.txid (write_header m 0) m.attributes (omega (arith, head)) h in
    ap (λ out. set_length (length out - header_len) out) written
    ∙ ap (λ t. set_length t (write_header m 0 ++ b)) left
