-- ===== src/Traversal/Stun/Integrity.antt =====
-- Where the checks of a STUN message find a digest, and what they compare it with.
use vantablack.Prelude.{
  ℕ, suc, ◌+◌, ◌-◌, ◌/◌, ◌%◌, ◌^◌, ◌<◌, ◌≤◌, ◌≡◌, refl, sym, ap, ap₂, ◌∙◌, min, Bool, true, false,
  some, List, [], ◌∷◌, ◌++◌, append_assoc, length, length-append, All, arith, take, drop, drop-drop,
  take_prefix, drop_prefix, ltb, ◌==◌, ==_iff, if◌then◌else◌, Bool-cases, inl, inr,
}
use vantablack.Prelude.Bytes.{
  Bytes, to_be_bytes, from_be_bytes, from_be_bytes-to_be_bytes, slice, slice_piece, drop_piece,
}
use vantablack.Traversal.Stun.{Attribute, Message, kind}
use vantablack.Traversal.Stun.Encode.{encode_value, write_header, strip, is_digest}
use vantablack.Traversal.Stun.Decode.{padded}
use vantablack.Traversal.Stun.Verify.{find_loop, find_raw_attribute}
use vantablack.Traversal.Stun.Values.{IsAttribute}
use vantablack.Traversal.Stun.Layout.{piece, body, length-piece, Short, length-write_header}
use vantablack.Traversal.Stun.RoundTrip.{kind-lt, length-le-body}
use vantablack.Traversal.Stun.Kinds

-- An attribute that is no digest, and is not read as one.
abbrev pub IsPlain : Attribute → Type 0
IsPlain a =
    IsAttribute a
    × ((kind a == Kinds.message_integrity) ≡ false)
    × ((kind a == Kinds.fingerprint) ≡ false)

attribute-IsPlain : (a : Attribute) → is_digest a ≡ false → IsAttribute a → IsPlain a
attribute-IsPlain (Attribute.message_integrity t) d h = ground arith
attribute-IsPlain (Attribute.fingerprint t) d h = ground arith
attribute-IsPlain (Attribute.unknown k v) d h = (h, ground arith, ground arith)
attribute-IsPlain (Attribute.mapped_address a) d h = (h, refl, refl)
attribute-IsPlain (Attribute.xor_mapped_address a) d h = (h, refl, refl)
attribute-IsPlain (Attribute.username u) d h = (h, refl, refl)
attribute-IsPlain (Attribute.error_code c r) d h = (h, refl, refl)
attribute-IsPlain (Attribute.priority p) d h = (h, refl, refl)
attribute-IsPlain Attribute.use_candidate d h = (h, refl, refl)
attribute-IsPlain (Attribute.ice_controlled t) d h = (h, refl, refl)
attribute-IsPlain (Attribute.ice_controlling t) d h = (h, refl, refl)
attribute-IsPlain (Attribute.software s) d h = (h, refl, refl)
attribute-IsPlain (Attribute.xor_peer_address a) d h = (h, refl, refl)
attribute-IsPlain (Attribute.xor_relayed_address a) d h = (h, refl, refl)
attribute-IsPlain (Attribute.payload b) d h = (h, refl, refl)
attribute-IsPlain (Attribute.realm s) d h = (h, refl, refl)
attribute-IsPlain (Attribute.nonce s) d h = (h, refl, refl)
attribute-IsPlain (Attribute.requested_transport p) d h = (h, refl, refl)
attribute-IsPlain (Attribute.lifetime s) d h = (h, refl, refl)
attribute-IsPlain (Attribute.channel_number n) d h = (h, refl, refl)
attribute-IsPlain (Attribute.unknown_attributes l) d h = (h, refl, refl)
attribute-IsPlain Attribute.dont_fragment d h = (h, refl, refl)

pub strip-IsPlain : (l : List Attribute) → All IsAttribute l → All IsPlain (strip l)
strip-IsPlain [] h = tt
strip-IsPlain (a ∷ l) h = elim (Bool-cases (is_digest a)) [
  | inl digest ↦ rw digest (strip-IsPlain l h.1)
  | inr plain ↦ rw plain (attribute-IsPlain a plain h.0, strip-IsPlain l h.1)
]

-- One step of the search, at an attribute of another kind and at one of the kind looked for.
module _ (f pos end : ℕ) (buf : Bytes) (want k₁ k₂ l₁ l₂ len : ℕ) (more : Bytes)
    (e : drop pos buf ≡ k₁ ∷ k₂ ∷ l₁ ∷ l₂ ∷ more) (l : from_be_bytes (l₁ ∷ l₂ ∷ []) ≡ len)
    (room : pos + 4 ≤ end) where
  tests :
      {A : Type 0} (t : Bool) (x y z : A)
      → (if ltb end (pos + 4) then x else if t then y else z) ≡ (if t then y else z)
  tests t x y z = let fits : ltb end (pos + 4) ≡ false = ground arith in rw fits refl

  find_loop_at : find_loop (suc f) pos end buf want ≡ (
      if from_be_bytes (k₁ ∷ k₂ ∷ []) == want
      then some (pos, len)
      else find_loop f (pos + (4 + padded len)) end buf want)
  unfolding find_loop
  find_loop_at =
      let front : slice pos 2 buf ≡ k₁ ∷ k₂ ∷ [] = ap (take 2) e in
      let word : slice (pos + 2) 2 buf ≡ l₁ ∷ l₂ ∷ [] =
        ap (take 2) (sym (drop-drop 2 pos buf) ∙ ap (drop 2) e) in
      rw (word, l, front) (tests (from_be_bytes (k₁ ∷ k₂ ∷ []) == want) _ _ _)

-- The search passes over attributes of other kinds.
find_loop_walk :
    (txid : Bytes) (l : List Attribute) (f g pos q end : ℕ) (buf rest : Bytes) (want : ℕ)
    → All (λ a. IsAttribute a × ((kind a == want) ≡ false)) l
    → All (Short txid) l
    → drop pos buf ≡ body txid l ++ rest
    → pos + length (body txid l) ≤ end
    → g ≡ length l + f
    → q ≡ pos + length (body txid l)
    → find_loop g pos end buf want ≡ find_loop f q end buf want
find_loop_walk txid [] f g pos q end buf rest want h s e room fuel there =
    ap₂ (λ n p. find_loop n p end buf want) (omega (arith, fuel)) (omega (arith, there))
find_loop_walk txid (a ∷ l) f g pos q end buf rest want h s e room fuel there =
    let len : ℕ = length (encode_value a txid) in
    let own = length-piece txid a in
    let total = length-append (piece txid a) (body txid l) in
    let split = e ∙ append_assoc (piece txid a) (body txid l) rest in
    let left : ℕ = length l + f in
    let one : g ≡ suc left = omega (arith, fuel) in
    let differs : (from_be_bytes (to_be_bytes 2 (kind a)) == want) ≡ false =
      ap (λ k. k == want) (from_be_bytes-to_be_bytes 2 (kind a) (kind-lt a h.0.0)) ∙ h.0.1 in
    ap (λ n. find_loop n pos end buf want) one
    ∙ find_loop_at left pos end buf want (kind a / 256 % 256) (kind a % 256) (len / 256 % 256)
        (len % 256) len _ split (from_be_bytes-to_be_bytes 2 len (omega (arith, s.0)))
        (omega (arith, room, total, own))
    ∙ ap
        (λ (t : Bool).
          if t then some (pos, len) else find_loop left (pos + (4 + padded len)) end buf want)
        differs
    ∙ find_loop_walk txid l f left (pos + (4 + padded len)) q end buf rest want h.1 s.1
        (drop_piece pos (4 + padded len) buf (piece txid a) (body txid l ++ rest) split
          (omega (arith, own)))
        (omega (arith, room, total, own)) refl (omega (arith, there, total, own))

-- A message of plain attributes `base`, then the attribute `d`, then other bytes.
abbrev pub found_in : Message → ℕ → List Attribute → Attribute → Bytes → Bytes
found_in m n base d rest = write_header m n ++ (body m.txid base ++ (piece m.txid d ++ rest))

abbrev pub offset : Message → List Attribute → ℕ
offset m base = 20 + length (body m.txid base)

module _ (m : Message) (n : ℕ) (base : List Attribute) (d : Attribute) (rest : Bytes)
    (t : length m.txid ≡ 12) (short : All (Short m.txid) base) (n_short : n < 2 ^ 16)
    (whole : n ≡ length (body m.txid base) + (length (piece m.txid d) + length rest)) where
  pub length-found_in : length (found_in m n base d rest) ≡ 20 + n
  length-found_in = omega (
    arith,
    length-append (write_header m n) (body m.txid base ++ (piece m.txid d ++ rest)),
    length-append (body m.txid base) (piece m.txid d ++ rest),
    length-append (piece m.txid d) rest,
    length-write_header m n t,
    whole,
  )

  pub drop-offset : drop (offset m base) (found_in m n base d rest) ≡ piece m.txid d ++ rest
  drop-offset =
      drop_piece 20 (length (body m.txid base)) (found_in m n base d rest) (body m.txid base)
        (piece m.txid d ++ rest)
        (drop_prefix 20 (write_header m n) _ (sym (length-write_header m n t))) refl

  -- The search finds the attribute, where none before it has its kind.
  pub find_raw_attribute-found_in :
      (want : ℕ)
      → All (λ a. IsAttribute a × ((kind a == want) ≡ false)) base
      → length (encode_value d m.txid) < 2 ^ 16
      → kind d ≡ want
      → want < 2 ^ 16
      → find_raw_attribute (found_in m n base d rest) want
        ≡ some ((offset m base), length (encode_value d m.txid))
  unfolding find_raw_attribute
  find_raw_attribute-found_in want h d_short k w =
      let len : ℕ = length (encode_value d m.txid) in
      let declared = from_be_bytes-to_be_bytes 2 n (omega (arith, n_short)) in
      let word = from_be_bytes-to_be_bytes 2 (kind d) (omega (arith, k, w)) in
      let left : ℕ = length (found_in m n base d rest) - suc (length base) in
      let hit : (from_be_bytes (to_be_bytes 2 (kind d)) == want) ≡ true =
        (==_iff _ want).1 (word ∙ k) in
      let long : ltb (length (found_in m n base d rest)) 4 ≡ false =
        let size = length-found_in in ground (arith, size) in
      rw long (
        ap
          (λ e.
            find_loop (length (found_in m n base d rest)) 20
              (min (20 + e) (length (found_in m n base d rest))) (found_in m n base d rest) want)
          declared
        ∙ ap
            (λ e.
              find_loop (length (found_in m n base d rest)) 20 e (found_in m n base d rest) want)
            (omega (arith, length-found_in))
        ∙ find_loop_walk m.txid base (suc left) (length (found_in m n base d rest)) 20
            (offset m base) (20 + n) (found_in m n base d rest) _ want h short
            (drop_prefix 20 (write_header m n) _ (sym (length-write_header m n t)))
            (omega (arith, whole))
            (omega
              (arith, length-found_in, whole, length-le-body m.txid base, length-piece m.txid d))
            refl
        ∙ find_loop_at left (offset m base) (20 + n) (found_in m n base d rest) want
            (kind d / 256 % 256) (kind d % 256) (len / 256 % 256) (len % 256) len _ drop-offset
            (from_be_bytes-to_be_bytes 2 len (omega (arith, d_short)))
            (omega (arith, whole, length-piece m.txid d))
        ∙ ap
            (λ (b : Bool).
              if b
              then some ((offset m base), len)
              else find_loop left ((offset m base) + (4 + padded len)) (20 + n)
                  (found_in m n base d rest) want)
            hit)

  -- What a digest at the (offset m base) covers.
  pub covered_lem :
      (k : ℕ)
      → take 2 (found_in m n base d rest)
          ++ (to_be_bytes 2 k ++ slice 4 ((offset m base) - 4) (found_in m n base d rest))
        ≡ write_header m k ++ body m.txid base
  covered_lem k =
      let b = body m.txid base in
      let cut =
        slice_piece 4 ((offset m base) - 4) (found_in m n base d rest)
          (33 ∷ 18 ∷ 164 ∷ 66 ∷ (m.txid ++ b)) (piece m.txid d ++ rest)
          (ap (λ r. 33 ∷ 18 ∷ 164 ∷ 66 ∷ r) (sym (append_assoc m.txid b (piece m.txid d ++ rest))))
          (omega (arith, t, length-append m.txid b)) in
      ap (λ r. take 2 (found_in m n base d rest) ++ (to_be_bytes 2 k ++ r)) cut

  pub take-offset :
      take (offset m base) (found_in m n base d rest) ≡ write_header m n ++ body m.txid base
  take-offset =
      ap (take (offset m base)) (sym (append_assoc (write_header m n) (body m.txid base) _))
      ∙ take_prefix (offset m base) (write_header m n ++ body m.txid base) _ (
          omega
            (arith, length-append (write_header m n) (body m.txid base), length-write_header m n t))
