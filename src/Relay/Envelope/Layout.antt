-- ===== src/Relay/Envelope/Layout.antt =====
-- Reading an envelope of src/ghost/net/relay.rs back.
use mathlib.Core.Bool.{or-false, or-true}
use vantablack.Prelude.{
  ℕ, zero, suc, ◌+◌, ◌-◌, ◌^◌, ◌≤◌, ◌<◌, ◌≡◌, refl, sym, ap, ◌∙◌, min, true, false, none, some, [],
  ◌∷◌, ◌++◌, append-nil, arith, ltb, if◌then◌else◌, length, take, drop, replicate, mem,
  length-append, length-take, length-replicate, take_prefix, take_all,
}
use vantablack.Prelude.Bytes.{
  Bytes, to_be_bytes, from_be_bytes, length-to_be_bytes, from_be_bytes-to_be_bytes, slice,
  slice_piece, drop_piece,
}
use vantablack.Prelude.Utf8.{is_utf8, from_utf8_lossy, from_utf8_text}
use vantablack.Relay.Envelope.{
  blind_magic, relay_magic, fp_bytes, fp_name, build_envelope, position_null, parse_relay_header,
  build_relay_packet, parse_blind_frame, wrap_blind_frame,
}

length-fp_bytes : (s : Bytes) → length (fp_bytes s) ≡ 32
unfolding fp_bytes
length-fp_bytes s = omega (
  arith,
  length-append (take (min (length s) 32) s) (replicate (32 - min (length s) 32) 0),
  length-take (min (length s) 32) s,
  length-replicate {A = ℕ} (32 - min (length s) 32) 0,
)

position_null_of_text :
    (s rest : Bytes) → mem 0 s ≡ false → position_null (s ++ (0 ∷ rest)) ≡ some (length s)
position_null_of_text [] rest h = refl
position_null_of_text (b ∷ s) rest h =
    let here : position_null (s ++ (0 ∷ rest)) ≡ some (length s) =
      position_null_of_text s rest (ground arith) in
    ground arith

position_null-none : (s : Bytes) → mem 0 s ≡ false → position_null s ≡ none
position_null-none [] h = refl
position_null-none (b ∷ s) h = ground (arith, position_null-none s)

mem-take : (n : ℕ) (s : Bytes) → mem 0 s ≡ false → mem 0 (take n s) ≡ false
mem-take zero s h = refl
mem-take (suc n) [] h = refl
mem-take (suc n) (b ∷ s) h = ground (arith, mem-take n s)

-- The name in a padded text that is at most 32 bytes long.
fp_name_padded :
    (s : Bytes) (n : ℕ) → mem 0 s ≡ false → length s + n ≡ 32 → fp_name (s ++ replicate n 0) ≡ s
unfolding fp_name
fp_name_padded s zero h k =
    rw append-nil (rw (position_null-none s h) (take_all 32 s (omega arith)))
fp_name_padded s (suc n) h k =
    rw (position_null_of_text s (replicate n 0) h) (take_prefix (length s) s _ refl)

take-min : (n : ℕ) (s : Bytes) → take (min (length s) n) s ≡ take n s
take-min zero s = let e : min (length s) 0 ≡ 0 = omega arith in rw e refl
take-min (suc n) [] = let e : min 0 (suc n) ≡ 0 = omega arith in rw e refl
take-min (suc n) (b ∷ s) =
    let e : min (suc (length s)) (suc n) ≡ suc (min (length s) n) = omega arith in
    rw e (ap (λ t. b ∷ t) (take-min n s))

fp_name-fp_bytes : (s : Bytes) → mem 0 s ≡ false → fp_name (fp_bytes s) ≡ take 32 s
unfolding fp_bytes
fp_name-fp_bytes s h =
    fp_name_padded (take (min (length s) 32) s) (32 - min (length s) 32)
      (mem-take (min (length s) 32) s h) (omega (arith, length-take (min (length s) 32) s))
    ∙ take-min 32 s

-- The pieces of an envelope.
module _ (magic fp payload : Bytes) (hops : ℕ) (hm : 4 ≡ length magic) where
  abbrev envelope : Bytes
  envelope = build_envelope magic fp hops payload

  after_magic : drop 4 envelope ≡ to_be_bytes 4 hops ++ (fp_bytes fp ++ payload)
  unfolding build_envelope
  after_magic = drop_piece 0 4 envelope magic _ refl hm

  pub magic_there : take 4 envelope ≡ magic
  unfolding build_envelope
  magic_there = take_prefix 4 magic _ hm

  pub hops_there : hops < 2 ^ 32 → from_be_bytes (slice 4 4 envelope) ≡ hops
  hops_there h =
      ap from_be_bytes (
        slice_piece 4 4 envelope (to_be_bytes 4 hops) _ after_magic
          (sym (length-to_be_bytes 4 hops)))
      ∙ from_be_bytes-to_be_bytes 4 hops (omega arith)

  after_hops : drop 8 envelope ≡ fp_bytes fp ++ payload
  after_hops =
      drop_piece 4 4 envelope (to_be_bytes 4 hops) _ after_magic (sym (length-to_be_bytes 4 hops))

  pub name_there : mem 0 fp ≡ false → fp_name (slice 8 32 envelope) ≡ take 32 fp
  name_there h =
      ap fp_name
        (slice_piece 8 32 envelope (fp_bytes fp) payload after_hops (sym (length-fp_bytes fp)))
      ∙ fp_name-fp_bytes fp h

  pub payload_there : drop 40 envelope ≡ payload
  payload_there =
      drop_piece 8 32 envelope (fp_bytes fp) payload after_hops (sym (length-fp_bytes fp))

  pub length-envelope : length envelope ≡ 40 + length payload
  unfolding build_envelope
  length-envelope = omega (
    arith,
    length-append magic (to_be_bytes 4 hops ++ (fp_bytes fp ++ payload)),
    length-append (to_be_bytes 4 hops) (fp_bytes fp ++ payload),
    length-append (fp_bytes fp) payload,
    length-to_be_bytes 4 hops,
    length-fp_bytes fp,
  )

-- Any bytes with such pieces are parsed alike.
module _ (raw name payload : Bytes) (hops : ℕ) (h : from_be_bytes (slice 4 4 raw) ≡ hops)
    (n : fp_name (slice 8 32 raw) ≡ name) (p : drop 40 raw ≡ payload)
    (l : length raw ≡ 40 + length payload) where
  parse_relay_header-pieces :
      take 4 raw ≡ relay_magic
      → parse_relay_header raw ≡ (
          if ltb (length payload) 4
          then none
          else some (record {
            remaining_hops = hops;
            next_hop_fingerprint = from_utf8_lossy name;
            inner_payload = payload;
          }))
  unfolding parse_relay_header
  parse_relay_header-pieces m =
      let long : ltb (length raw) 44 ≡ ltb (length payload) 4 = ground arith in
      rw (long, m, h, n, p) (rw or-false refl)

  parse_blind_frame-pieces :
      take 4 raw ≡ blind_magic
      → hops ≡ 0
      → is_utf8 name ≡ true
      → parse_blind_frame raw ≡ some (record { target_fingerprint = name; opaque = payload })
  unfolding parse_blind_frame
  parse_blind_frame-pieces m z u =
      let long : ltb (length raw) 40 ≡ false = ground arith in
      rw (long, m, h, z, n, from_utf8_text name u, p) refl

blind_is_no_packet : (raw : Bytes) → take 4 raw ≡ blind_magic → parse_relay_header raw ≡ none
unfolding parse_relay_header
blind_is_no_packet raw m = rw m (rw or-true refl)

-- A relay packet whose fingerprint has no null byte is parsed, if its payload has at least four bytes, into what it was built from, the fingerprint cut to 32 bytes and read as UTF-8 with replacements; with a shorter payload it is refused.
pub parse_relay_header-build_relay_packet :
    (fp payload : Bytes) (hops : ℕ)
    → mem 0 fp ≡ false
    → hops < 2 ^ 32
    → parse_relay_header (build_relay_packet fp hops payload) ≡ (
        if ltb (length payload) 4
        then none
        else some (record {
          remaining_hops = hops;
          next_hop_fingerprint = from_utf8_lossy (take 32 fp);
          inner_payload = payload;
        }))
unfolding build_relay_packet
parse_relay_header-build_relay_packet fp payload hops h k =
    parse_relay_header-pieces (build_envelope relay_magic fp hops payload) (take 32 fp) payload hops
      (hops_there relay_magic fp payload hops refl k)
      (name_there relay_magic fp payload hops refl h)
      (payload_there relay_magic fp payload hops refl)
      (length-envelope relay_magic fp payload hops refl)
      (magic_there relay_magic fp payload hops refl)

-- A target name: a text of at most 32 bytes without a null.
pub record IsName (fp : Bytes) : Type 0 where
  pub no_null : mem 0 fp ≡ false
  pub fits : length fp ≤ 32
  pub text : is_utf8 fp ≡ true

-- A blind frame for a name that is a text of at most 32 bytes without a null is read back as it
-- was, whatever it carries, and it is no relay packet.
pub parse_blind_frame-wrap_blind_frame :
    (fp opaque : Bytes)
    → IsName fp
    → (parse_blind_frame (wrap_blind_frame fp opaque)
        ≡ some (record { target_fingerprint = fp; opaque = opaque }))
      × (parse_relay_header (wrap_blind_frame fp opaque) ≡ none)
unfolding wrap_blind_frame
parse_blind_frame-wrap_blind_frame fp opaque v = (
  parse_blind_frame-pieces (build_envelope blind_magic fp 0 opaque) fp opaque 0
      (hops_there blind_magic fp opaque 0 refl (omega arith))
      (name_there blind_magic fp opaque 0 refl v.no_null ∙ take_all 32 fp v.fits)
      (payload_there blind_magic fp opaque 0 refl) (length-envelope blind_magic fp opaque 0 refl)
      (magic_there blind_magic fp opaque 0 refl) refl v.text,
  blind_is_no_packet (build_envelope blind_magic fp 0 opaque)
      (magic_there blind_magic fp opaque 0 refl),
)

pub length-build_relay_packet :
    (fp payload : Bytes) (hops : ℕ)
    → length (build_relay_packet fp hops payload) ≡ 40 + length payload
unfolding build_relay_packet
length-build_relay_packet fp payload hops = length-envelope relay_magic fp payload hops refl
