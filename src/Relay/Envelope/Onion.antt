-- ===== src/Relay/Envelope/Onion.antt =====
-- The onion of src/ghost/net/relay.rs, peeled hop by hop.
use vantablack.Prelude.{
  ℕ, zero, suc, ◌+◌, ◌-◌, ◌*◌, ◌%◌, ◌^◌, ◌≤◌, ◌<◌, ◌≡◌, refl, sym, ap, ◌∙◌, false, ◌||◌, some, List,
  [], ◌∷◌, ◌++◌, arith, ltb, length, get_or, take, drop, All, take_all, drop_all,
}
use vantablack.Prelude.Bytes.{Bytes, equal, equal_iff}
use vantablack.Prelude.Utf8.{from_utf8_lossy, from_utf8_lossy_text}
use vantablack.Relay.Envelope.{
  RelayHeader, contains, any_again, any_empty, max_hops, onion_loop, build_onion_route,
  parse_relay_header, build_relay_packet,
}
use vantablack.Relay.Envelope.Layout.{
  IsName, parse_relay_header-build_relay_packet, length-build_relay_packet,
}

-- What each hop reads: its header names the next hop and how many are left, and what it carries is
-- the next hop's packet; the last one's is the payload.
abbrev pub Peels : List Bytes → Bytes → Bytes → Type 0
Peels [] payload packet = packet ≡ payload
Peels (fp ∷ fps) payload packet =
    (h : RelayHeader) × (parse_relay_header packet ≡ some h)
    × (h.next_hop_fingerprint ≡ fp)
    × (h.remaining_hops ≡ suc (length fps))
    × Peels fps payload h.inner_payload

-- The packet for the hops after the first, from the last one outwards.
unfoldable pub layers : List Bytes → Bytes → Bytes
layers [] payload = payload
layers (fp ∷ fps) payload = build_relay_packet fp (suc (length fps)) (layers fps payload)

drop-get_or :
    (k : ℕ) (fps : List Bytes) → k < length fps → drop k fps ≡ get_or fps k [] ∷ drop (suc k) fps
drop-get_or k [] h = absurd (omega arith)
drop-get_or zero (fp ∷ fps) h = refl
drop-get_or (suc k) (fp ∷ fps) h = drop-get_or k fps (omega arith)

length-drop_sub : (k : ℕ) (fps : List Bytes) → length (drop k fps) ≡ length fps - k
length-drop_sub zero fps = omega arith
length-drop_sub (suc k) [] = omega arith
length-drop_sub (suc k) (fp ∷ fps) = omega (arith, length-drop_sub k fps)

onion_loop-layers :
    (k : ℕ) (first : Bytes) (fps : List Bytes) (payload : Bytes)
    → k ≤ length fps
    → length fps < 2 ^ 32
    → onion_loop k (first ∷ fps) (layers (drop k fps) payload) ≡ layers fps payload
unfolding onion_loop layers
onion_loop-layers zero first fps payload h b = refl
onion_loop-layers (suc k) first fps payload h b =
    let e = drop-get_or k fps (omega arith) in
    let n : (length (first ∷ fps) - suc k) % 2 ^ 32 ≡ suc (length (drop (suc k) fps)) =
      omega (arith, length-drop_sub (suc k) fps) in
    rw n (
      ap (λ t. onion_loop k (first ∷ fps) (layers t payload)) (sym e)
      ∙ onion_loop-layers k first fps payload (omega arith) b)

pub length-layers :
    (fps : List Bytes) (payload : Bytes)
    → length (layers fps payload) ≡ 40 * length fps + length payload
unfolding layers
length-layers [] payload = omega arith
length-layers (fp ∷ fps) payload = omega (
  arith,
  length-build_relay_packet fp (layers fps payload) (suc (length fps)),
  length-layers fps payload,
)

pub parse_relay_header-layers :
    (fp : Bytes) (fps : List Bytes) (payload : Bytes)
    → IsName fp
    → 4 ≤ length payload
    → suc (length fps) < 2 ^ 32
    → parse_relay_header (layers (fp ∷ fps) payload)
      ≡ some (record {
        remaining_hops = suc (length fps);
        next_hop_fingerprint = fp;
        inner_payload = layers fps payload;
      })
unfolding layers
parse_relay_header-layers fp fps payload v h b =
    let inner = layers fps payload in
    let long : ltb (length inner) 4 ≡ false = ground (arith, length-layers fps payload) in
    let name : from_utf8_lossy (take 32 fp) ≡ fp =
      ap from_utf8_lossy (take_all 32 fp v.fits) ∙ from_utf8_lossy_text fp v.text in
    parse_relay_header-build_relay_packet fp inner (suc (length fps)) v.no_null b
    ∙ rw (long, name) refl

layers-Peels :
    (fps : List Bytes) (payload : Bytes)
    → All IsName fps
    → 4 ≤ length payload
    → length fps < 2 ^ 32
    → Peels fps payload (layers fps payload)
unfolding layers
layers-Peels [] payload a h b = refl
layers-Peels (fp ∷ fps) payload a h b = (
  _,
  parse_relay_header-layers fp fps payload a.0 h b,
  refl,
  refl,
  layers-Peels fps payload a.1 h (omega arith),
)

-- No name stands twice.
abbrev pub Apart : List Bytes → Type 0
Apart [] = Unit {0}
Apart (fp ∷ fps) = (contains fp fps ≡ false) × Apart fps

abbrev Unseen : List Bytes → List Bytes → Type 0
Unseen seen fps = All (λ fp. contains fp seen ≡ false) fps

contains_snoc :
    (f fp : Bytes) (seen : List Bytes)
    → contains f (seen ++ (fp ∷ [])) ≡ (contains f seen || equal fp f)
contains_snoc f fp [] = ground arith
contains_snoc f fp (x ∷ seen) = ground (arith, contains_snoc f fp seen)

seen_more :
    (fps seen : List Bytes) (fp : Bytes)
    → contains fp fps ≡ false
    → Unseen seen fps
    → Unseen (seen ++ (fp ∷ [])) fps
seen_more [] seen fp c u = tt
seen_more (f ∷ fps) seen fp c u = (
  ground (arith, contains_snoc f fp seen, equal_iff f fp, equal_iff fp f, u.0),
  seen_more fps seen fp (ground arith) u.1,
)

any_again-Apart : (fps seen : List Bytes) → Apart fps → Unseen seen fps → any_again seen fps ≡ false
unfolding any_again
any_again-Apart [] seen a u = refl
any_again-Apart (fp ∷ fps) seen a u =
    ground (arith, u.0, any_again-Apart fps (seen ++ (fp ∷ [])) a.1 (seen_more fps seen fp a.0 u.1))

none_seen : (fps : List Bytes) → Unseen [] fps
none_seen [] = tt
none_seen (fp ∷ fps) = (refl, none_seen fps)

-- A name with at least one byte.
any_empty_none : (fps : List Bytes) → All (λ fp. 1 ≤ length fp) fps → any_empty fps ≡ false
any_empty_none [] a = refl
any_empty_none (fp ∷ fps) a = ground (arith, any_empty_none fps a.1)

pub build_onion_route-layers :
    (first : Bytes) (fps : List Bytes) (payload : Bytes)
    → All (λ fp. 1 ≤ length fp) (first ∷ fps)
    → Apart (first ∷ fps)
    → 1 ≤ length fps
    → length fps ≤ max_hops
    → build_onion_route (first ∷ fps) payload ≡ some (layers fps payload)
unfolding build_onion_route layers
build_onion_route-layers first fps payload full apart some_hops few =
    let again : any_again [] (first ∷ fps) ≡ false =
      any_again-Apart (first ∷ fps) [] apart (none_seen (first ∷ fps)) in
    let empty : any_empty (first ∷ fps) ≡ false = any_empty_none (first ∷ fps) full in
    let built : onion_loop (length fps) (first ∷ fps) payload ≡ layers fps payload =
      ap (λ t. onion_loop (length fps) (first ∷ fps) (layers t payload))
        (sym (drop_all (length fps) fps (omega arith)))
      ∙ onion_loop-layers (length fps) first fps payload (omega arith) (omega arith) in
    let whole : suc (length fps) - 1 ≡ length fps = omega arith in
    let two : ltb (suc (length fps)) 2 ≡ false = ground arith in
    let six : ltb 6 (suc (length fps)) ≡ false = ground arith in
    rw (two, six, empty, again, whole) (ap some built)

-- For a route of a first peer and one to five further hops, all different and not empty, the further ones names of at most 32 bytes, and a payload of at least four bytes, an onion is built. Peeled hop by hop, it names the further hops in their order, at each with the number of hops that are left, at most five, and at the end it gives the payload.
pub build_onion_route-Peels :
    (first : Bytes) (fps : List Bytes) (payload : Bytes)
    → All (λ fp. 1 ≤ length fp) (first ∷ fps)
    → Apart (first ∷ fps)
    → All IsName fps
    → 1 ≤ length fps
    → length fps ≤ max_hops
    → 4 ≤ length payload
    → (onion : Bytes) × (build_onion_route (first ∷ fps) payload ≡ some onion)
      × Peels fps payload onion
build_onion_route-Peels first fps payload full apart names some_hops few long = (
  layers fps payload,
  build_onion_route-layers first fps payload full apart some_hops few,
  layers-Peels fps payload names long (omega arith),
)
