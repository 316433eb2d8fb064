-- ===== src/Relay/Envelope.antt =====
-- The two envelopes of src/ghost/net/relay.rs, `RLY!` for the hops of an onion and `BLND` for the
-- blind forward: `[magic][hops u32][fingerprint 32, null-padded][payload]`. A text is its bytes.
pub mod Layout
pub mod Onion
pub mod Tests
use vantablack.Prelude.{
  ℕ, zero, suc, ◌+◌, ◌-◌, ◌%◌, ◌^◌, min, Bool, true, false, not, ◌||◌, Option, none, some, List, [],
  ◌∷◌, ◌++◌, ltb, ◌==◌, if◌then◌else◌, length, get_or, take, drop, replicate,
}
use vantablack.Prelude.Bytes.{Bytes, codes, to_be_bytes, from_be_bytes, equal, slice}
use vantablack.Prelude.Utf8.{from_utf8, from_utf8_lossy}

-- `RELAY_MAGIC`
abbrev pub relay_magic : Bytes
relay_magic = codes "RLY!"

-- `BLIND_MAGIC`
abbrev pub blind_magic : Bytes
blind_magic = codes "BLND"

-- `MAX_HOPS`
abbrev pub max_hops : ℕ
max_hops = 5

-- `RELAY_ENVELOPE_MIN`
abbrev pub relay_envelope_min : ℕ
relay_envelope_min = 40

-- The 32 bytes of a fingerprint: cut, and padded with nulls.
unfoldable pub fp_bytes : Bytes → Bytes
fp_bytes fingerprint =
    let copy_len = min (length fingerprint) 32 in
    take copy_len fingerprint ++ replicate (32 - copy_len) 0

-- `build_envelope`
unfoldable pub build_envelope : Bytes → Bytes → ℕ → Bytes → Bytes
unfolding fp_bytes
build_envelope magic fingerprint hops payload =
    magic ++ (to_be_bytes 4 hops ++ (fp_bytes fingerprint ++ payload))

-- `iter().position(|&b| b == 0)`
abbrev pub position_null : Bytes → Option ℕ
position_null [] = none
position_null (b ∷ bs) =
    if b == 0 then some 0 else elim (position_null bs) [ none ↦ none | some i ↦ some (suc i) ]

abbrev unwrap_or : ℕ → Option ℕ → ℕ
unwrap_or d none = d
unwrap_or d (some i) = i

-- `&fp_bytes[..end]`, where `end` is the first null or 32.
unfoldable pub fp_name : Bytes → Bytes
fp_name fp = take (unwrap_or 32 (position_null fp)) fp

pub record RelayHeader : Type 0 where
  pub remaining_hops : ℕ
  pub next_hop_fingerprint : Bytes
  pub inner_payload : Bytes

-- `parse_relay_header`
unfoldable pub parse_relay_header : Bytes → Option RelayHeader
unfolding fp_name
parse_relay_header data_ =
    if ltb (length data_) 44 || not (equal (take 4 data_) relay_magic)
    then none
    else some (record {
      remaining_hops = from_be_bytes (slice 4 4 data_);
      next_hop_fingerprint = from_utf8_lossy (fp_name (slice 8 32 data_));
      inner_payload = drop 40 data_;
    })

-- `build_relay_packet`
unfoldable pub build_relay_packet : Bytes → ℕ → Bytes → Bytes
unfolding build_envelope
build_relay_packet next_hop_fingerprint remaining_hops inner_payload =
    build_envelope relay_magic next_hop_fingerprint remaining_hops inner_payload

-- `contains`
abbrev pub contains : Bytes → List Bytes → Bool
contains fp [] = false
contains fp (x ∷ xs) = equal x fp || contains fp xs

abbrev any_empty : List Bytes → Bool
any_empty [] = false
any_empty (fp ∷ fps) = length fp == 0 || any_empty fps

-- Whether some entry stands in the route before itself; `seen` is `route[..index]`.
unfoldable pub any_again : List Bytes → List Bytes → Bool
any_again seen [] = false
any_again seen (fp ∷ fps) = contains fp seen || any_again (seen ++ (fp ∷ [])) fps

-- The loop over `(1..route.len()).rev()`, from index `i` on.
unfoldable pub onion_loop : ℕ → List Bytes → Bytes → Bytes
unfolding build_relay_packet
onion_loop zero route inner = inner
onion_loop (suc i) route inner =
    let remaining = (length route - suc i) % 2 ^ 32 in
    onion_loop i route (build_relay_packet (get_or route (suc i) []) remaining inner)

-- `build_onion_route`
unfoldable pub build_onion_route : List Bytes → Bytes → Option Bytes
unfolding any_again onion_loop
build_onion_route route payload =
    if ltb (length route) 2
      || ltb (max_hops + 1) (length route)
      || any_empty route
      || any_again [] route
    then none
    else some (onion_loop (length route - 1) route payload)

pub record BlindFrame : Type 0 where
  pub target_fingerprint : Bytes
  pub opaque : Bytes

abbrev pub blind_frame_on : Option Bytes → Bytes → Option BlindFrame
blind_frame_on none raw = none
blind_frame_on (some target_fingerprint) raw =
    some (record { target_fingerprint = target_fingerprint; opaque = drop relay_envelope_min raw })

-- `parse_blind_frame`
unfoldable pub parse_blind_frame : Bytes → Option BlindFrame
unfolding fp_name
parse_blind_frame raw =
    if ltb (length raw) relay_envelope_min || not (equal (take 4 raw) blind_magic)
    then none
    else if not (from_be_bytes (slice 4 4 raw) == 0)
    then none
    else blind_frame_on (from_utf8 (fp_name (slice 8 32 raw))) raw

-- `wrap_blind_frame`
unfoldable pub wrap_blind_frame : Bytes → Bytes → Bytes
unfolding build_envelope
wrap_blind_frame target_fp opaque = build_envelope blind_magic target_fp 0 opaque
