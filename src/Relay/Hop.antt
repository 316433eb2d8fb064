-- ===== src/Relay/Hop.antt =====
-- One hop of an onion: `try_forward_relay` of src/ghost/net/relay.rs up to the bytes that are sealed
-- for the next hop. A session is a parameter; sealing, coding into shards and sending come after.
pub mod Route
mod Tests
use vantablack.Prelude.{
  ℕ, ◌-◌, ◌%◌, Bool, true, false, Option, none, some, List, [], ◌∷◌, ◌++◌, ltb, ◌==◌, if◌then◌else◌,
  length, replicate,
}
use vantablack.Prelude.Bytes.{Bytes, codes}
use vantablack.Prelude.Dict.{Dict, lookup}
use vantablack.Relay.Bundles.{Bundle, BundleBuffer, enqueue}
use vantablack.Relay.Envelope.{RelayHeader, parse_relay_header}

-- What a hop does: a drop, for one of three reasons; a bundle kept for later; or the bytes to seal
-- with the session and to send to the address.
pub data Hop {ℓ} (Session : Type ℓ) : Type ℓ where
  invalid_header no_hops_left no_session buffered : Hop Session
  sealed_for : (addr : ℕ) (session : Session) (framed : Bytes) → Hop Session

-- `framed`: the inner payload, marked at the last hop, and padded to an even length.
unfoldable pub framed_payload : RelayHeader → Bytes
framed_payload header =
    let new_remaining = header.remaining_hops - 1 in
    let inner_relay =
      if ltb 0 new_remaining then header.inner_payload else codes "DIR!" ++ header.inner_payload in
    if length inner_relay % 2 == 0 then inner_relay else inner_relay ++ (0 ∷ [])

-- The bundle that waits for a next hop without an address.
abbrev pub waiting : RelayHeader → ℕ → Bundle
waiting header now = record {
  target_fingerprint = header.next_hop_fingerprint;
  encrypted_shards = header.inner_payload ∷ [];
  session_hash = replicate 4 0;
  created_at = now;
  retries = 0;
  remaining_route = [];
}

module _ {ℓ} {Session : Type ℓ} where
  unfoldable pub hop_session :
      Option Session → ℕ → RelayHeader → BundleBuffer → Hop Session × BundleBuffer
  unfolding framed_payload
  hop_session none addr header buf = (no_session, buf)
  hop_session (some session) addr header buf =
      (sealed_for addr session (framed_payload header), buf)

  unfoldable pub hop_address :
      Option ℕ → Dict Session → RelayHeader → ℕ → BundleBuffer → Hop Session × BundleBuffer
  unfolding hop_session enqueue
  hop_address none sessions header now buf = (buffered, enqueue (waiting header now) buf)
  hop_address (some addr) sessions header now buf =
      hop_session (lookup header.next_hop_fingerprint sessions) addr header buf

  unfoldable pub hop_header :
      Option RelayHeader → Dict Session → Dict ℕ → ℕ → BundleBuffer → Hop Session × BundleBuffer
  unfolding hop_address
  hop_header none sessions peer_addrs now buf = (invalid_header, buf)
  hop_header (some header) sessions peer_addrs now buf =
      if header.remaining_hops == 0
      then (no_hops_left, buf)
      else hop_address (lookup header.next_hop_fingerprint peer_addrs) sessions header now buf

  -- `try_forward_relay`
  unfoldable pub try_forward_relay :
      Dict Session → Dict ℕ → Bytes → ℕ → BundleBuffer → Hop Session × BundleBuffer
  unfolding hop_header
  try_forward_relay sessions peer_addrs relay_payload now buf =
      hop_header (parse_relay_header relay_payload) sessions peer_addrs now buf
