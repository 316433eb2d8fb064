-- ===== src/Relay/Derp.antt =====
-- `DerpRelay` of src/ghost/net/relay.rs, the blind relay. A socket address is a number, the entries
-- of a `DashMap` stand in the order of insertion, and the atomic operations of one call are taken
-- together. The transit quota is that of `Relay.Flow`.
pub mod Forward
pub mod Runs
pub mod Pick
mod Tests
use vantablack.Prelude.{
  ℕ, suc, ◌+◌, ◌%◌, ◌^◌, Bool, true, false, not, ◌&&◌, Option, none, some, List, [], ◌∷◌, ltb, leb,
  ◌==◌, if◌then◌else◌, length, take, is_some,
}
use vantablack.Prelude.Bytes.{Bytes, equal}
use vantablack.Prelude.Utf8.{text_ltb}
use vantablack.Prelude.Dict.{Dict, lookup, insert, remove}
use vantablack.Relay.Flow.{FlowController, try_consume_transit}
use vantablack.Relay.Envelope.{BlindFrame, relay_magic, relay_envelope_min, parse_blind_frame}

pub data DropReason : Type 0 where
  not_an_envelope not_blind_forward unauthorized_sender unknown_target quota_exceeded reflected :
      DropReason

pub data Forwarded : Type 0 where
  deliver : (dest : ℕ) (bytes : Bytes) → Forwarded
  dropped : DropReason → Forwarded

pub record DerpRelay : Type 0 where
  pub authorized : Dict ℕ
  pub candidates : Dict ℕ
  pub flow : FlowController
  pub forwarded_frames : ℕ
  pub forwarded_bytes : ℕ
  pub dropped_frames : ℕ

-- `new`
unfoldable pub new : FlowController → DerpRelay
new flow = record {
  authorized = [];
  candidates = [];
  flow = flow;
  forwarded_frames = 0;
  forwarded_bytes = 0;
  dropped_frames = 0;
}

-- `authorize`
unfoldable pub authorize : Bytes → ℕ → DerpRelay → DerpRelay
authorize fp addr r = record r { authorized = insert fp addr r.authorized }

-- `deauthorize`
unfoldable pub deauthorize : Bytes → DerpRelay → DerpRelay
deauthorize fp r = record r { authorized = remove fp r.authorized }

-- `is_authorized`
unfoldable pub is_authorized : Bytes → DerpRelay → Bool
is_authorized fp r = is_some (lookup fp r.authorized)

-- `add_relay_candidate`
unfoldable pub add_relay_candidate : Bytes → ℕ → DerpRelay → DerpRelay
add_relay_candidate fp addr r = record r { candidates = insert fp addr r.candidates }

-- `fetch_add` on a 64-bit counter.
abbrev pub fetch_add : ℕ → ℕ → ℕ
fetch_add a b = (a + b) % 2 ^ 64

-- A refusal that is counted.
abbrev pub refuse : DropReason → DerpRelay → Forwarded × DerpRelay
refuse why r = (dropped why, record r { dropped_frames = fetch_add r.dropped_frames 1 })

-- `forward` after the quota was asked.
unfoldable pub forward_rationed :
    Bool × FlowController → ℕ → BlindFrame → DerpRelay → Forwarded × DerpRelay
forward_rationed (false, flow) dest frame r = refuse quota_exceeded (record r { flow = flow })
forward_rationed (true, flow) dest frame r = (
  deliver dest frame.opaque,
  record r {
    flow = flow;
    forwarded_frames = fetch_add r.forwarded_frames 1;
    forwarded_bytes = fetch_add r.forwarded_bytes (length frame.opaque);
  },
)

-- `forward` after the target was looked up.
unfoldable pub forward_to : Option ℕ → ℕ → ℕ → BlindFrame → DerpRelay → Forwarded × DerpRelay
unfolding forward_rationed
forward_to none payload_len now frame r = refuse unknown_target r
forward_to (some dest) payload_len now frame r =
    forward_rationed (try_consume_transit payload_len now r.flow) dest frame r

-- `forward` after the envelope was parsed.
unfoldable pub forward_frame :
    Option BlindFrame → Bytes → Bytes → ℕ → DerpRelay → Forwarded × DerpRelay
unfolding forward_to is_authorized
forward_frame none from_fp payload now r =
    let is_onion = leb relay_envelope_min (length payload) && equal (take 4 payload) relay_magic in
    (dropped (if is_onion then not_blind_forward else not_an_envelope), r)
forward_frame (some frame) from_fp payload now r =
    if not (is_authorized from_fp r)
    then refuse unauthorized_sender r
    else if equal frame.target_fingerprint from_fp
    then refuse reflected r
    else forward_to (lookup frame.target_fingerprint r.authorized) (length payload) now frame r

-- `forward`
unfoldable pub forward : Bytes → Bytes → ℕ → DerpRelay → Forwarded × DerpRelay
unfolding forward_frame
forward from_fp payload now r = forward_frame (parse_blind_frame payload) from_fp payload now r

-- Whether the key `(!known, fp)` of one entry comes before that of another.
unfoldable pub before : DerpRelay → Bytes → Bytes → Bool
unfolding is_authorized
before r a b =
    if is_authorized a r
    then (if is_authorized b r then text_ltb a b else true)
    else if is_authorized b r
    then false
    else text_ltb a b

-- A stable sort by that key: each entry goes before the first one that comes after it.
unfoldable pub sort_in : DerpRelay → Bytes × ℕ → Dict ℕ → Dict ℕ
unfolding before
sort_in r (fp, addr) [] = (fp, addr) ∷ []
sort_in r (fp, addr) ((j, w) ∷ out) =
    let rest = sort_in r (fp, addr) out in
    if before r j fp then (j, w) ∷ rest else (fp, addr) ∷ (j, w) ∷ out

unfoldable pub sort_by_key : DerpRelay → Dict ℕ → Dict ℕ
unfolding sort_in
sort_by_key r [] = []
sort_by_key r (e ∷ out) = sort_in r e (sort_by_key r out)

-- `relay_candidates`
unfoldable pub relay_candidates : DerpRelay → Dict ℕ
unfolding sort_by_key
relay_candidates r = sort_by_key r r.candidates

-- `find(|(fp, _)| fp != our_fp && fp != target_fp)`
unfoldable pub find_other : Bytes → Bytes → Dict ℕ → Option (Bytes × ℕ)
find_other our_fp target_fp [] = none
find_other our_fp target_fp ((fp, addr) ∷ out) =
    if not (equal fp our_fp) && not (equal fp target_fp)
    then some (fp, addr)
    else find_other our_fp target_fp out

-- `pick_relay`
unfoldable pub pick_relay : Bytes → Bytes → DerpRelay → Option (Bytes × ℕ)
unfolding relay_candidates find_other
pick_relay our_fp target_fp r = find_other our_fp target_fp (relay_candidates r)
