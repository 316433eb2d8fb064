-- ===== src/Relay/Derp/Runs.antt =====
-- Histories of the blind relay of src/ghost/net/relay.rs: its counters and its quota.
use vantablack.Prelude.{
  ℕ, ◌+◌, ◌-◌, ◌*◌, ◌/◌, ◌%◌, ◌^◌, ◌≤◌, ◌<◌, ◌≡◌, refl, Bool, true, false, Option, none, some, List,
  [], ◌∷◌, arith, ◌&&◌, ◌||◌, not, ltb, leb, ◌==◌, if◌then◌else◌, length, take, length-drop,
}
use vantablack.Prelude.Bytes.{Bytes, from_be_bytes, equal, slice}
use vantablack.Prelude.Dict.{Dict, lookup}
use vantablack.Prelude.Utf8.{from_utf8}
use vantablack.Relay.Flow.{FlowController, try_consume_transit}
use vantablack.Relay.Flow.Rate.{credit, try_consume_transit-credit}
use vantablack.Relay.Envelope.{
  BlindFrame, parse_blind_frame, blind_frame_on, blind_magic, relay_magic, fp_name,
}
use vantablack.Relay.Derp.{
  DerpRelay, DropReason, Forwarded, deliver, dropped, new, authorize, deauthorize,
  add_relay_candidate, is_authorized, forward, forward_frame, forward_to, forward_rationed,
  not_an_envelope, not_blind_forward, unauthorized_sender, reflected, refuse,
}

-- A call of the relay.
pub data Call : Type 0 where
  authorizes candidate : (fp : Bytes) (addr : ℕ) → Call
  deauthorizes : (fp : Bytes) → Call
  frame_from : (from_fp payload : Bytes) (now : ℕ) → Call

-- What a list of calls has the relay forward, and the relay after it.
unfoldable pub outcomes : List Call → DerpRelay → List Forwarded
unfolding authorize deauthorize add_relay_candidate forward
outcomes [] r = []
outcomes (authorizes fp addr ∷ cs) r = outcomes cs (authorize fp addr r)
outcomes (candidate fp addr ∷ cs) r = outcomes cs (add_relay_candidate fp addr r)
outcomes (deauthorizes fp ∷ cs) r = outcomes cs (deauthorize fp r)
outcomes (frame_from from_fp payload now ∷ cs) r =
    let (out, r') = forward from_fp payload now r in out ∷ outcomes cs r'

unfoldable pub run : List Call → DerpRelay → DerpRelay
unfolding authorize deauthorize add_relay_candidate forward
run [] r = r
run (authorizes fp addr ∷ cs) r = run cs (authorize fp addr r)
run (candidate fp addr ∷ cs) r = run cs (add_relay_candidate fp addr r)
run (deauthorizes fp ∷ cs) r = run cs (deauthorize fp r)
run (frame_from from_fp payload now ∷ cs) r =
    let (out, r') = forward from_fp payload now r in run cs r'

-- The bytes and the frames delivered, and the refusals that are counted.
abbrev pub bytes_of : Forwarded → ℕ
bytes_of (deliver dest bytes) = length bytes
bytes_of (dropped why) = 0

abbrev pub frames_of : Forwarded → ℕ
frames_of (deliver dest bytes) = 1
frames_of (dropped why) = 0

abbrev pub refusals_of : Forwarded → ℕ
refusals_of (deliver dest bytes) = 0
refusals_of (dropped not_an_envelope) = 0
refusals_of (dropped not_blind_forward) = 0
refusals_of (dropped _) = 1

abbrev pub total : (Forwarded → ℕ) → List Forwarded → ℕ
total f [] = 0
total f (o ∷ os) = f o + total f os

-- What one frame does to the counters and to the quota.
pub record Accounted (t : ℕ) (r : DerpRelay) (out : Forwarded) (r' : DerpRelay) : Type 0 where
  pub frames : r'.forwarded_frames ≡ (r.forwarded_frames + frames_of out) % 2 ^ 64
  pub bytes : r'.forwarded_bytes ≡ (r.forwarded_bytes + bytes_of out) % 2 ^ 64
  pub refusals : r'.dropped_frames ≡ (r.dropped_frames + refusals_of out) % 2 ^ 64
  pub paid : bytes_of out * 1000000000 + credit t r'.flow ≤ credit t r.flow

-- The counters fit 64 bits.
pub record IsDerp (r : DerpRelay) : Type 0 where
  pub frames_fit : r.forwarded_frames < 2 ^ 64
  pub bytes_fit : r.forwarded_bytes < 2 ^ 64
  pub refusals_fit : r.dropped_frames < 2 ^ 64

opaque_length :
    (payload : Bytes) (frame : BlindFrame)
    → parse_blind_frame payload ≡ some frame
    → length frame.opaque ≤ length payload
unfolding parse_blind_frame
opaque_length payload frame h = read (from_utf8 (fp_name (slice 8 32 payload))) (
    past (not (from_be_bytes (slice 4 4 payload) == 0)) _
      (past (ltb (length payload) 40 || not (equal (take 4 payload) blind_magic)) _ h))
  where
    past :
        (c : Bool) (o : Option BlindFrame) → (if c then none else o) ≡ some frame → o ≡ some frame
    past true o h = ground arith
    past false o h = h

    read :
        (o : Option Bytes)
        → blind_frame_on o payload ≡ some frame
        → length frame.opaque ≤ length payload
    read none h = ground arith
    read (some fp) h = ground (arith, length-drop 40 payload)

forward_rationed-Accounted :
    (q : Bool × FlowController) (t len dest : ℕ) (frame : BlindFrame) (r : DerpRelay)
    → IsDerp r
    → length frame.opaque ≤ len
    → (if q.0 then len else 0) * 1000000000 + credit t q.1 ≤ credit t r.flow
    → let (out, r') = forward_rationed q dest frame r in Accounted t r out r'
unfolding forward_rationed
forward_rationed-Accounted (true, flow) t len dest frame r v h p = record {
  frames = refl;
  bytes = refl;
  refusals = omega (arith, v.refusals_fit);
  paid = omega (arith, h, p);
}
forward_rationed-Accounted (false, flow) t len dest frame r v h p = record {
  frames = omega (arith, v.frames_fit);
  bytes = omega (arith, v.bytes_fit);
  refusals = refl;
  paid = omega (arith, p);
}

forward_to-Accounted :
    (o : Option ℕ) (t len now : ℕ) (frame : BlindFrame) (r : DerpRelay)
    → IsDerp r
    → length frame.opaque ≤ len
    → now ≤ t
    → let (out, r') = forward_to o len now frame r in Accounted t r out r'
unfolding forward_to
forward_to-Accounted none t len now frame r v h k = record {
  frames = omega (arith, v.frames_fit);
  bytes = omega (arith, v.bytes_fit);
  refusals = refl;
  paid = omega arith;
}
forward_to-Accounted (some dest) t len now frame r v h k =
    forward_rationed-Accounted (try_consume_transit len now r.flow) t len dest frame r v h
      (try_consume_transit-credit len t now r.flow k)

forward_frame-Accounted :
    (o : Option BlindFrame) (from_fp payload : Bytes) (t now : ℕ) (r : DerpRelay)
    → IsDerp r
    → parse_blind_frame payload ≡ o
    → now ≤ t
    → let (out, r') = forward_frame o from_fp payload now r in Accounted t r out r'
unfolding forward_frame
forward_frame-Accounted none from_fp payload t now r v e k =
    uncounted (leb 40 (length payload) && equal (take 4 payload) relay_magic)
  where
    uncounted :
        (c : Bool) → Accounted t r (dropped (if c then not_blind_forward else not_an_envelope)) r
    uncounted true = record {
      frames = omega (arith, v.frames_fit);
      bytes = omega (arith, v.bytes_fit);
      refusals = omega (arith, v.refusals_fit);
      paid = omega arith;
    }
    uncounted false = record {
      frames = omega (arith, v.frames_fit);
      bytes = omega (arith, v.bytes_fit);
      refusals = omega (arith, v.refusals_fit);
      paid = omega arith;
    }
forward_frame-Accounted (some frame) from_fp payload t now r v e k =
    either (not (is_authorized from_fp r)) _ _ (refused unauthorized_sender refl) (
      either (equal frame.target_fingerprint from_fp) _ _ (refused reflected refl) (
        forward_to-Accounted (lookup frame.target_fingerprint r.authorized) t (length payload) now
          frame r v (opaque_length payload frame e) k))
  where
    either :
        (c : Bool) (x y : Forwarded × DerpRelay)
        → Accounted t r x.0 x.1
        → Accounted t r y.0 y.1
        → let (out, r') = (if c then x else y) in Accounted t r out r'
    either true x y a b = a
    either false x y a b = b

    refused :
        (why : DropReason)
        → refusals_of (dropped why) ≡ 1
        → let (out, r') = refuse why r in Accounted t r out r'
    refused why one = record {
      frames = omega (arith, v.frames_fit);
      bytes = omega (arith, v.bytes_fit);
      refusals = rw one refl;
      paid = omega arith;
    }

-- The clock never reads more than `t`.
abbrev pub Until : ℕ → List Call → Type 0
Until t [] = Unit {0}
Until t (frame_from from_fp payload now ∷ cs) = (now ≤ t) × Until t cs
Until t (c ∷ cs) = Until t cs

forward-Accounted :
    (from_fp payload : Bytes) (t now : ℕ) (r : DerpRelay)
    → IsDerp r
    → now ≤ t
    → let (out, r') = forward from_fp payload now r in Accounted t r out r'
unfolding forward
forward-Accounted from_fp payload t now r v k =
    forward_frame-Accounted (parse_blind_frame payload) from_fp payload t now r v refl k

Accounted-IsDerp :
    {t : ℕ} {r : DerpRelay} {out : Forwarded} {r' : DerpRelay} → Accounted t r out r' → IsDerp r'
Accounted-IsDerp a = record {
  frames_fit = omega (arith, a.frames);
  bytes_fit = omega (arith, a.bytes);
  refusals_fit = omega (arith, a.refusals);
}

-- The counters after any calls, and what the calls cost.
pub record Tallied (t : ℕ) (r : DerpRelay) (cs : List Call) : Type 0 where
  pub frames :
      (run cs r).forwarded_frames ≡ (r.forwarded_frames + total frames_of (outcomes cs r)) % 2 ^ 64
  pub bytes :
      (run cs r).forwarded_bytes ≡ (r.forwarded_bytes + total bytes_of (outcomes cs r)) % 2 ^ 64
  pub refusals :
      (run cs r).dropped_frames ≡ (r.dropped_frames + total refusals_of (outcomes cs r)) % 2 ^ 64
  pub paid : total bytes_of (outcomes cs r) * 1000000000 ≤ credit t r.flow

-- Calls other than a frame leave the counters.
keeps-IsDerp :
    (r : DerpRelay) (authorized candidates : Dict ℕ)
    → IsDerp r
    → IsDerp (record r { authorized = authorized; candidates = candidates })
keeps-IsDerp r authorized candidates v = record {
  frames_fit = v.frames_fit;
  bytes_fit = v.bytes_fit;
  refusals_fit = v.refusals_fit;
}

run-Tallied : (cs : List Call) (t : ℕ) (r : DerpRelay) → IsDerp r → Until t cs → Tallied t r cs
unfolding run outcomes
run-Tallied [] t r v u = record {
  frames = omega (arith, v.frames_fit);
  bytes = omega (arith, v.bytes_fit);
  refusals = omega (arith, v.refusals_fit);
  paid = omega arith;
}
run-Tallied (authorizes fp addr ∷ cs) t r v u =
    let w = run-Tallied cs t (authorize fp addr r) (keeps-IsDerp r _ _ v) u in
    record { frames = w.frames; bytes = w.bytes; refusals = w.refusals; paid = w.paid }
run-Tallied (candidate fp addr ∷ cs) t r v u =
    let w = run-Tallied cs t (add_relay_candidate fp addr r) (keeps-IsDerp r _ _ v) u in
    record { frames = w.frames; bytes = w.bytes; refusals = w.refusals; paid = w.paid }
run-Tallied (deauthorizes fp ∷ cs) t r v u =
    let w = run-Tallied cs t (deauthorize fp r) (keeps-IsDerp r _ _ v) u in
    record { frames = w.frames; bytes = w.bytes; refusals = w.refusals; paid = w.paid }
run-Tallied (frame_from from_fp payload now ∷ cs) t r v u =
    let a = forward-Accounted from_fp payload t now r v u.0 in
    let w = run-Tallied cs t (forward from_fp payload now r).1 (Accounted-IsDerp a) u.1 in
    record {
      frames = omega (arith, a.frames, w.frames);
      bytes = omega (arith, a.bytes, w.bytes);
      refusals = omega (arith, a.refusals, w.refusals);
      paid = omega (arith, a.paid, w.paid);
    }

-- From a new relay on, over any calls, as long as the clock never reads more than `t`: the
-- counters are the numbers, modulo 2^64, of the frames delivered, of their bytes and of the
-- refused frames other than those that are no blind frame; and the bytes delivered are at most
-- the tokens that the transit bucket held and those that its rate brings until `t`.
pub run-new :
    (cs : List Call) (t : ℕ) (flow : FlowController)
    → Until t cs
    → ((run cs (new flow)).forwarded_frames ≡ total frames_of (outcomes cs (new flow)) % 2 ^ 64)
      × ((run cs (new flow)).forwarded_bytes ≡ total bytes_of (outcomes cs (new flow)) % 2 ^ 64)
      × ((run cs (new flow)).dropped_frames ≡ total refusals_of (outcomes cs (new flow)) % 2 ^ 64)
      × (total bytes_of (outcomes cs (new flow))
          ≤ flow.transit_bucket + flow.transit_rate * (t - flow.last_replenish) / 1000000000)
unfolding new credit
run-new cs t flow u =
    let w =
      run-Tallied cs t (new flow)
        (record { frames_fit = omega arith; bytes_fit = omega arith; refusals_fit = omega arith })
        u in
    (
      omega (arith, w.frames),
      omega (arith, w.bytes),
      omega (arith, w.refusals),
      omega (arith, w.paid),
    )
