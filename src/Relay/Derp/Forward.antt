-- ===== src/Relay/Derp/Forward.antt =====
-- What the blind relay of src/ghost/net/relay.rs lets through.
use vantablack.Prelude.{
  ℕ, ◌≡◌, refl, Bool, true, false, Option, none, some, arith, if◌then◌else◌, length, Bool-cases,
  inl, inr,
}
use vantablack.Prelude.Bytes.{Bytes, equal}
use vantablack.Prelude.Dict.{lookup}
use vantablack.Relay.Flow.{FlowController, try_consume_transit}
use vantablack.Relay.Envelope.{BlindFrame, parse_blind_frame, wrap_blind_frame}
use vantablack.Relay.Envelope.Layout.{IsName, parse_blind_frame-wrap_blind_frame}
use vantablack.Relay.Derp.{
  DerpRelay, deliver, dropped, is_authorized, forward, forward_frame, forward_to, forward_rationed,
  quota_exceeded,
}

-- What a relay may deliver: the opaque region of a blind frame, at the address of a target that is
-- not the sender, for a sender with a session.
pub record Allowed (from_fp payload : Bytes) (r : DerpRelay) (dest : ℕ) (bytes : Bytes)
    : Type 0 where
  pub frame : BlindFrame
  pub parsed : parse_blind_frame payload ≡ some frame
  pub sender : is_authorized from_fp r ≡ true
  pub other : equal frame.target_fingerprint from_fp ≡ false
  pub address : lookup frame.target_fingerprint r.authorized ≡ some dest
  pub verbatim : bytes ≡ frame.opaque

-- A wrapped frame that an authorised sender addresses to another authorised peer, whose name is a
-- text of at most 32 bytes without a null, is delivered to that peer's address when the quota
-- lets it through, and the bytes delivered are the ones that were wrapped; otherwise it is
-- dropped because of the quota.
pub forward-wrap_blind_frame :
    (from_fp target opaque : Bytes) (dest now : ℕ) (r : DerpRelay)
    → IsName target
    → is_authorized from_fp r ≡ true
    → equal target from_fp ≡ false
    → lookup target r.authorized ≡ some dest
    → (forward from_fp (wrap_blind_frame target opaque) now r).0 ≡ (
        if (try_consume_transit (length (wrap_blind_frame target opaque)) now r.flow).0
        then deliver dest opaque
        else dropped quota_exceeded)
unfolding forward
forward-wrap_blind_frame from_fp target opaque dest now r v a o l =
    let p = (parse_blind_frame-wrap_blind_frame target opaque v).0 in
    rw (p, a, o, l)
      (rationed (try_consume_transit (length (wrap_blind_frame target opaque)) now r.flow))
  where
    rationed :
        (q : Bool × FlowController)
        → (forward_rationed q dest (record { target_fingerprint = target; opaque = opaque }) r).0
          ≡ (if q.0 then deliver dest opaque else dropped quota_exceeded)
    rationed (true, f) = refl
    rationed (false, f) = refl

forward_to-some :
    (o : Option ℕ) (len now dest : ℕ) (frame : BlindFrame) (r : DerpRelay) (bytes : Bytes)
    → (forward_to o len now frame r).0 ≡ deliver dest bytes
    → (o ≡ some dest) × (bytes ≡ frame.opaque)
unfolding forward_to
forward_to-some none len now dest frame r bytes h = ground arith
forward_to-some (some d) len now dest frame r bytes h =
    rationed (try_consume_transit len now r.flow) h
  where
    rationed :
        (q : Bool × FlowController)
        → (forward_rationed q d frame r).0 ≡ deliver dest bytes
        → (some d ≡ some dest) × (bytes ≡ frame.opaque)
    rationed (true, f) h = (ground arith, ground arith)
    rationed (false, f) h = ground arith

forward_frame-Allowed :
    (o : Option BlindFrame) (from_fp payload : Bytes) (now dest : ℕ) (r : DerpRelay) (bytes : Bytes)
    → parse_blind_frame payload ≡ o
    → (forward_frame o from_fp payload now r).0 ≡ deliver dest bytes
    → Allowed from_fp payload r dest bytes
unfolding forward_frame
forward_frame-Allowed none from_fp payload now dest r bytes e h = ground arith
forward_frame-Allowed (some frame) from_fp payload now dest r bytes e h =
    elim (Bool-cases (is_authorized from_fp r)) [
      | inl a ↦ elim (Bool-cases (equal frame.target_fingerprint from_fp)) [
        | inl o ↦ absurd (ground arith)
        | inr o ↦
            let sent =
              forward_to-some (lookup frame.target_fingerprint r.authorized) (length payload) now
                dest frame r bytes (ground arith) in
            record {
              frame = frame;
              parsed = e;
              sender = a;
              other = o;
              address = sent.0;
              verbatim = sent.1;
            }
      ]
      | inr a ↦ absurd (ground arith)
    ]

-- Whatever bytes arrive from whomever, if they are delivered, then they are a blind frame, the
-- sender has a session, the target is another peer with a session, the destination is that peer's
-- address, and what is delivered is the frame's opaque region.
pub forward-Allowed :
    (from_fp payload : Bytes) (now dest : ℕ) (r : DerpRelay) (bytes : Bytes)
    → (forward from_fp payload now r).0 ≡ deliver dest bytes
    → Allowed from_fp payload r dest bytes
unfolding forward
forward-Allowed from_fp payload now dest r bytes h =
    forward_frame-Allowed (parse_blind_frame payload) from_fp payload now dest r bytes refl h
