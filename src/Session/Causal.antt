-- ===== src/Session/Causal.antt =====
-- `CausalMonotonicCounter` of src/ghost/session/ratchet.rs: replay rejection without a clock.
use vantablack.Prelude.{
  ℕ, ◌+◌, ◌*◌, ◌^◌, ◌≤◌, ◌<◌, min, ◌≡◌, ◌≢◌, List, [], ◌∷◌, arith, ltb, leb, ◌==◌, if◌then◌else◌,
  ◌↔◌, max,
}
use vantablack.Session.MsgChain.{u64_max}

pub record CausalMonotonicCounter : Type 0 where
  pub local_seq : ℕ
  pub observed_remote_seq : ℕ
  pub causal_epoch : ℕ

-- `new`
unfoldable pub new : CausalMonotonicCounter
new = record { local_seq = 0; observed_remote_seq = 0; causal_epoch = 0 }

-- `saturating_add(1)`
abbrev saturating_suc : ℕ → ℕ
saturating_suc n = min (n + 1) u64_max

-- `state`
unfoldable pub state : CausalMonotonicCounter → ℕ × ℕ × ℕ
state c = (c.causal_epoch, c.local_seq, c.observed_remote_seq)

-- `advance_local`
unfoldable pub advance_local : CausalMonotonicCounter → (ℕ × ℕ × ℕ) × CausalMonotonicCounter
advance_local c =
    let n = saturating_suc c.local_seq in
    ((c.causal_epoch, n, c.observed_remote_seq), record c { local_seq = n })

-- `advance_epoch`
unfoldable pub advance_epoch : CausalMonotonicCounter → ℕ × CausalMonotonicCounter
advance_epoch c =
    let n = saturating_suc c.causal_epoch in
    (n, record c { causal_epoch = n; local_seq = 0; observed_remote_seq = 0 })

pub data Verdict : Type 0 where
  ok obsolete_epoch obsolete_sequence : Verdict

-- `verify_and_observe`
unfoldable pub verify_and_observe :
    ℕ → ℕ → CausalMonotonicCounter → Verdict × CausalMonotonicCounter
verify_and_observe msg_causal_epoch msg_seq c =
    if ltb msg_causal_epoch c.causal_epoch
    then (obsolete_epoch, c)
    else if msg_causal_epoch == c.causal_epoch
    then if leb msg_seq c.observed_remote_seq
      then (obsolete_sequence, c)
      else (ok, record c { observed_remote_seq = msg_seq })
    else (ok, record c { causal_epoch = msg_causal_epoch; observed_remote_seq = msg_seq })

-- The place of a message in causal order: by epoch, then by sequence number.
abbrev pub rank : ℕ → ℕ → ℕ
rank epoch seq = epoch * 2 ^ 64 + seq

abbrev pub horizon : CausalMonotonicCounter → ℕ
horizon c = rank c.causal_epoch c.observed_remote_seq

abbrev pub IsBounded : CausalMonotonicCounter → Type 0
IsBounded c = c.observed_remote_seq ≤ u64_max

-- For sequence numbers of 64 bits, a message is accepted exactly if it lies beyond everything
-- observed in causal order; the horizon then moves to it and else stays, and the local sequence
-- never changes.
pub verify_and_observe_lem :
    (epoch seq : ℕ) (c : CausalMonotonicCounter)
    → seq ≤ u64_max
    → IsBounded c
    → let (verdict, c') = verify_and_observe epoch seq c in
      ((verdict ≡ ok) ↔ (horizon c < rank epoch seq))
      × (horizon c' ≡ max (horizon c) (rank epoch seq))
      × (c'.local_seq ≡ c.local_seq)
unfolding verify_and_observe
verify_and_observe_lem epoch seq c h b = ground arith

pub data Event : Type 0 where
  message : (epoch seq : ℕ) → Event
  sent new_epoch : Event

unfoldable pub react : Event → CausalMonotonicCounter → CausalMonotonicCounter
unfolding verify_and_observe advance_local advance_epoch
react (message epoch seq) c = (verify_and_observe epoch seq c).1
react sent c = (advance_local c).1
react new_epoch c = (advance_epoch c).1

unfoldable pub react_all : List Event → CausalMonotonicCounter → CausalMonotonicCounter
unfolding react
react_all [] c = c
react_all (e ∷ es) c = react_all es (react e c)

-- Sequence numbers fit 64 bits, and no epoch is advanced past the last one.
abbrev pub Fits : List Event → CausalMonotonicCounter → Type 0
Fits [] c = Unit {0}
Fits (message epoch seq ∷ es) c = (seq ≤ u64_max) × Fits es (react (message epoch seq) c)
Fits (sent ∷ es) c = Fits es (react sent c)
Fits (new_epoch ∷ es) c = (c.causal_epoch < u64_max) × Fits es (react new_epoch c)

message_grows :
    (epoch seq : ℕ) (c : CausalMonotonicCounter)
    → seq ≤ u64_max
    → IsBounded c
    → IsBounded (react (message epoch seq) c) × (horizon c ≤ horizon (react (message epoch seq) c))
unfolding react
message_grows epoch seq c h b = ground arith

observe-IsBounded :
    (epoch seq : ℕ) (c : CausalMonotonicCounter)
    → seq ≤ u64_max
    → IsBounded c
    → IsBounded (verify_and_observe epoch seq c).1
unfolding react
observe-IsBounded epoch seq c h b = (message_grows epoch seq c h b).0

react_all_grows :
    (es : List Event) (c : CausalMonotonicCounter)
    → Fits es c
    → IsBounded c
    → IsBounded (react_all es c) × (horizon c ≤ horizon (react_all es c))
unfolding react_all
react_all_grows [] c f b = (b, omega arith)
react_all_grows (message epoch seq ∷ es) c f b =
    let step = message_grows epoch seq c f.0 b in
    let rest = react_all_grows es _ f.1 step.0 in (rest.0, omega (arith, step.1, rest.1))
react_all_grows (sent ∷ es) c f b = react_all_grows es _ f b
react_all_grows (new_epoch ∷ es) c f b =
    let rest = react_all_grows es _ f.1 (omega arith) in (rest.0, omega (arith, rest.1))

-- A message with a 64-bit sequence number that was accepted once is refused ever after, whatever
-- is received or sent in between and however often the epoch advances, short of the last 64-bit
-- epoch.
pub verify_and_observe_once :
    (epoch seq : ℕ) (c : CausalMonotonicCounter) (between : List Event)
    → seq ≤ u64_max
    → IsBounded c
    → (verify_and_observe epoch seq c).0 ≡ ok
    → Fits between (verify_and_observe epoch seq c).1
    → (verify_and_observe epoch seq (react_all between (verify_and_observe epoch seq c).1)).0 ≢ ok
verify_and_observe_once epoch seq c between h b accepted f again =
    let first = verify_and_observe_lem epoch seq c h b in
    let kept : IsBounded (verify_and_observe epoch seq c).1 = (observe-IsBounded epoch seq c h b) in
    let later = react_all_grows between _ f kept in
    let second =
      verify_and_observe_lem epoch seq (react_all between (verify_and_observe epoch seq c).1) h
        later.0 in
    absurd (omega (arith, second.0.0 again, first.0.0 accepted, first.1, later.1))
