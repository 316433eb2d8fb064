-- ===== src/Session/Ratchet/Epochs.antt =====
-- The epochs that a `SessionRatchet` keeps (src/ghost/session/ratchet.rs): an
-- invariant of every operation.
use vantablack.Prelude.{
  ℕ, suc, ◌+◌, ◌≤◌, ◌<◌, ◌≡◌, refl, false, Option, none, some, List, [], ◌∷◌, arith, length, take,
  map, mem, Distinct, ap, subst,
}
use vantablack.Prelude.Bytes.{Bytes}
use vantablack.Session.Kdf.{Primitives}
use vantablack.Session.MsgChain.{OpenPlan, u64_max}
use vantablack.Session.Ratchet.{
  SessionRatchet, RatchetEpoch, PreparedEpoch, StepSecrets, NonceDirection, initiator_to_responder,
  responder_to_initiator, trim, retire, activate_with, activate, new, advance_seal, count_seal,
  openable_epochs,
}
use vantablack.Session.Ratchet.Step.{prepare_step, prepare_quantum_mix, step, mix_quantum_entropy}
use vantablack.Session.Ratchet.Open.{commit_open, commit_retired}

-- The retired epochs fall from the current one.
abbrev pub Falls : ℕ → List RatchetEpoch → Type 0
Falls b [] = Unit {0}
Falls b (e ∷ es) = (e.epoch < b) × Falls e.epoch es

abbrev pub PendingIsNext : ℕ → Option PreparedEpoch → Type 0
PendingIsNext n none = Unit {0}
PendingIsNext n (some q) = q.epoch ≡ suc n

-- At most two retired epochs, each older than the one before it, and a prepared epoch is the next.
pub record IsRatchet (r : SessionRatchet) : Type 0 where
  pub few : length r.retired ≤ 2
  pub falls : Falls r.epoch r.retired
  pub next : PendingIsNext r.epoch r.pending

abbrev pub retiring : SessionRatchet → RatchetEpoch
retiring r = record {
  epoch = r.epoch;
  to_resp = r.to_resp.msg_chain;
  to_init = r.to_init.msg_chain;
}

trim_two :
    (e : RatchetEpoch) (es : List RatchetEpoch)
    → length es ≤ 2
    → trim (length (e ∷ es)) (e ∷ es) ≡ e ∷ take 1 es
unfolding trim
trim_two e [] h = refl
trim_two e (a ∷ []) h = refl
trim_two e (a ∷ b ∷ []) h = refl
trim_two e (a ∷ b ∷ c ∷ es) h = absurd (omega arith)

pub retire_lem :
    (r : SessionRatchet) → length r.retired ≤ 2 → retire r ≡ retiring r ∷ take 1 r.retired
unfolding retire
retire_lem r h = trim_two (retiring r) r.retired h

Falls-take : (b : ℕ) (es : List RatchetEpoch) → Falls b es → Falls b (take 1 es)
Falls-take b [] h = tt
Falls-take b (e ∷ es) h = (h.0, tt)

length-take_one : (es : List RatchetEpoch) → length (take 1 es) ≤ 1
length-take_one [] = omega arith
length-take_one (e ∷ es) = omega arith

-- The retired epochs after entering an epoch above the current one.
retire-Falls :
    (r : SessionRatchet) (n : ℕ)
    → IsRatchet r
    → r.epoch < n
    → (length (retire r) ≤ 2) × Falls n (retire r)
retire-Falls r n v up =
    rw (retire_lem r v.few)
      (omega (arith, length-take_one r.retired), (up, Falls-take r.epoch r.retired v.falls))

mem-Falls :
    (b n : ℕ) (es : List RatchetEpoch) → Falls b es → b ≤ n → mem n (map (λ e. e.epoch) es) ≡ false
mem-Falls b n [] f h = refl
mem-Falls b n (e ∷ es) f h = ground (arith, mem-Falls e.epoch n es f.1)

Falls-Distinct : (b : ℕ) (es : List RatchetEpoch) → Falls b es → Distinct (map (λ e. e.epoch) es)
Falls-Distinct b [] f = tt
Falls-Distinct b (e ∷ es) f =
    (mem-Falls e.epoch e.epoch es f.1 (omega arith), Falls-Distinct e.epoch es f.1)

length-epochs : (es : List RatchetEpoch) → length (map (λ e. e.epoch) es) ≡ length es
length-epochs [] = refl
length-epochs (e ∷ es) = ap suc (length-epochs es)

openable-Distinct :
    (r : SessionRatchet) (o : Option PreparedEpoch)
    → r.pending ≡ o
    → IsRatchet r
    → Distinct (openable_epochs r) × (length (openable_epochs r) ≤ 4)
unfolding openable_epochs
openable-Distinct r none e v = rw e (
  (
    mem-Falls r.epoch r.epoch r.retired v.falls (omega arith),
    Falls-Distinct r.epoch r.retired v.falls,
  ),
  omega (arith, length-epochs r.retired, v.few),
)
openable-Distinct r (some q) e v =
    let next : q.epoch ≡ suc r.epoch = subst (PendingIsNext r.epoch) e v.next in
    rw e (
      ground (
        arith,
        mem-Falls r.epoch r.epoch r.retired v.falls,
        mem-Falls r.epoch q.epoch r.retired v.falls,
        Falls-Distinct r.epoch r.retired v.falls,
        length-epochs r.retired,
        next,
      ))

-- What a session does to its ratchet.
pub data Op : Type 0 where
  seal : NonceDirection → Op
  count : Op
  open_frame : ℕ → NonceDirection → OpenPlan → Op
  prepares : StepSecrets → NonceDirection → Op
  prepares_mix : Bytes → NonceDirection → Op
  activates : ℕ → Op
  steps : StepSecrets → Op
  mixes : Bytes → Op

commit_retired-Falls :
    (b n : ℕ) (d : NonceDirection) (o : OpenPlan) (es : List RatchetEpoch)
    → Falls b es
    → Falls b (commit_retired n d o es) × (length (commit_retired n d o es) ≡ length es)
unfolding commit_retired
commit_retired-Falls b n d o [] h = (tt, refl)
commit_retired-Falls b n initiator_to_responder o (e ∷ es) h =
    ground (arith, commit_retired-Falls e.epoch n initiator_to_responder o es h.1)
commit_retired-Falls b n responder_to_initiator o (e ∷ es) h =
    ground (arith, commit_retired-Falls e.epoch n responder_to_initiator o es h.1)

commit_open-IsRatchet :
    (n : ℕ) (d : NonceDirection) (o : OpenPlan) (r : SessionRatchet)
    → IsRatchet r
    → IsRatchet (commit_open n d o r)
unfolding commit_open
commit_open-IsRatchet n initiator_to_responder o r v =
    ground (arith, commit_retired-Falls r.epoch n initiator_to_responder o r.retired v.falls)
commit_open-IsRatchet n responder_to_initiator o r v =
    ground (arith, commit_retired-Falls r.epoch n responder_to_initiator o r.retired v.falls)

commit_open-epoch :
    (n : ℕ) (d : NonceDirection) (o : OpenPlan) (r : SessionRatchet)
    → (commit_open n d o r).epoch ≡ r.epoch
unfolding commit_open
commit_open-epoch n initiator_to_responder o r = ground arith
commit_open-epoch n responder_to_initiator o r = ground arith

module _ (p : Primitives) where
  unfoldable pub apply : Op → SessionRatchet → SessionRatchet
  unfolding step mix_quantum_entropy activate prepare_step prepare_quantum_mix commit_open
      count_seal advance_seal
  apply (seal d) r = (advance_seal p d r).1
  apply count r = (count_seal r).1
  apply (open_frame n d o) r = commit_open n d o r
  apply (prepares s d) r = (prepare_step p s d r).1
  apply (prepares_mix q d) r = (prepare_quantum_mix p q d r).1
  apply (activates n) r = (activate n r).1
  apply (steps s) r = (step p s r).1
  apply (mixes q) r = (mix_quantum_entropy p q r).1

  activate-IsRatchet :
      (n : ℕ) (r : SessionRatchet) (o : Option PreparedEpoch)
      → r.pending ≡ o
      → IsRatchet r
      → let r' = (activate_with o n r).1 in
        IsRatchet r' × (r.epoch ≤ r'.epoch) × (r'.epoch ≤ suc r.epoch)
  unfolding activate_with
  activate-IsRatchet n r none e v = (v, omega arith, omega arith)
  activate-IsRatchet n r (some q) e v =
      let next : q.epoch ≡ suc r.epoch = subst (PendingIsNext r.epoch) e v.next in
      ground (arith, next, retire-Falls r q.epoch v)

  -- Each operation on a well-formed ratchet below the last 64-bit epoch leaves it well formed,
  -- and its epoch the same or the next.
  pub apply-IsRatchet :
      (op : Op) (r : SessionRatchet)
      → r.epoch < u64_max
      → IsRatchet r
      → IsRatchet (apply op r) × (r.epoch ≤ (apply op r).epoch) × ((apply op r).epoch ≤ suc r.epoch)
  unfolding apply
  apply-IsRatchet (seal initiator_to_responder) r h v = ground arith
  apply-IsRatchet (seal responder_to_initiator) r h v = ground arith
  apply-IsRatchet count r h v = ground arith
  apply-IsRatchet (open_frame n d o) r h v =
      let kept = commit_open-epoch n d o r in
      (commit_open-IsRatchet n d o r v, omega (arith, kept), omega (arith, kept))
  apply-IsRatchet (prepares s d) r h v = ground arith
  apply-IsRatchet (prepares_mix q d) r h v = ground arith
  apply-IsRatchet (activates n) r h v = activate-IsRatchet n r r.pending refl v
  apply-IsRatchet (steps s) r h v = ground (arith, retire-Falls r (suc r.epoch) v)
  apply-IsRatchet (mixes q) r h v = ground (arith, retire-Falls r (suc r.epoch) v)

  unfoldable pub run : List Op → SessionRatchet → SessionRatchet
  unfolding apply
  run [] r = r
  run (op ∷ ops) r = run ops (apply op r)

  -- Any sequence of operations that cannot carry the epoch past the last 64-bit one keeps a
  -- ratchet well formed: at most two retired epochs, falling from the current one, and a prepared
  -- epoch that is the next.
  pub run-IsRatchet :
      (ops : List Op) (r : SessionRatchet)
      → r.epoch + length ops ≤ u64_max
      → IsRatchet r
      → IsRatchet (run ops r)
  unfolding run
  run-IsRatchet [] r h v = v
  run-IsRatchet (op ∷ ops) r h v =
      let (v', low, high) = apply-IsRatchet op r (omega arith) v in
      run-IsRatchet ops (apply op r) (omega arith) v'

  pub new-IsRatchet : (master_key : Bytes) → IsRatchet (new p master_key)
  unfolding new
  new-IsRatchet master_key = record { few = omega arith; falls = tt; next = tt }

  -- Starting from a new ratchet, after any sequence of fewer than 2^64 operations, at most four
  -- epochs can be opened, no two of them the same.
  pub openable_epochs-Distinct :
      (master_key : Bytes) (ops : List Op)
      → length ops ≤ u64_max
      → let epochs = openable_epochs (run ops (new p master_key)) in
        Distinct epochs × (length epochs ≤ 4)
  openable_epochs-Distinct master_key ops h =
      let v =
        run-IsRatchet ops (new p master_key) (unfold new in omega arith)
          (new-IsRatchet master_key) in
      openable-Distinct (run ops (new p master_key)) _ refl v
