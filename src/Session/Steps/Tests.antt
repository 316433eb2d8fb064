-- ===== src/Session/Steps/Tests.antt =====
-- A step between two concrete sessions, over a key exchange that computes.
use vantablack.Prelude.{
  ℕ, ◌+◌, ◌≡◌, ◌≢◌, refl, ap, ◌⊎◌, inl, Bool, true, false, none, some, [], ◌∷◌, get_or, arith,
}
use vantablack.Prelude.Bytes.{Bytes, codes, equal_iff}
use vantablack.Session.Tests.Toy.{toy, master}
use vantablack.Session.Guard.Wide
use vantablack.Session.Ratchet
use vantablack.Session.Ratchet.{StepSecrets, next_u64}
use vantablack.Session.Ratchet.Step.{preview_step_key}
use vantablack.Session.Steps.{
  KeyExchange, RatchetStep, Session, SessionRole, initiator, responder, RatchetAnswer,
  begin_ratchet_step, answer_ratchet_step, finish_ratchet_step, activate_epoch, respond,
}
use vantablack.Session.Steps.Exchange.{Same, step_exchange, answer_of, answered}
use vantablack.Session.Steps.Crossed.{Settled, crossed_exchange}
use vantablack.Session.Steps.Recovery.{Recovers, tampered_exchange}

abbrev sums : KeyExchange
sums = record {
  Secret = ℕ;
  x_public = λ s. s ∷ [];
  diffie_hellman = λ s key. (s + get_or key 0 0) ∷ [];
  DecapsulationKey = ℕ;
  kem_public = λ k. k ∷ [];
  encapsulate = λ key coins. some (coins, get_or key 0 0 ∷ coins);
  decapsulate = λ k ct. k ∷ ct;
  diffie_hellman_comm = λ a b. (let e : a + b ≡ b + a = omega arith in λ j. e j ∷ []);
  encapsulates = λ k coins. (coins, k ∷ coins, refl, refl);
}

abbrev session : SessionRole → Bytes → Bool → Session sums
session role peer busy = record {
  ratchet = Ratchet.new toy master;
  guard = Wide.new 0 0;
  role = role;
  peer_fingerprint = peer;
  pending_step = none;
  ratchet_step_at = none;
  ratchet_steps = 0;
  ratchet_in_progress = busy;
  forced_ratchet_due = false;
  pending_quantum_mix = none;
  quantum_mix_at = none;
  quantum_mix_in_progress = false;
  quantum_mixed = false;
}

abbrev drawn : ℕ → RatchetStep sums
drawn n = record { x_secret = n; kem_dk = n + 1 }

abbrev alice : Session sums
alice = session initiator (codes "bob") false

abbrev bob : Session sums
bob = session responder (codes "alice") false

step_exchange_example :
    let (asked, a₁) = begin_ratchet_step sums (drawn 3) 9 alice in
    let (given, b₁) = answer_ratchet_step sums toy (drawn 5) (8 ∷ []) (3 ∷ []) (4 ∷ []) bob in
    (asked ≡ some (3 ∷ [], 4 ∷ []))
    × ((answer : RatchetAnswer) × (given ≡ some answer)
        × (let (out, a₂) = finish_ratchet_step sums toy answer 10 11 a₁ in
            let (activated, b₂) = activate_epoch sums answer.epoch 12 13 b₁ in
            (out ≡ some answer.epoch)
            × (activated ≡ true)
            × Same a₂.ratchet b₂.ratchet
            × (a₂.ratchet_in_progress ≡ false)))
step_exchange_example =
    step_exchange toy sums alice bob (drawn 3) (drawn 5) (8 ∷ []) 9 10 11 12 13 refl refl refl
      (record { root = refl; epoch = refl })

abbrev stale : RatchetAnswer
stale = record { x_public = 5 ∷ []; kem_ct = 8 ∷ []; confirm = []; epoch = 7 }

crossed_exchange_example :
    let a₁ = (begin_ratchet_step sums (drawn 3) 9 alice).1 in
    let b₁ = (begin_ratchet_step sums (drawn 4) 8 bob).1 in
    Settled toy sums a₁ b₁
      (codes "alice")
      (codes "bob")
      (drawn 3)
      (drawn 5)
      (8 ∷ [])
      stale
      10
      11
      12
      13
    ⊎ Settled toy sums b₁ a₁
        (codes "bob")
        (codes "alice")
        (drawn 4)
        (drawn 5)
        (8 ∷ [])
        stale
        10
        11
        12
        13
crossed_exchange_example =
    crossed_exchange toy sums alice bob (drawn 3) (drawn 4) (drawn 5) (8 ∷ []) (codes "alice")
      (codes "bob") stale 9 8 10 11 12 13 refl refl refl refl refl
      (record { root = refl; epoch = refl }) refl refl
      (ground (arith, equal_iff (codes "alice") (codes "bob")))

abbrev secrets : StepSecrets
secrets = record { dh = 8 ∷ []; kem = 4 ∷ 8 ∷ [] }

responded : respond sums (3 ∷ []) (4 ∷ []) (8 ∷ []) (drawn 5) ≡ some (secrets, 8 ∷ [])
unfolding respond
responded = refl

-- What bob answers to alice.
abbrev sent : RatchetAnswer
sent = answer_of toy sums secrets (8 ∷ []) (drawn 5) bob

given : (answer_ratchet_step sums toy (drawn 5) (8 ∷ []) (3 ∷ []) (4 ∷ []) bob).0 ≡ some sent
given =
    ap (λ q. q.0) (answered toy sums secrets (8 ∷ []) (drawn 3) (drawn 5) (8 ∷ []) bob responded)

other : 7 ≢ sent.epoch
unfolding preview_step_key Ratchet.new next_u64
other = ground arith

tampered_exchange_example :
    Recovers toy sums alice bob
      (drawn 3)
      (drawn 5)
      (drawn 6)
      (drawn 7)
      (8 ∷ [])
      (9 ∷ [])
      sent
      7
      []
      9
      19
      10
      11
      20
      21
      22
      23
tampered_exchange_example =
    tampered_exchange toy sums alice bob (drawn 3) (drawn 5) (drawn 6) (drawn 7) (8 ∷ []) (9 ∷ [])
      sent 7 [] 9 19 10 11 20 21 22 23 refl refl refl (record { root = refl; epoch = refl }) given
      (inl other)
