-- ===== src/Session/Tests/Ratchet.antt =====
-- Runs of a session ratchet.
use vantablack.Prelude.{◌≤◌, ◌≡◌, refl, List, [], ◌∷◌, arith, length, Distinct}
use vantablack.Session.MsgChain.{refused}
use vantablack.Session.Ratchet.{
  SessionRatchet, StepSecrets, initiator_to_responder, responder_to_initiator, new, activate,
  plan_open, openable_epochs, trim,
}
use vantablack.Session.Ratchet.Step.{prepare_step, prepare_quantum_mix, step, mix_quantum_entropy}
use vantablack.Session.Ratchet.Epochs.{
  Op, seal, prepares, prepares_mix, activates, steps, mixes, run, new-IsRatchet,
  openable_epochs-Distinct,
}
use vantablack.Session.Ratchet.Grace.{plan_open-step_thrice}
use vantablack.Session.Tests.Toy.{toy, master}

abbrev secrets : StepSecrets
secrets = record { dh = 1 ∷ 2 ∷ []; kem = 3 ∷ 4 ∷ [] }

abbrev start : SessionRatchet
start = new toy master

abbrev history : List Op
history =
    seal initiator_to_responder
    ∷ prepares secrets responder_to_initiator
    ∷ activates 1
    ∷ steps secrets
    ∷ mixes (5 ∷ [])
    ∷ prepares_mix (6 ∷ []) initiator_to_responder
    ∷ []

epochs_of_history : openable_epochs (run toy history start) ≡ 3 ∷ 4 ∷ 2 ∷ 1 ∷ []
unfolding run new openable_epochs activate prepare_step prepare_quantum_mix step mix_quantum_entropy
    trim
epochs_of_history = refl

openable_epochs-Distinct_example :
    let epochs = openable_epochs (run toy history start) in Distinct epochs × (length epochs ≤ 4)
openable_epochs-Distinct_example = openable_epochs-Distinct toy master history (omega arith)

plan_open-step_thrice_example :
    plan_open toy start.epoch responder_to_initiator 0
      (step toy secrets (step toy secrets (step toy secrets start).1).1).1
    ≡ refused
plan_open-step_thrice_example =
    plan_open-step_thrice toy secrets secrets secrets responder_to_initiator 0 start
      (unfold new in omega arith) (new-IsRatchet toy master)
