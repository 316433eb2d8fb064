-- ===== src/Session/Tests/Causal.antt =====
-- Runs of the causal counter.
use vantablack.Prelude.{◌≢◌, refl, [], ◌∷◌, arith}
use vantablack.Session.Causal.{
  CausalMonotonicCounter, ok, verify_and_observe, message, sent, new_epoch, react_all,
  verify_and_observe_once,
}

abbrev seen : CausalMonotonicCounter
seen = record { local_seq = 4; observed_remote_seq = 7; causal_epoch = 2 }

verify_and_observe_once_example :
    (verify_and_observe 2 9
      (react_all (sent ∷ message 2 8 ∷ new_epoch ∷ []) (verify_and_observe 2 9 seen).1)).0
    ≢ ok
verify_and_observe_once_example =
    verify_and_observe_once 2 9 seen (sent ∷ message 2 8 ∷ new_epoch ∷ []) (omega arith)
      (omega arith) (unfold verify_and_observe in refl) (unfold react_all in omega arith)
