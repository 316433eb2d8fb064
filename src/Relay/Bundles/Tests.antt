-- ===== src/Relay/Bundles/Tests.antt =====
-- Runs of the store of bundles.
use vantablack.Prelude.{ℕ, ◌≡◌, List, [], ◌∷◌}
use vantablack.Prelude.Bytes.{Bytes, codes}
use vantablack.Relay.Bundles.{Bundle, new}
use vantablack.Relay.Bundles.Queue.{Call, enqueues, dequeues, expires, answers, specified_answers}
use vantablack.Relay.Bundles.Refine.{answers-specified_answers}

abbrev bundle : Bytes → ℕ → Bundle
bundle fp created = record {
  target_fingerprint = fp;
  encrypted_shards = [];
  session_hash = [];
  created_at = created;
  retries = 0;
  remaining_route = [];
}

abbrev calls : List Call
calls =
    enqueues (bundle (codes "a") 0)
    ∷ enqueues (bundle (codes "b") 5)
    ∷ enqueues (bundle (codes "a") 9)
    ∷ expires 3600000000001
    ∷ dequeues (codes "a")
    ∷ dequeues (codes "a")
    ∷ []

answers-specified_answers_example : answers calls new ≡ specified_answers calls []
answers-specified_answers_example = answers-specified_answers calls
