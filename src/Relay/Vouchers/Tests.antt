-- ===== src/Relay/Vouchers/Tests.antt =====
-- Runs of the ledger of anonymous vouchers.
use vantablack.Prelude.{ℕ, ◌%◌, ◌≤◌, ◌≡◌, refl, List, [], ◌∷◌, arith}
use vantablack.Prelude.Bytes.{Bytes, from_be_bytes}
use vantablack.Prelude.Assoc.{lookup, insert, or_insert}
use vantablack.Relay.Vouchers.{AnonymousCapabilityLedger, new, mint_anonymous}
use vantablack.Relay.Vouchers.Spent.{Request, spent, spent-new}

abbrev sha256 : Bytes → Bytes
sha256 b = from_be_bytes b % 1009 ∷ []

abbrev group : Bytes
group = 1 ∷ 2 ∷ []

abbrev secret : Bytes
secret = 3 ∷ []

abbrev request : ℕ → ℕ → Request
request id bytes = record {
  voucher = mint_anonymous sha256 group secret id 1000 60;
  secret = secret;
  bytes = bytes;
  now = 5;
}

abbrev requests : List Request
requests = request 7 600 ∷ request 8 900 ∷ request 7 500 ∷ request 7 400 ∷ []

spent-new_example : spent sha256 7 requests new ≤ 1000
spent-new_example = spent-new sha256 7 1000 requests (omega arith) (
    unfold mint_anonymous in
    (λ e. omega arith, (λ e. omega arith, (λ e. omega arith, (λ e. omega arith, tt)))))

-- The second request of 500 bytes is refused, the one of 400 is granted.
spent_all : spent sha256 7 requests new ≡ 1000
unfolding spent new lookup insert or_insert mint_anonymous
spent_all = refl

abbrev ledger : AnonymousCapabilityLedger
ledger = record { spent_table = (7, 600) ∷ [] }
