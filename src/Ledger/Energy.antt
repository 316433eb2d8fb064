-- ===== src/Ledger/Energy.antt =====
-- Energy credits for erasure repair (src/ghost/net/energy_currency.rs). SHA-256 and Ed25519 are crates'
-- and stand as parameters; a 32-byte array that is the key of a map is the number that its
-- bytes write. The maps are shared by threads in the code; here one operation follows another.
pub mod Earned
use vantablack.Prelude.{
  ℕ, ◌+◌, ◌-◌, ◌^◌, min, Bool, true, false, not, Option, none, some, [], ◌++◌, ltb, leb,
  if◌then◌else◌, is_some,
}
use vantablack.Prelude.Bytes.{Bytes, codes, to_be_bytes}
use vantablack.Prelude.Assoc.{Map, lookup, insert}

-- `verify public_key digest signature` stands for the parsing of the key and of the signature, and
-- the verification: all three must succeed.
pub record Signatures : Type 0 where
  pub sha256 : Bytes → ℕ
  pub verifying_key : Bytes → ℕ
  pub sign : Bytes → ℕ → Bytes
  pub verify : ℕ → ℕ → Bytes → Bool

pub record ErasureRepairProof : Type 0 where
  pub input_shard_hashes : Bytes × Bytes
  pub repaired_shard_hash : Bytes
  pub epoch : ℕ
  pub worker_pk : ℕ
  pub signature : Bytes

pub record EnergyCreditLedger : Type 0 where
  pub balances : Map ℕ
  pub credited_proofs : Map ℕ

-- `EnergyCreditLedger::new`
unfoldable pub new : EnergyCreditLedger
new = record { balances = []; credited_proofs = [] }

pub data Credit : Type 0 where
  credited : (balance : ℕ) → Credit
  invalid duplicate : Credit

pub data Spending : Type 0 where
  tier : ℕ → Spending
  no_account insufficient : Spending

abbrev pub or_zero : Option ℕ → ℕ
or_zero none = 0
or_zero (some n) = n

-- `balance_of`
unfoldable pub balance_of : ℕ → EnergyCreditLedger → ℕ
balance_of worker_pk l = or_zero (lookup worker_pk l.balances)

-- `spend_for_priority`
unfoldable pub spend_from : Option ℕ → ℕ → ℕ → EnergyCreditLedger → Spending × EnergyCreditLedger
spend_from none worker_pk credits_to_spend l = (no_account, l)
spend_from (some bal) worker_pk credits_to_spend l =
    if ltb bal credits_to_spend then (insufficient, l) else (
      tier (if leb 25 credits_to_spend then 2 else if leb 10 credits_to_spend then 1 else 0),
      record l { balances = insert worker_pk (bal - credits_to_spend) l.balances },
    )

unfoldable pub spend_for_priority : ℕ → ℕ → EnergyCreditLedger → Spending × EnergyCreditLedger
unfolding spend_from
spend_for_priority worker_pk credits_to_spend l =
    spend_from (lookup worker_pk l.balances) worker_pk credits_to_spend l

module _ (c : Signatures) where
  -- The digest that `proof_id`, `mint` and `verify` compute.
  unfoldable pub digest : Bytes × Bytes → Bytes → ℕ → ℕ → ℕ
  digest inputs repaired epoch worker_pk = c.sha256 (
      codes "GGN_ERASURE_REPAIR_PROOF_V1"
      ++ (inputs.0
          ++ (inputs.1 ++ (repaired ++ (to_be_bytes 8 epoch ++ to_be_bytes 32 worker_pk)))))

  -- `proof_id`
  unfoldable pub proof_id : ErasureRepairProof → ℕ
  unfolding digest
  proof_id p = digest p.input_shard_hashes p.repaired_shard_hash p.epoch p.worker_pk

  -- `mint`
  unfoldable pub mint : Bytes → Bytes × Bytes → Bytes → ℕ → ErasureRepairProof
  unfolding digest
  mint signing_key inputs repaired epoch =
      let worker_pk = c.verifying_key signing_key in
      record {
        input_shard_hashes = inputs;
        repaired_shard_hash = repaired;
        epoch = epoch;
        worker_pk = worker_pk;
        signature = c.sign signing_key (digest inputs repaired epoch worker_pk);
      }

  -- `verify`
  unfoldable pub verify : ErasureRepairProof → Bool
  unfolding digest
  verify p =
      c.verify p.worker_pk (digest p.input_shard_hashes p.repaired_shard_hash p.epoch p.worker_pk)
        p.signature

  -- `credit_repair`: `entry(worker_pk).or_insert(0)` and a saturating addition of 10.
  unfoldable pub credit_repair :
      ErasureRepairProof → EnergyCreditLedger → Credit × EnergyCreditLedger
  unfolding verify proof_id balance_of
  credit_repair p l =
      let bal = min (balance_of p.worker_pk l + 10) (2 ^ 64 - 1) in
      if not (verify p)
      then (invalid, l)
      else if is_some (lookup (proof_id p) l.credited_proofs)
      then (duplicate, l)
      else (
        credited bal,
        record {
          balances = insert p.worker_pk bal l.balances;
          credited_proofs = insert (proof_id p) p.epoch l.credited_proofs;
        },
      )
