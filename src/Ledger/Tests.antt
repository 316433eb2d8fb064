-- ===== src/Ledger/Tests.antt =====
-- Runs of the ledgers, with a toy hash and toy signatures.
use vantablack.Prelude.{ℕ, ◌+◌, ◌%◌, ◌≤◌, ◌≡◌, ◌≢◌, refl, Bool, false, ◌&&◌, List, [], ◌∷◌, ◌==◌}
use vantablack.Prelude.Bytes.{Bytes, from_be_bytes}
use vantablack.Prelude.Assoc.{lookup, insert}
use vantablack.Ledger.Bandwidth
use vantablack.Ledger.Bandwidth.{
  BandwidthVoucher, redeem, consume, redeemed, compute_nullifier, redeem_voucher, remaining_quota,
}
use vantablack.Ledger.Bandwidth.Balance
use vantablack.Ledger.Bandwidth.Balance.{
  granted_all, taken_all, remaining_quota_balance, redeem_voucher_once,
}
use vantablack.Ledger.Energy
use vantablack.Ledger.Energy.{
  Signatures, ErasureRepairProof, mint, credited, credit_repair, balance_of,
}
use vantablack.Ledger.Energy.Earned
use vantablack.Ledger.Energy.Earned.{
  repair, spend, earned_all, spent_all, balance_of_earned, credit_repair_once,
}

abbrev hash : Bytes → ℕ
hash b = from_be_bytes b % 1009

abbrev voucher : BandwidthVoucher
voucher = record { token_preimage = 1 ∷ 2 ∷ 3 ∷ []; epoch_slot = 5; quota_mb = 10; proof_hash = [] }

abbrev serial : ℕ
serial = compute_nullifier hash voucher

-- Redeemed, used in part, offered again, and used up.
abbrev history : List Bandwidth.Op
history =
    redeem 0 voucher
    ∷ consume 1 serial 4
    ∷ redeem 2 voucher
    ∷ consume 3 serial 6
    ∷ redeem 4 voucher
    ∷ []

taken_all-history : taken_all hash serial history Bandwidth.new ≡ 10
unfolding taken_all redeem_voucher compute_nullifier Bandwidth.new Bandwidth.consume_bandwidth
    lookup insert Bandwidth.act Bandwidth.taken
taken_all-history = refl

remaining_quota_balance_example :
    granted_all hash serial history Bandwidth.new
    ≡ remaining_quota serial (Balance.act_all hash history Bandwidth.new)
      + taken_all hash serial history Bandwidth.new
remaining_quota_balance_example = remaining_quota_balance hash history serial

first_time : (redeem_voucher hash 0 voucher (Balance.act_all hash [] Bandwidth.new)).0 ≡ redeemed 10
unfolding redeem_voucher Balance.act_all Bandwidth.new lookup
first_time = refl

redeem_voucher_once_example :
    (redeem_voucher hash 7 voucher (
      Balance.act_all hash
        (consume 1 serial 10 ∷ [])
        (redeem_voucher hash 0 voucher (Balance.act_all hash [] Bandwidth.new)).1)).0
    ≢ redeemed 10
redeem_voucher_once_example =
    redeem_voucher_once hash [] (consume 1 serial 10 ∷ []) 0 7 10 10 voucher voucher refl first_time

abbrev toy_verify : ℕ → ℕ → Bytes → Bool
toy_verify pk d [] = false
toy_verify pk d (x ∷ key) = x == d && from_be_bytes key == pk

abbrev toy : Signatures
toy = record {
  sha256 = hash;
  verifying_key = λ key. from_be_bytes key;
  sign = λ key d. d ∷ key;
  verify = toy_verify;
}

abbrev work : ErasureRepairProof
work = mint toy (7 ∷ []) (1 ∷ [], 2 ∷ []) (3 ∷ []) 4

balance_of_earned_example :
    balance_of 7 (Earned.act_all toy (repair work ∷ repair work ∷ spend 7 4 ∷ []) Energy.new)
      + spent_all toy 7 (repair work ∷ repair work ∷ spend 7 4 ∷ []) Energy.new
    ≤ earned_all toy 7 (repair work ∷ repair work ∷ spend 7 4 ∷ []) Energy.new
balance_of_earned_example = balance_of_earned toy (repair work ∷ repair work ∷ spend 7 4 ∷ []) 7

first_credit : (credit_repair toy work (Earned.act_all toy [] Energy.new)).0 ≡ credited 10
unfolding credit_repair mint Earned.act_all Energy.new lookup Energy.balance_of
first_credit = refl

credit_repair_once_example :
    (credit_repair toy work (
      Earned.act_all toy
        (spend 7 10 ∷ [])
        (credit_repair toy work (Earned.act_all toy [] Energy.new)).1)).0
    ≢ credited 20
credit_repair_once_example =
    credit_repair_once toy [] (spend 7 10 ∷ []) work work 10 20 refl first_credit
