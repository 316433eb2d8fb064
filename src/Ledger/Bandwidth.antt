-- ===== src/Ledger/Bandwidth.antt =====
-- Bandwidth vouchers (src/ghost/net/bandwidth_voucher.rs). SHA-256 is a crate's and stands as a
-- parameter; a 32-byte array that is the key of a map is the number that its bytes write. The
-- maps are shared by threads in the code; here one operation follows another.
pub mod Balance
use vantablack.Prelude.{
  ℕ, ◌+◌, ◌-◌, ◌/◌, ◌%◌, ◌^◌, ◌≡◌, ◌≢◌, refl, ap, ◌∙◌, Bool, true, false, ◌||◌, Option, none, some,
  List, [], ◌∷◌, ◌++◌, arith, ltb, leb, ◌==◌, if◌then◌else◌, is_some,
}
use vantablack.Prelude.Bytes.{Bytes, codes, to_be_bytes}
use vantablack.Prelude.Assoc.{
  Map, lookup, insert, remove, Ascends, insert-Ascends, remove-Ascends, lookup-insert,
  lookup-remove,
}

pub record BandwidthVoucher : Type 0 where
  pub token_preimage : Bytes
  pub epoch_slot : ℕ
  pub quota_mb : ℕ
  pub proof_hash : Bytes

pub record RelayBandwidthBank : Type 0 where
  pub active_vouchers : Map ℕ
  pub exhausted_nullifiers : Map ℕ

pub data Redemption : Type 0 where
  redeemed : (quota_mb : ℕ) → Redemption
  expired already_exhausted already_active : Redemption

-- `RelayBandwidthBank::new`
unfoldable pub new : RelayBandwidthBank
new = record { active_vouchers = []; exhausted_nullifiers = [] }

-- `consume_bandwidth`; `now` is in seconds.
unfoldable pub consume_entry : Option ℕ → ℕ → ℕ → ℕ → RelayBandwidthBank → Bool × RelayBandwidthBank
consume_entry none now nullifier consumed_mb bank = (false, bank)
consume_entry (some entry) now nullifier consumed_mb bank =
    if leb consumed_mb entry
    then if entry - consumed_mb == 0
      then (
        true,
        record {
          active_vouchers = remove nullifier bank.active_vouchers;
          exhausted_nullifiers = insert nullifier now bank.exhausted_nullifiers;
        },
      )
      else (
        true,
        record bank {
          active_vouchers = insert nullifier (entry - consumed_mb) bank.active_vouchers;
        },
      )
    else (false, bank)

unfoldable pub consume_bandwidth : ℕ → ℕ → ℕ → RelayBandwidthBank → Bool × RelayBandwidthBank
unfolding consume_entry
consume_bandwidth now nullifier consumed_mb bank =
    consume_entry (lookup nullifier bank.active_vouchers) now nullifier consumed_mb bank

abbrev or_zero : Option ℕ → ℕ
or_zero none = 0
or_zero (some n) = n

-- `remaining_quota`
unfoldable pub remaining_quota : ℕ → RelayBandwidthBank → ℕ
remaining_quota nullifier bank = or_zero (lookup nullifier bank.active_vouchers)

-- `is_exhausted`
unfoldable pub is_exhausted : ℕ → RelayBandwidthBank → Bool
is_exhausted nullifier bank = is_some (lookup nullifier bank.exhausted_nullifiers)

module _ (sha256 : Bytes → ℕ) where
  -- `compute_nullifier`
  unfoldable pub compute_nullifier : BandwidthVoucher → ℕ
  compute_nullifier v = sha256 (
      codes "VANTABLACK_BANDWIDTH_NULLIFIER_V1" ++ (to_be_bytes 8 v.epoch_slot ++ v.token_preimage))

  -- `redeem_voucher`; `now` is in seconds, and the sum of the slot and 24 wraps.
  unfoldable pub redeem_voucher :
      ℕ → BandwidthVoucher → RelayBandwidthBank → Redemption × RelayBandwidthBank
  unfolding compute_nullifier is_exhausted
  redeem_voucher now v bank =
      let nullifier = compute_nullifier v in
      if ltb ((v.epoch_slot + 24) % 2 ^ 64) (now / 3600)
      then (expired, bank)
      else if is_exhausted nullifier bank
      then (already_exhausted, bank)
      else if is_some (lookup nullifier bank.active_vouchers)
      then (already_active, bank)
      else (
        redeemed v.quota_mb,
        record bank { active_vouchers = insert nullifier v.quota_mb bank.active_vouchers },
      )

-- Both maps are in order.
pub record IsBank (bank : RelayBandwidthBank) : Type 0 where
  pub active : Ascends 0 bank.active_vouchers
  pub exhausted : Ascends 0 bank.exhausted_nullifiers

-- The bank has seen a voucher with this nullifier.
abbrev pub known : ℕ → RelayBandwidthBank → Bool
known n bank =
    is_some (lookup n bank.active_vouchers) || is_some (lookup n bank.exhausted_nullifiers)

pub data Op : Type 0 where
  redeem : (now : ℕ) (v : BandwidthVoucher) → Op
  consume : (now nullifier consumed_mb : ℕ) → Op

-- What an operation grants to and takes from the nullifier `n`.
abbrev pub granted_by : Redemption → ℕ
granted_by (redeemed quota_mb) = quota_mb
granted_by _ = 0

module _ (sha256 : Bytes → ℕ) (n : ℕ) where
  unfoldable pub granted : Op → RelayBandwidthBank → ℕ
  unfolding redeem_voucher
  granted (redeem now v) bank =
      if compute_nullifier sha256 v == n then granted_by (redeem_voucher sha256 now v bank).0 else 0
  granted (consume now m mb) bank = 0

  unfoldable pub taken : Op → RelayBandwidthBank → ℕ
  unfolding consume_bandwidth
  taken (redeem now v) bank = 0
  taken (consume now m mb) bank =
      if m == n then (if (consume_bandwidth now m mb bank).0 then mb else 0) else 0

module _ (sha256 : Bytes → ℕ) where
  -- The bank after an operation.
  unfoldable pub act : Op → RelayBandwidthBank → RelayBandwidthBank
  unfolding redeem_voucher consume_bandwidth
  act (redeem now v) bank = (redeem_voucher sha256 now v bank).1
  act (consume now m mb) bank = (consume_bandwidth now m mb bank).1
