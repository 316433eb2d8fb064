-- ===== src/Ledger/Bandwidth/Balance.antt =====
-- The accounts of a bandwidth bank (src/ghost/net/bandwidth_voucher.rs) over its whole life.
use vantablack.Prelude.{
  ℕ, ◌+◌, ◌-◌, ◌≡◌, ◌≢◌, refl, ◌∙◌, true, Option, none, some, List, [], ◌∷◌, arith, ◌==◌,
  if◌then◌else◌,
}
use vantablack.Prelude.Bytes.{Bytes}
use vantablack.Prelude.Assoc.{lookup, insert-Ascends, remove-Ascends, lookup-insert, lookup-remove}
use vantablack.Ledger.Bandwidth.{
  BandwidthVoucher, RelayBandwidthBank, redeemed, new, consume_entry, consume_bandwidth,
  remaining_quota, is_exhausted, compute_nullifier, redeem_voucher, IsBank, known, Op, redeem,
  consume, granted_by, granted, taken, act,
}

consume_entry-IsBank :
    (o : Option ℕ) (now m mb : ℕ) (bank : RelayBandwidthBank)
    → IsBank bank
    → IsBank (consume_entry o now m mb bank).1
unfolding consume_entry
consume_entry-IsBank none now m mb bank v = v
consume_entry-IsBank (some e) now m mb bank v = ground (
  arith,
  remove-Ascends 0 m bank.active_vouchers v.active,
  insert-Ascends 0 m now bank.exhausted_nullifiers (omega arith) v.exhausted,
  insert-Ascends 0 m (e - mb) bank.active_vouchers (omega arith) v.active,
)

consume_entry_lem :
    (o : Option ℕ) (now m mb n : ℕ) (bank : RelayBandwidthBank)
    → lookup m bank.active_vouchers ≡ o
    → IsBank bank
    → let (ok, bank') = consume_entry o now m mb bank in
      (remaining_quota n bank
        ≡ remaining_quota n bank' + (if m == n then (if ok then mb else 0) else 0))
      × (known n bank' ≡ known n bank)
unfolding consume_entry remaining_quota
consume_entry_lem none now m mb n bank e v = (ground arith, refl)
consume_entry_lem (some q) now m mb n bank e v = ground (
  arith,
  lookup-remove 0 m n bank.active_vouchers v.active,
  lookup-insert 0 m n now bank.exhausted_nullifiers v.exhausted,
  lookup-insert 0 m n (q - mb) bank.active_vouchers v.active,
  e,
)

module _ (sha256 : Bytes → ℕ) where
  redeem-IsBank :
      (now : ℕ) (v : BandwidthVoucher) (bank : RelayBandwidthBank)
      → IsBank bank
      → IsBank (redeem_voucher sha256 now v bank).1
  unfolding redeem_voucher
  redeem-IsBank now v bank h = ground (
    arith,
    insert-Ascends 0 (compute_nullifier sha256 v) v.quota_mb bank.active_vouchers (omega arith)
        h.active,
  )

  redeem_lem :
      (now n : ℕ) (v : BandwidthVoucher) (bank : RelayBandwidthBank)
      → IsBank bank
      → let (out, bank') = redeem_voucher sha256 now v bank in
        (remaining_quota n bank + (if compute_nullifier sha256 v == n then granted_by out else 0)
          ≡ remaining_quota n bank')
        × (known n bank ≡ true → known n bank' ≡ true)
  unfolding redeem_voucher remaining_quota is_exhausted
  redeem_lem now n v bank h = ground (
    arith,
    lookup-insert 0 (compute_nullifier sha256 v) n v.quota_mb bank.active_vouchers h.active,
  )

  act-IsBank : (op : Op) (bank : RelayBandwidthBank) → IsBank bank → IsBank (act sha256 op bank)
  unfolding act consume_bandwidth
  act-IsBank (redeem now v) bank h = redeem-IsBank now v bank h
  act-IsBank (consume now m mb) bank h = consume_entry-IsBank _ now m mb bank h

  act_balance :
      (n : ℕ) (op : Op) (bank : RelayBandwidthBank)
      → IsBank bank
      → remaining_quota n bank + granted sha256 n op bank
        ≡ remaining_quota n (act sha256 op bank) + taken sha256 n op bank
  unfolding act granted taken consume_bandwidth
  act_balance n (redeem now v) bank h = omega (arith, (redeem_lem now n v bank h).0)
  act_balance n (consume now m mb) bank h =
      omega (arith, (consume_entry_lem _ now m mb n bank refl h).0)

  act-known :
      (n : ℕ) (op : Op) (bank : RelayBandwidthBank)
      → IsBank bank
      → known n bank ≡ true
      → known n (act sha256 op bank) ≡ true
  unfolding act consume_bandwidth
  act-known n (redeem now v) bank h k = (redeem_lem now n v bank h).1 k
  act-known n (consume now m mb) bank h k = (consume_entry_lem _ now m mb n bank refl h).1 ∙ k

  -- The bank after a list of operations, and what they granted to and took from a nullifier.
  unfoldable pub act_all : List Op → RelayBandwidthBank → RelayBandwidthBank
  act_all [] bank = bank
  act_all (op ∷ ops) bank = act_all ops (act sha256 op bank)

  unfoldable pub granted_all : ℕ → List Op → RelayBandwidthBank → ℕ
  granted_all n [] bank = 0
  granted_all n (op ∷ ops) bank = granted sha256 n op bank + granted_all n ops (act sha256 op bank)

  unfoldable pub taken_all : ℕ → List Op → RelayBandwidthBank → ℕ
  taken_all n [] bank = 0
  taken_all n (op ∷ ops) bank = taken sha256 n op bank + taken_all n ops (act sha256 op bank)

  balance_from :
      (ops : List Op) (n : ℕ) (bank : RelayBandwidthBank)
      → IsBank bank
      → remaining_quota n bank + granted_all n ops bank
        ≡ remaining_quota n (act_all ops bank) + taken_all n ops bank
  unfolding act_all granted_all taken_all
  balance_from [] n bank h = refl
  balance_from (op ∷ ops) n bank h = omega (
    arith,
    act_balance n op bank h,
    balance_from ops n (act sha256 op bank) (act-IsBank op bank h),
  )

  new-IsBank : IsBank new
  unfolding new
  new-IsBank = record { active = tt; exhausted = tt }

  -- Over any sequence of redemptions and uses, starting from an empty bank, what was granted to a
  -- nullifier is what is left of it and what was admitted under it.
  pub remaining_quota_balance :
      (ops : List Op) (n : ℕ)
      → granted_all n ops new ≡ remaining_quota n (act_all ops new) + taken_all n ops new
  remaining_quota_balance ops n =
      let start : remaining_quota n new ≡ 0 = (unfold remaining_quota new lookup in refl) in
      omega (arith, balance_from ops n new new-IsBank, start)

  known_all :
      (ops : List Op) (n : ℕ) (bank : RelayBandwidthBank)
      → IsBank bank
      → known n bank ≡ true
      → IsBank (act_all ops bank) × (known n (act_all ops bank) ≡ true)
  unfolding act_all
  known_all [] n bank h k = (h, k)
  known_all (op ∷ ops) n bank h k =
      known_all ops n (act sha256 op bank) (act-IsBank op bank h) (act-known n op bank h k)

  act_all-IsBank :
      (ops : List Op) (bank : RelayBandwidthBank) → IsBank bank → IsBank (act_all ops bank)
  unfolding act_all
  act_all-IsBank [] bank h = h
  act_all-IsBank (op ∷ ops) bank h = act_all-IsBank ops (act sha256 op bank) (act-IsBank op bank h)

  redeemed-known :
      (now q : ℕ) (v : BandwidthVoucher) (bank : RelayBandwidthBank)
      → IsBank bank
      → (redeem_voucher sha256 now v bank).0 ≡ redeemed q
      → known (compute_nullifier sha256 v) (redeem_voucher sha256 now v bank).1 ≡ true
  unfolding redeem_voucher
  redeemed-known now q v bank h e =
      let n = compute_nullifier sha256 v in
      ground (arith, lookup-insert 0 n n v.quota_mb bank.active_vouchers h.active)

  known-refused :
      (now q : ℕ) (v : BandwidthVoucher) (bank : RelayBandwidthBank)
      → known (compute_nullifier sha256 v) bank ≡ true
      → (redeem_voucher sha256 now v bank).0 ≢ redeemed q
  unfolding redeem_voucher is_exhausted
  known-refused now q v bank k = ground arith

  -- A nullifier that was redeemed once, at any point of a bank's life, is never redeemed again,
  -- whatever vouchers and uses come between, and whatever the second voucher claims.
  pub redeem_voucher_once :
      (before between : List Op) (now later q r : ℕ) (v w : BandwidthVoucher)
      → compute_nullifier sha256 w ≡ compute_nullifier sha256 v
      → (redeem_voucher sha256 now v (act_all before new)).0 ≡ redeemed q
      → (redeem_voucher sha256 later w
          (act_all between (redeem_voucher sha256 now v (act_all before new)).1)).0
        ≢ redeemed r
  redeem_voucher_once before between now later q r v w same e =
      let h = act_all-IsBank before new new-IsBank in
      let (_, k) =
        known_all between (compute_nullifier sha256 v) _ (redeem-IsBank now v _ h)
          (redeemed-known now q v _ h e) in
      known-refused later r w _ (rw same k)
