-- ===== src/Relay/Vouchers/Spent.antt =====
-- What can be spent of anonymous vouchers (src/ghost/net/relay.rs), over a history.
use vantablack.Prelude.{
  ℕ, suc, ◌+◌, ◌-◌, ◌^◌, ◌≤◌, ◌<◌, ◌≡◌, refl, min, true, List, [], ◌∷◌, arith, ltb, ◌==◌,
  if◌then◌else◌,
}
use vantablack.Prelude.Bytes.{Bytes, equal, equal_iff}
use vantablack.Prelude.Assoc.{
  Map, lookup_below, lookup, or_insert, Ascends, insert-Ascends, or_insert-Ascends, lookup-insert,
}
use vantablack.Relay.Vouchers.{
  new, AnonymousThresholdVoucher, AnonymousCapabilityLedger, Spending, remaining, quota_exceeded,
  invalid_or_expired, commitment, consumed, mint_anonymous, verify_anonymous, try_spend,
}

-- A request: a voucher, the group's secret, the bytes and the time.
pub record Request : Type 0 where
  pub voucher : AnonymousThresholdVoucher
  pub secret : Bytes
  pub bytes : ℕ
  pub now : ℕ

abbrev pub granted : Spending → ℕ → ℕ
granted (remaining left) bytes = bytes
granted _ bytes = 0

-- An entry of zero bytes counts as none.
consumed-or_insert :
    (b k j : ℕ) (m : Map ℕ)
    → Ascends b m
    → consumed (lookup j (or_insert k 0 m)) ≡ consumed (lookup j m)
unfolding lookup or_insert
consumed-or_insert b k j [] a = ground arith
consumed-or_insert b k j ((i, w) ∷ m) a =
    ground (arith, consumed-or_insert (suc i) k j m a.1, lookup_below (suc i) j m)

module _ (sha256 : Bytes → Bytes) where
  -- The bytes granted under an identifier by a list of requests.
  unfoldable pub spent : ℕ → List Request → AnonymousCapabilityLedger → ℕ
  unfolding try_spend
  spent id [] l = 0
  spent id (q ∷ qs) l =
      let (out, l') = try_spend sha256 q.voucher q.secret q.bytes q.now l in
      (if q.voucher.voucher_id == id then granted out q.bytes else 0) + spent id qs l'

  -- Every voucher with the identifier allows at most `m` bytes.
  abbrev pub Limited : ℕ → ℕ → List Request → Type 0
  Limited id m [] = Unit {0}
  Limited id m (q ∷ qs) = (q.voucher.voucher_id ≡ id → q.voucher.max_bytes ≤ m) × Limited id m qs

  module _ (id m : ℕ) (q : Request) (l : AnonymousCapabilityLedger) (small : m < 2 ^ 64 - 1)
      (limit : q.voucher.voucher_id ≡ id → q.voucher.max_bytes ≤ m) (asc : Ascends 0 l.spent_table)
      (below : consumed (lookup id l.spent_table) ≤ m) where
    spend_step :
        let (out, l') = try_spend sha256 q.voucher q.secret q.bytes q.now l in
        Ascends 0 l'.spent_table
        × ((if q.voucher.voucher_id == id then granted out q.bytes else 0)
              + consumed (lookup id l.spent_table)
            ≡ consumed (lookup id l'.spent_table))
        × (consumed (lookup id l'.spent_table) ≤ m)
    unfolding try_spend
    spend_step =
        let id' = q.voucher.voucher_id in
        let total = min (consumed (lookup id' l.spent_table) + q.bytes) (2 ^ 64 - 1) in
        ground (
          arith,
          or_insert-Ascends 0 id' 0 l.spent_table (omega arith) asc,
          insert-Ascends 0 id' total l.spent_table (omega arith) asc,
          consumed-or_insert 0 id' id l.spent_table asc,
          lookup-insert 0 id' id total l.spent_table asc,
        )

  spent_exact :
      (id m : ℕ) (qs : List Request) (l : AnonymousCapabilityLedger)
      → m < 2 ^ 64 - 1
      → Limited id m qs
      → Ascends 0 l.spent_table
      → consumed (lookup id l.spent_table) ≤ m
      → spent id qs l + consumed (lookup id l.spent_table) ≤ m
  unfolding spent
  spent_exact id m [] l small limits asc below = omega (arith, below)
  spent_exact id m (q ∷ qs) l small limits asc below =
      let (asc', paid, below') = spend_step id m q l small limits.0 asc below in
      omega (
        arith,
        paid,
        spent_exact id m qs (try_spend sha256 q.voucher q.secret q.bytes q.now l).1 small limits.1
            asc' below',
      )

  -- Whatever anonymous vouchers are spent from, with whatever secrets, amounts and times: if all
  -- that have an identifier allow at most `m` bytes, less than 2^64 - 1, a new ledger grants at
  -- most `m` bytes under it in all.
  pub spent-new :
      (id m : ℕ) (qs : List Request) → m < 2 ^ 64 - 1 → Limited id m qs → spent id qs new ≤ m
  unfolding new lookup
  spent-new id m qs small limits =
      omega (arith, spent_exact id m qs new small limits tt (omega arith))

  -- A voucher that the group's secret minted for less than 2^64 - 1 bytes is refused as expired
  -- after its expiry, and as over its quota if what was spent under its identifier and the
  -- request exceed it; otherwise what remains is its limit less both.
  pub try_spend-mint_anonymous :
      (group secret : Bytes) (id m x bytes now : ℕ) (l : AnonymousCapabilityLedger)
      → m < 2 ^ 64 - 1
      → (try_spend sha256 (mint_anonymous sha256 group secret id m x) secret bytes now l).0 ≡ (
          if ltb x now
          then invalid_or_expired
          else if ltb m (consumed (lookup id l.spent_table) + bytes)
          then quota_exceeded
          else remaining (m - (consumed (lookup id l.spent_table) + bytes)))
  unfolding try_spend mint_anonymous verify_anonymous
  try_spend-mint_anonymous group secret id m x bytes now l f =
      let same : equal (commitment sha256 group secret id m x)
            (commitment sha256 group secret id m x)
          ≡ true =
        (equal_iff (commitment sha256 group secret id m x)
            (commitment sha256 group secret id m x)).1
          refl in
      rw same (ground arith)
