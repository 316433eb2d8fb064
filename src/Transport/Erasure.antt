-- ===== src/Transport/Erasure.antt =====
-- The erasure layer (src/ghost/layers/l4_rs.rs). The crate `reed_solomon_erasure` is a parameter:
-- its code with two data shards and one parity shard over bytes.
use vantablack.Prelude.{
  ℕ, ◌/◌, ◌%◌, ◌<◌, ◌≡◌, Option, none, some, [], ◌∷◌, ◌++◌, ◌==◌, if◌then◌else◌, length, take, drop,
  All,
}
use vantablack.Prelude.Bytes.{Bytes}

-- Three shards, each present or missing.
pub record Shards : Type 0 where
  pub d0 : Option Bytes
  pub d1 : Option Bytes
  pub p0 : Option Bytes

-- `parity` is what `encode` and `encode_sep` compute from two data shards of one length;
-- `recover` is `reconstruct`, with `none` for its errors.
pub record ReedSolomon : Type 0 where
  pub parity : Bytes → Bytes → Bytes
  pub recover : Shards → Option Shards

abbrev pub IsBytes : Bytes → Type 0
IsBytes = All (λ b. b < 256)

abbrev pub HasLength : ℕ → Option Bytes → Type 0
HasLength n none = Unit {0}
HasLength n (some bytes) = length bytes ≡ n

-- The shards that are present have `n` bytes.
abbrev pub OfLength : ℕ → Shards → Type 0
OfLength n s = HasLength n s.d0 × HasLength n s.d1 × HasLength n s.p0

-- What the crate documents: shards that are filled in are as long as the others, the parity shard is as long as the data shards, and any two of the
-- three shards of a code word give back the third.
pub record IsErasureCode (rs : ReedSolomon) : Type 0 where
  pub length-parity : (a b : Bytes) → length a ≡ length b → length (rs.parity a b) ≡ length a
  pub length-recover : (n : ℕ) (s t : Shards) → OfLength n s → rs.recover s ≡ some t → OfLength n t
  pub recover_first :
      (a b : Bytes)
      → IsBytes a
      → IsBytes b
      → length a ≡ length b
      → 0 < length a
      → rs.recover (record { d0 = none; d1 = some b; p0 = some (rs.parity a b) })
        ≡ some (record { d0 = some a; d1 = some b; p0 = some (rs.parity a b) })
  pub recover_second :
      (a b : Bytes)
      → IsBytes a
      → IsBytes b
      → length a ≡ length b
      → 0 < length a
      → rs.recover (record { d0 = some a; d1 = none; p0 = some (rs.parity a b) })
        ≡ some (record { d0 = some a; d1 = some b; p0 = some (rs.parity a b) })

module _ (rs : ReedSolomon) where
  open rs use {parity, recover}

  -- `encode` pads an odd length with a zero byte and splits in the middle.
  unfoldable pub encode : Bytes → Bytes × Bytes × Bytes
  encode input =
      if length input == 0
      then ([], [], [])
      else let even = if length input % 2 == 0 then input else input ++ (0 ∷ []) in
        let mid = length even / 2 in
        (take mid even, drop mid even, parity (take mid even) (drop mid even))

  -- `encode_parity_slice`
  unfoldable pub encode_parity_slice : Bytes → Bytes → Bytes
  encode_parity_slice d0 d1 = parity d0 d1

  -- `reconstruct`: with both data shards at hand only the parity is filled in.
  unfoldable pub reconstruct : Shards → Option Shards
  unfolding encode_parity_slice
  reconstruct s = elim s.d0 [
    | none ↦ recover s
    | some a ↦ elim s.d1 [
      | none ↦ recover s
      | some b ↦
          some (record s {
            p0 = elim s.p0 [ none ↦ some (encode_parity_slice a b) | some p ↦ some p ];
          })
    ]
  ]
