-- ===== src/Transport/Reassembly/Recover.antt =====
-- One slot of the reassembly buffer (src/ghost/net/reassembly.rs) against the shards it has received.
use vantablack.Prelude.{
  ℕ, ◌+◌, ◌-◌, ◌*◌, min, ◌≡◌, refl, sym, ap, Bool, false, Option, none, some, append-nil, arith,
  ltb, length, inl, inr, Bool-cases,
}
use vantablack.Prelude.Bytes.{Bytes}
use vantablack.Transport.Erasure.{OfLength}
use vantablack.Transport.Coalesce.{CoalescedShard, shard_payload_bytes}
use vantablack.Transport.Coalesce.Halves.{join}
use vantablack.Transport.Reassembly.{ReassemblySlot, payload, empty, reset, assemble, add}

abbrev pub present : Option Bytes → ℕ
present none = 0
present (some b) = 1

-- The mask says which shards are present, and these are 492 bytes long.
pub record IsSlot (slot : ReassemblySlot) : Type 0 where
  pub mask :
      slot.received_mask
      ≡ present slot.shards.d0 + 2 * present slot.shards.d1 + 4 * present slot.shards.p0
  pub full : OfLength shard_payload_bytes slot.shards

pub empty-IsSlot : IsSlot empty
empty-IsSlot = record { mask = refl; full = (tt, tt, tt) }

pub reset-IsSlot : (id len : ℕ) (slot : ReassemblySlot) → IsSlot (reset id len slot)
unfolding reset
reset-IsSlot id len slot = record { mask = refl; full = (tt, tt, tt) }

-- Two shards of full length are put together without a slice out of range.
pub assemble-join :
    (n : ℕ) (a b : Bytes)
    → length a ≡ shard_payload_bytes
    → length b ≡ shard_payload_bytes
    → assemble n a b ≡ payload (join shard_payload_bytes n a b)
unfolding assemble
assemble-join n a b ha hb =
    let t : ltb (length a) (min n 492) ≡ false = ground arith in
    let u : ltb (length b) (min (n - 492) 492) ≡ false = ground arith in
    elim (Bool-cases (ltb 492 n)) [
      | inl long ↦ rw (t, long, u) refl
      | inr short ↦ rw (t, short) (ap payload (sym (append-nil _)))
    ]

add-mask :
    (shard : CoalescedShard) (id len m : ℕ) (c : Bool) (x y z : Option Bytes)
    → m ≡ present x + 2 * present y + 4 * present z
    → let slot = add shard (record {
      group_id = id;
      payload_len = len;
      received_mask = m;
      completed = c;
      shards = record { d0 = x; d1 = y; p0 = z };
    }) in
      slot.received_mask
      ≡ present slot.shards.d0 + 2 * present slot.shards.d1 + 4 * present slot.shards.p0
unfolding add
add-mask shard id len m c none none none e = rw e (ground arith)
add-mask shard id len m c none none (some z) e = rw e (ground arith)
add-mask shard id len m c none (some y) none e = rw e (ground arith)
add-mask shard id len m c none (some y) (some z) e = rw e (ground arith)
add-mask shard id len m c (some x) none none e = rw e (ground arith)
add-mask shard id len m c (some x) none (some z) e = rw e (ground arith)
add-mask shard id len m c (some x) (some y) none e = rw e (ground arith)
add-mask shard id len m c (some x) (some y) (some z) e = rw e (ground arith)

add-full :
    (shard : CoalescedShard) (slot : ReassemblySlot)
    → length shard.shard_data ≡ shard_payload_bytes
    → OfLength shard_payload_bytes slot.shards
    → OfLength shard_payload_bytes (add shard slot).shards
unfolding add
add-full shard slot h full = ground arith

-- Adding a shard keeps the mask in step.
pub add-IsSlot :
    (shard : CoalescedShard) (slot : ReassemblySlot)
    → length shard.shard_data ≡ shard_payload_bytes
    → IsSlot slot
    → IsSlot (add shard slot)
add-IsSlot shard slot h v = record {
  mask = add-mask shard _ _ slot.received_mask slot.completed _ _ _ v.mask;
  full = add-full shard slot h v.full;
}
