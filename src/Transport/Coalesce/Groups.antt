-- ===== src/Transport/Coalesce/Groups.antt =====
-- Batches and coding groups (src/ghost/net/coalesce.rs): what a flush makes of the buffer.
use vantablack.Prelude.{ℕ, ◌%◌, ◌^◌, ◌≤◌, ◌<◌, ◌≡◌, refl, List, [], ◌∷◌, ◌++◌, arith, length}
use vantablack.Prelude.Bytes.{Bytes}
use vantablack.Transport.Erasure.{ReedSolomon, IsBytes, encode_parity_slice}
use vantablack.Transport.Coalesce.{
  Group, CoalescingQueue, shard_payload_bytes, coalesce_target_bytes, new, next_id, flush_internal,
}
use vantablack.Transport.Coalesce.Halves.{
  join, join-halves, length-low_half, length-high_half, low_half-IsBytes, high_half-IsBytes,
}

-- The bytes that the data shards of a group carry.
abbrev pub payload : Group → Bytes
payload g = join shard_payload_bytes g.d0.payload_len g.d0.shard_data g.d1.shard_data

-- Three shards of one coding group.
pub record IsGroup (rs : ReedSolomon) (g : Group) : Type 0 where
  pub index : (g.d0.shard_idx ≡ 0) × (g.d1.shard_idx ≡ 1) × (g.p0.shard_idx ≡ 2)
  pub same_id : (g.d1.group_id ≡ g.d0.group_id) × (g.p0.group_id ≡ g.d0.group_id)
  pub same_len : (g.d1.payload_len ≡ g.d0.payload_len) × (g.p0.payload_len ≡ g.d0.payload_len)
  pub full :
      (length g.d0.shard_data ≡ shard_payload_bytes)
      × (length g.d1.shard_data ≡ shard_payload_bytes)
  pub bytes : IsBytes g.d0.shard_data × IsBytes g.d1.shard_data
  pub parity : g.p0.shard_data ≡ rs.parity g.d0.shard_data g.d1.shard_data
  pub id_pos : 0 < g.d0.group_id

-- A queue between two operations: room for a byte, and a group number other than 0.
pub record IsQueue (q : CoalescingQueue) : Type 0 where
  pub room : length q.buffer < q.max_batch_size
  pub bounded : q.max_batch_size ≤ coalesce_target_bytes
  pub bytes : IsBytes q.buffer
  pub id_pos : 0 < q.next_group_id

pub new-IsQueue :
    (max_batch_size timeout now : ℕ) → 0 < max_batch_size → IsQueue (new max_batch_size timeout now)
unfolding new
new-IsQueue max_batch_size timeout now h = record {
  room = omega arith;
  bounded = omega arith;
  bytes = tt;
  id_pos = omega arith;
}

pub next_id_pos : (n : ℕ) → 0 < next_id n
next_id_pos n = ground arith

-- The groups are numbered one after the other, from `n` on; `m` is the number after them.
abbrev pub Numbered : ℕ → List Group → ℕ → Type 0
Numbered n [] m = n ≡ m
Numbered n (g ∷ gs) m = (g.d0.group_id ≡ n) × Numbered (next_id n) gs m

unfoldable pub payloads : List Group → Bytes
payloads [] = []
payloads (g ∷ gs) = payload g ++ payloads gs

module _ (rs : ReedSolomon) where
  -- Flushing a buffer of at most 984 bytes under a group number above 0 makes one well-formed
  -- group of that number, whose data shards carry exactly the buffer.
  pub flush_internal-IsGroup :
      (now flags : ℕ) (q : CoalescingQueue)
      → length q.buffer ≤ coalesce_target_bytes
      → IsBytes q.buffer
      → 0 < q.next_group_id
      → let (g, q') = flush_internal rs now flags q in
        IsGroup rs g × (payload g ≡ q.buffer) × (g.d0.group_id ≡ q.next_group_id)
  unfolding flush_internal encode_parity_slice
  flush_internal-IsGroup now flags q h b pos =
      let len : length q.buffer % 2 ^ 16 ≡ length q.buffer = omega arith in
      (
        record {
          index = (refl, refl, refl);
          same_id = (refl, refl);
          same_len = (refl, refl);
          full = (length-low_half 492 q.buffer, length-high_half 492 q.buffer);
          bytes = (low_half-IsBytes 492 q.buffer b, high_half-IsBytes 492 q.buffer b);
          parity = refl;
          id_pos = pos;
        },
        rw len (join-halves 492 q.buffer h),
        refl,
      )

  pub flush_internal-rest :
      (now flags : ℕ) (q : CoalescingQueue)
      → (flush_internal rs now flags q).1
        ≡ record q { buffer = []; last_flush = now; next_group_id = next_id q.next_group_id }
  unfolding flush_internal
  flush_internal-rest now flags q = refl

  pub flush_internal-IsQueue :
      (now flags : ℕ) (q : CoalescingQueue)
      → 0 < q.max_batch_size
      → q.max_batch_size ≤ coalesce_target_bytes
      → IsQueue (flush_internal rs now flags q).1
  flush_internal-IsQueue now flags q pos bounded =
      rw (flush_internal-rest now flags q)
        (record { room = pos; bounded = bounded; bytes = tt; id_pos = next_id_pos q.next_group_id })
