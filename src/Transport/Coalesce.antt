-- ===== src/Transport/Coalesce.antt =====
-- The coalescing queue and its shards (src/ghost/net/coalesce.rs). Each reading of the clock is an
-- argument.
pub mod Wire
pub mod Halves
pub mod Groups
pub mod Push
pub mod Stream
use vantablack.Prelude.{
  ℕ, zero, suc, ◌+◌, ◌-◌, ◌%◌, ◌^◌, min, bit_or, Bool, true, false, not, ◌&&◌, Option, none, some,
  List, [], ◌∷◌, ◌++◌, ltb, leb, ◌==◌, if◌then◌else◌, length, take, drop, replicate,
}
use vantablack.Prelude.Bytes.{Bytes}
use vantablack.Transport.Erasure.{ReedSolomon, encode_parity_slice}

-- `COALESCE_TARGET_BYTES`
abbrev pub coalesce_target_bytes : ℕ
coalesce_target_bytes = 984

-- `SHARD_PAYLOAD_BYTES`
abbrev pub shard_payload_bytes : ℕ
shard_payload_bytes = 492

-- `DEFAULT_COALESCE_TIMEOUT`, 200 microseconds in nanoseconds
abbrev pub default_coalesce_timeout : ℕ
default_coalesce_timeout = 200_000

-- `FLAG_IMMEDIATE`, `FLAG_PADDED`
abbrev pub flag_immediate : ℕ
flag_immediate = 1

abbrev pub flag_padded : ℕ
flag_padded = 2

pub record CoalescedShard : Type 0 where
  pub group_id : ℕ
  pub shard_idx : ℕ
  pub flags : ℕ
  pub payload_len : ℕ
  pub shard_data : Bytes

-- The triplet [D0, D1, P0].
pub record Group : Type 0 where
  pub d0 : CoalescedShard
  pub d1 : CoalescedShard
  pub p0 : CoalescedShard

pub record CoalescingQueue : Type 0 where
  pub buffer : Bytes
  pub max_batch_size : ℕ
  pub timeout : ℕ
  pub last_flush : ℕ
  pub next_group_id : ℕ

-- `new`
unfoldable pub new : ℕ → ℕ → ℕ → CoalescingQueue
new max_batch_size timeout now = record {
  buffer = [];
  max_batch_size = min max_batch_size coalesce_target_bytes;
  timeout = timeout;
  last_flush = now;
  next_group_id = 1;
}

-- A zeroed array of `n` bytes whose front is overwritten.
abbrev pub fill : ℕ → Bytes → Bytes
fill n front = front ++ replicate (n - length front) 0

-- The two halves of a batch in zeroed arrays of `n` bytes.
abbrev pub low_half : ℕ → Bytes → Bytes
low_half n batch = fill n (take (min (length batch) n) batch)

abbrev pub high_half : ℕ → Bytes → Bytes
high_half n batch =
    if ltb n (length batch)
    then fill n (take (min (length batch - n) n) (drop n batch))
    else replicate n 0

-- `next_group_id.wrapping_add(1)`, where 0 is skipped.
abbrev pub next_id : ℕ → ℕ
next_id n = if (n + 1) % 2 ^ 64 == 0 then 1 else (n + 1) % 2 ^ 64

module _ (rs : ReedSolomon) where
  -- `flush_internal`
  unfoldable pub flush_internal : ℕ → ℕ → CoalescingQueue → Group × CoalescingQueue
  unfolding encode_parity_slice
  flush_internal now flags q =
      let len = length q.buffer in
      let payload_len = len % 2 ^ 16 in
      let d0 = low_half shard_payload_bytes q.buffer in
      let d1 = high_half shard_payload_bytes q.buffer in
      let flags' = if ltb payload_len q.max_batch_size then bit_or flags flag_padded else flags in
      let shard : ℕ → Bytes → CoalescedShard = λ idx bytes. record {
        group_id = q.next_group_id;
        shard_idx = idx;
        flags = flags';
        payload_len = payload_len;
        shard_data = bytes;
      } in
      (
        record { d0 = shard 0 d0; d1 = shard 1 d1; p0 = shard 2 (encode_parity_slice rs d0 d1) },
        record q { buffer = []; last_flush = now; next_group_id = next_id q.next_group_id },
      )

  -- `tick`
  unfoldable pub tick : ℕ → ℕ → CoalescingQueue → Option Group × CoalescingQueue
  unfolding flush_internal
  tick now at q =
      if length q.buffer == 0
      then (none, record q { last_flush = now })
      else if leb q.timeout (now - q.last_flush)
      then (let (g, q') = flush_internal at 0 q in (some g, q'))
      else (none, q)

  -- `flush`
  unfoldable pub flush : ℕ → ℕ → CoalescingQueue → Option Group × CoalescingQueue
  unfolding flush_internal
  flush at flags q =
      if length q.buffer == 0
      then (none, q)
      else (let (g, q') = flush_internal at flags q in (some g, q'))

  -- The `while` loop of `push` over the bytes that are left, with the groups flushed so far. The
  -- clock is read once for each flush. `none` means that the fuel ran out.
  unfoldable pub push_loop :
      ℕ
      → (ℕ → ℕ)
      → Bool
      → Bytes
      → List Group
      → CoalescingQueue
      → Option (List Group × CoalescingQueue)
  unfolding flush_internal
  push_loop zero clock force rest results q = none
  push_loop (suc fuel) clock force rest results q =
      let to_take = min (length rest) (q.max_batch_size - length q.buffer) in
      let q' = record q { buffer = q.buffer ++ take to_take rest } in
      let (g, q'') =
        flush_internal (clock (length results)) (if force then flag_immediate else 0) q' in
      let flushed = push_loop fuel clock force (drop to_take rest) (results ++ (g ∷ [])) q'' in
      let kept = push_loop fuel clock force (drop to_take rest) results q' in
      if length rest == 0
      then some (results, q)
      else if leb q.max_batch_size (length q'.buffer)
      then flushed
      else kept

  -- `push`: the loop, and the flush that `force_immediate` asks for.
  unfoldable pub push_end :
      (ℕ → ℕ) → Bool → List Group × CoalescingQueue → List Group × CoalescingQueue
  unfolding flush_internal
  push_end clock force (results, q) =
      if force && not (length q.buffer == 0)
      then (let (g, q') = flush_internal (clock (length results)) flag_immediate q in
          (results ++ (g ∷ []), q'))
      else (results, q)

  unfoldable pub push :
      ℕ → (ℕ → ℕ) → Bool → Bytes → CoalescingQueue → Option (List Group × CoalescingQueue)
  unfolding push_loop push_end
  push fuel clock force input q = elim (push_loop fuel clock force input [] q) [
    | none ↦ none
    | some out ↦ some (push_end clock force out)
  ]
