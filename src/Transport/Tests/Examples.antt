-- ===== src/Transport/Tests/Examples.antt =====
-- Runs of the coalescing queue and the reassembly buffer.
use vantablack.Prelude.{
  ℕ, ◌+◌, ◌≡◌, ◌≢◌, refl, sym, ap, true, some, [], ◌∷◌, arith, length, length-replicate, replicate,
  drop,
}
use vantablack.Prelude.Bytes.{Bytes}
use vantablack.Transport.Coalesce
use vantablack.Transport.Coalesce.{CoalescedShard, Group, CoalescingQueue, flush_internal, push}
use vantablack.Transport.Coalesce.Wire.{
  header_len, serialize_into, deserialize, IsShard, deserialize-serialize_into,
}
use vantablack.Transport.Coalesce.Groups
use vantablack.Transport.Coalesce.Groups.{IsGroup, IsQueue, new-IsQueue, flush_internal-IsGroup}
use vantablack.Transport.Coalesce.Stream.{Sends, push-Sends}
use vantablack.Transport.Reassembly
use vantablack.Transport.Reassembly.{
  ReassemblySlot, ReassemblyBuffer, nothing, payload, panicked, claim, slot_of, ingest_shard,
}
use vantablack.Transport.Reassembly.Runs.{
  IsReassembly, new-IsReassembly, ingest_shard-IsReassembly, ingest_all,
}
use vantablack.Transport.Reassembly.Once.{ingest_shard_once}
use vantablack.Transport.Reassembly.Deliver.{p0_d1_d0, d0_p0_d1, d0_d1_p0, arrival}
use vantablack.Transport.Reassembly.Groups.{IsWhole, ingest_thrice}
use vantablack.Transport.EndToEnd.{flush_internal-ingest, ingest_thrice-again}
use vantablack.Transport.Tests.SumCode.{sum_code, sum_code-IsErasureCode}

abbrev zeros : Bytes
zeros = replicate 492 0

abbrev shard : ℕ → ℕ → CoalescedShard
shard id idx = record {
  group_id = id;
  shard_idx = idx;
  flags = 1;
  payload_len = 600;
  shard_data = zeros;
}

whole : length zeros ≡ 492
whole = length-replicate {A = ℕ} 492 0

shard-IsShard : IsShard (shard 5 1)
shard-IsShard = record { id_fits = omega arith; len_fits = omega arith; full = whole }

abbrev room : Bytes
room = replicate 520 9

deserialize-serialize_into_example :
    (out : Bytes) × (serialize_into (shard 5 1) room ≡ some (header_len + 492, out))
    × (deserialize out ≡ some (shard 5 1))
    × (length out ≡ length room)
    × (drop 504 out ≡ drop 504 room)
deserialize-serialize_into_example =
    deserialize-serialize_into (shard 5 1) room shard-IsShard
      (omega (arith, length-replicate {A = ℕ} 520 9))

-- A queue of batches of 4 bytes.
abbrev queue : CoalescingQueue
queue = Coalesce.new 4 200_000 0

abbrev clock : ℕ → ℕ
clock n = 10 + n

abbrev input : Bytes
input = 1 ∷ 2 ∷ 3 ∷ 4 ∷ 5 ∷ 6 ∷ []

push-Sends_example : Sends sum_code queue true input (push sum_code 7 clock true input queue)
push-Sends_example =
    push-Sends sum_code 7 clock true input queue (new-IsQueue 4 200_000 0 (omega arith))
      (omega arith) (omega arith)

abbrev full_queue : CoalescingQueue
full_queue = record {
  buffer = input;
  max_batch_size = 984;
  timeout = 200_000;
  last_flush = 0;
  next_group_id = 70;
}

abbrev group : Group
group = (flush_internal sum_code 3 0 full_queue).0

-- An empty buffer holds no group 70.
fresh : (slot_of Reassembly.new group.d0).group_id ≢ 70
unfolding slot_of Reassembly.new flush_internal
fresh e = omega arith

flush_internal-ingest_example :
    ingest_thrice sum_code (arrival p0_d1_d0 group) Reassembly.new
    ≡ (nothing, payload input, nothing)
flush_internal-ingest_example =
    flush_internal-ingest sum_code sum_code-IsErasureCode 3 0 full_queue p0_d1_d0 Reassembly.new
      (omega arith) (omega arith) (omega arith) new-IsReassembly fresh

group-IsGroup : IsGroup sum_code group
group-IsGroup =
    (flush_internal-IsGroup sum_code 3 0 full_queue (omega arith) (omega arith) (omega arith)).0

-- Group 6 shares the slot of group 70.
shard-IsWhole : IsWhole (shard 6 1)
shard-IsWhole = record { index = omega arith; full = whole }

group-id : group.d0.group_id ≡ 70
unfolding flush_internal
group-id = refl

ingest_thrice-again_example :
    ingest_thrice sum_code
      (arrival d0_p0_d1 group)
      (ingest_shard sum_code (shard 6 1) Reassembly.new).1
    ≡ (nothing, payload (Groups.payload group), nothing)
ingest_thrice-again_example =
    ingest_thrice-again sum_code sum_code-IsErasureCode (shard 6 1) group d0_p0_d1 Reassembly.new
      shard-IsWhole group-IsGroup new-IsReassembly (omega (arith, group-id))
      (omega (arith, group-id))

-- A buffer that has D0 of group 70.
abbrev half : ReassemblyBuffer
half = (ingest_shard sum_code group.d0 Reassembly.new).1

half-IsReassembly : IsReassembly half
half-IsReassembly =
    (ingest_shard-IsReassembly sum_code sum_code-IsErasureCode group.d0 Reassembly.new
      group-IsGroup.full.0 new-IsReassembly).0

delivers : (ingest_shard sum_code group.d1 half).0 ≡ payload input
unfolding ingest_thrice arrival
delivers =
    ap (λ o. o.1)
      (flush_internal-ingest sum_code sum_code-IsErasureCode 3 0 full_queue d0_d1_p0 Reassembly.new
        (omega arith) (omega arith) (omega arith) new-IsReassembly fresh)

ingest_shard_once_example :
    (ingest_shard sum_code group.d0
      (ingest_all sum_code (shard 7 0 ∷ []) (ingest_shard sum_code group.d1 half).1)).0
    ≡ nothing
ingest_shard_once_example =
    ingest_shard_once sum_code sum_code-IsErasureCode group.d1 group.d0 (shard 7 0 ∷ []) half
      (group-IsGroup.full.1, (whole, tt)) (unfold flush_internal in refl, tt) half-IsReassembly
      (sym group-IsGroup.same_id.0) delivers
