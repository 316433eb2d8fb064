-- ===== src/Transport/EndToEnd.antt =====
-- A batch through the whole path: src/ghost/net/coalesce.rs on one side, src/ghost/net/reassembly.rs on the
-- other.
use vantablack.Prelude.{ℕ, ◌%◌, ◌≤◌, ◌<◌, ◌≡◌, ◌≢◌, refl, sym, ap, ◌∙◌, true, ◌==◌, arith, length}
use vantablack.Transport.Erasure.{ReedSolomon, IsErasureCode, IsBytes}
use vantablack.Transport.Coalesce.{
  CoalescedShard, Group, CoalescingQueue, coalesce_target_bytes, flush_internal,
}
use vantablack.Transport.Coalesce.Groups
use vantablack.Transport.Coalesce.Groups.{IsGroup, flush_internal-IsGroup}
use vantablack.Transport.Reassembly.{ReassemblyBuffer, nothing, payload, slot_of, ingest_shard}
use vantablack.Transport.Reassembly.Slots.{ingest_slot, ingest_shard-slot}
use vantablack.Transport.Reassembly.Runs.{
  IsReassembly, ingest_shard-IsReassembly, ingest_slot-group_id,
}
use vantablack.Transport.Reassembly.Deliver.{Arrival, arrival}
use vantablack.Transport.Reassembly.Groups.{IsWhole, ingest_thrice, ingest_thrice-arrival}

module _ (rs : ReedSolomon) (code : IsErasureCode rs) where
  -- With an erasure code of the documented kind: if a queue flushes a batch of at most 984 bytes
  -- under a group number above 0, then any two of the group's three shards, in whatever order
  -- they arrive at a well-formed reassembly buffer whose slot does not hold that number, give
  -- back exactly the bytes of the batch when the second of them arrives; the first yields
  -- nothing, and the third, late one yields nothing.
  pub flush_internal-ingest :
      (now flags : ℕ) (q : CoalescingQueue) (o : Arrival) (b : ReassemblyBuffer)
      → length q.buffer ≤ coalesce_target_bytes
      → IsBytes q.buffer
      → 0 < q.next_group_id
      → IsReassembly b
      → (slot_of b (flush_internal rs now flags q).0.d0).group_id ≢ q.next_group_id
      → ingest_thrice rs (arrival o (flush_internal rs now flags q).0) b
        ≡ (nothing, payload q.buffer, nothing)
  flush_internal-ingest now flags q o b fits bytes pos v fresh =
      let (ok, carries, id) = flush_internal-IsGroup rs now flags q fits bytes pos in
      ingest_thrice-arrival rs code (flush_internal rs now flags q).0 o b ok v (λ e. fresh (e ∙ id))
      ∙ (λ i. (nothing, payload (carries i), nothing))

  slot_taken :
      (s : CoalescedShard) (g : Group) (b : ReassemblyBuffer)
      → IsWhole s
      → IsReassembly b
      → s.group_id % 64 ≡ g.d0.group_id % 64
      → (slot_of (ingest_shard rs s b).1 g.d0).group_id ≡ s.group_id
  unfolding slot_of
  slot_taken s g b w v e =
      let (_, _, slots) = ingest_shard-slot rs s b w.index v.buffer in
      let here : (s.group_id % 64 == g.d0.group_id % 64) ≡ true = ground arith in
      let found : slot_of (ingest_shard rs s b).1 g.d0 ≡ (ingest_slot rs (slot_of b s) s).1 =
        slots (g.d0.group_id % 64) ∙ rw here refl in
      ap (λ x. x.group_id) found
      ∙ ingest_slot-group_id rs s (slot_of b s)
          (unfold slot_of in v.buffer.placed (s.group_id % 64) (omega arith))

  -- With an erasure code of the documented kind: in a well-formed buffer, whether or not it has
  -- delivered a group before, once one whole shard of another group with the same residue modulo
  -- 64 has arrived, older or newer, any two shards of the group deliver its payload (again).
  pub ingest_thrice-again :
      (s : CoalescedShard) (g : Group) (o : Arrival) (b : ReassemblyBuffer)
      → IsWhole s
      → IsGroup rs g
      → IsReassembly b
      → s.group_id % 64 ≡ g.d0.group_id % 64
      → s.group_id ≢ g.d0.group_id
      → ingest_thrice rs (arrival o g) (ingest_shard rs s b).1
        ≡ (nothing, payload (Groups.payload g), nothing)
  ingest_thrice-again s g o b w ok v same other =
      ingest_thrice-arrival rs code g o (ingest_shard rs s b).1 ok
        (ingest_shard-IsReassembly rs code s b w.full v).0
        (λ e. other (sym (slot_taken s g b w v same) ∙ e))
