-- ===== src/Transport/Reassembly/Groups.antt =====
-- Coding groups through the whole reassembly buffer (src/ghost/net/reassembly.rs).
use vantablack.Prelude.{◌%◌, ◌≤◌, ◌≡◌, ◌≢◌, refl, sym, ap, ◌∙◌, true, arith, ◌==◌, length, get_or}
use vantablack.Transport.Erasure.{ReedSolomon, IsErasureCode}
use vantablack.Transport.Coalesce.{CoalescedShard, Group, shard_payload_bytes}
use vantablack.Transport.Coalesce.Groups
use vantablack.Transport.Coalesce.Groups.{IsGroup}
use vantablack.Transport.Reassembly.{
  ReassemblyBuffer, Outcome, nothing, payload, empty, slot_of, ingest_shard,
}
use vantablack.Transport.Reassembly.Slots.{ingest_slot, ingest_shard-slot}
use vantablack.Transport.Reassembly.Runs.{IsReassembly, ingest_shard-IsReassembly}
use vantablack.Transport.Reassembly.Deliver.{
  Arrival, d0_d1_p0, d1_d0_p0, d0_p0_d1, p0_d0_d1, d1_p0_d0, p0_d1_d0, arrival, slot_thrice,
  delivers_slot,
}

-- A shard that `ingest_shard` can take: an index of at most 2 and 492 bytes of data.
pub record IsWhole (s : CoalescedShard) : Type 0 where
  pub index : s.shard_idx ≤ 2
  pub full : length s.shard_data ≡ shard_payload_bytes

-- What three calls of `ingest_shard` return.
unfoldable pub ingest_thrice :
    ReedSolomon
    → CoalescedShard × CoalescedShard × CoalescedShard
    → ReassemblyBuffer
    → Outcome × Outcome × Outcome
ingest_thrice rs (s, t, u) b =
    let (o₁, b₁) = ingest_shard rs s b in
    let (o₂, b₂) = ingest_shard rs t b₁ in (o₁, o₂, (ingest_shard rs u b₂).0)

module _ (rs : ReedSolomon) (code : IsErasureCode rs) where
  -- The slot that a shard of the same group finds next.
  next_slot :
      (s t : CoalescedShard) (b : ReassemblyBuffer)
      → IsReassembly b
      → IsWhole s
      → t.group_id ≡ s.group_id
      → slot_of (ingest_shard rs s b).1 t ≡ (ingest_slot rs (slot_of b s) s).1
  unfolding slot_of
  next_slot s t b v w e =
      let (_, _, slots) = ingest_shard-slot rs s b w.index v.buffer in
      slots (t.group_id % 64)
      ∙ (let here : (s.group_id % 64 == t.group_id % 64) ≡ true = ground arith in rw here refl)

  thrice-slot :
      (s t u : CoalescedShard) (b : ReassemblyBuffer)
      → IsReassembly b
      → IsWhole s
      → IsWhole t
      → IsWhole u
      → t.group_id ≡ s.group_id
      → u.group_id ≡ t.group_id
      → ingest_thrice rs (s, t, u) b ≡ (slot_thrice rs (slot_of b s) (s, t, u)).0
  unfolding ingest_thrice
  thrice-slot s t u b v ws wt wu et eu =
      let b₁ = (ingest_shard rs s b).1 in
      let v₁ = (ingest_shard-IsReassembly rs code s b ws.full v).0 in
      let v₂ = (ingest_shard-IsReassembly rs code t b₁ wt.full v₁).0 in
      let f₁ = next_slot s t b v ws et in
      let f₂ = next_slot t u b₁ v₁ wt eu ∙ ap (λ x. (ingest_slot rs x t).1) f₁ in
      let o₁ = (ingest_shard-slot rs s b ws.index v.buffer).0 in
      let o₂ =
        (ingest_shard-slot rs t b₁ wt.index v₁.buffer).0 ∙ ap (λ x. (ingest_slot rs x t).0) f₁ in
      let o₃ =
        (ingest_shard-slot rs u _ wu.index v₂.buffer).0 ∙ ap (λ x. (ingest_slot rs x u).0) f₂ in
      λ i. (o₁ i, o₂ i, o₃ i)

  module _ (g : Group) (ok : IsGroup rs g) where
    IsWhole-d0 : IsWhole g.d0
    IsWhole-d0 = record { index = omega (arith, ok.index.0); full = ok.full.0 }

    IsWhole-d1 : IsWhole g.d1
    IsWhole-d1 = record { index = omega (arith, ok.index.1); full = ok.full.1 }

    IsWhole-p0 : IsWhole g.p0
    IsWhole-p0 = record {
      index = omega (arith, ok.index.2);
      full =
          ap length ok.parity
          ∙ code.length-parity g.d0.shard_data g.d1.shard_data (ok.full.0 ∙ sym ok.full.1)
          ∙ ok.full.0;
    }

    same_slot :
        (s : CoalescedShard) (b : ReassemblyBuffer)
        → s.group_id ≡ g.d0.group_id
        → slot_of b s ≡ slot_of b g.d0
    unfolding slot_of
    same_slot s b e = ap (λ n. get_or b.slots (n % 64) empty) e

    arrival-slot :
        (o : Arrival) (b : ReassemblyBuffer)
        → IsReassembly b
        → ingest_thrice rs (arrival o g) b ≡ (slot_thrice rs (slot_of b g.d0) (arrival o g)).0
    unfolding arrival
    arrival-slot d0_d1_p0 b v =
        thrice-slot g.d0 g.d1 g.p0 b v IsWhole-d0 IsWhole-d1 IsWhole-p0 ok.same_id.0
          (ok.same_id.1 ∙ sym ok.same_id.0)
        ∙ ap (λ x. (slot_thrice rs x (g.d0, g.d1, g.p0)).0) (same_slot g.d0 b refl)
    arrival-slot d1_d0_p0 b v =
        thrice-slot g.d1 g.d0 g.p0 b v IsWhole-d1 IsWhole-d0 IsWhole-p0 (sym ok.same_id.0)
          ok.same_id.1
        ∙ ap (λ x. (slot_thrice rs x (g.d1, g.d0, g.p0)).0) (same_slot g.d1 b ok.same_id.0)
    arrival-slot d0_p0_d1 b v =
        thrice-slot g.d0 g.p0 g.d1 b v IsWhole-d0 IsWhole-p0 IsWhole-d1 ok.same_id.1
          (ok.same_id.0 ∙ sym ok.same_id.1)
        ∙ ap (λ x. (slot_thrice rs x (g.d0, g.p0, g.d1)).0) (same_slot g.d0 b refl)
    arrival-slot p0_d0_d1 b v =
        thrice-slot g.p0 g.d0 g.d1 b v IsWhole-p0 IsWhole-d0 IsWhole-d1 (sym ok.same_id.1)
          ok.same_id.0
        ∙ ap (λ x. (slot_thrice rs x (g.p0, g.d0, g.d1)).0) (same_slot g.p0 b ok.same_id.1)
    arrival-slot d1_p0_d0 b v =
        thrice-slot g.d1 g.p0 g.d0 b v IsWhole-d1 IsWhole-p0 IsWhole-d0
          (ok.same_id.1 ∙ sym ok.same_id.0) (sym ok.same_id.1)
        ∙ ap (λ x. (slot_thrice rs x (g.d1, g.p0, g.d0)).0) (same_slot g.d1 b ok.same_id.0)
    arrival-slot p0_d1_d0 b v =
        thrice-slot g.p0 g.d1 g.d0 b v IsWhole-p0 IsWhole-d1 IsWhole-d0
          (ok.same_id.0 ∙ sym ok.same_id.1) (sym ok.same_id.0)
        ∙ ap (λ x. (slot_thrice rs x (g.p0, g.d1, g.d0)).0) (same_slot g.p0 b ok.same_id.1)

  -- Whatever two shards of a group arrive first at a buffer whose slot does not hold that group,
  -- and in whatever order, the second of them delivers the group's payload, and the third nothing.
  pub ingest_thrice-arrival :
      (g : Group) (o : Arrival) (b : ReassemblyBuffer)
      → IsGroup rs g
      → IsReassembly b
      → (slot_of b g.d0).group_id ≢ g.d0.group_id
      → ingest_thrice rs (arrival o g) b ≡ (nothing, payload (Groups.payload g), nothing)
  ingest_thrice-arrival g o b ok v ne =
      arrival-slot g ok o b v
      ∙ delivers_slot rs code g ok (slot_of b g.d0)
          (unfold slot_of in v.buffer.placed (g.d0.group_id % 64) (omega arith)) ne o
