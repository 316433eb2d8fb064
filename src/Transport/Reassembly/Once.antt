-- ===== src/Transport/Reassembly/Once.antt =====
-- A delivered group (src/ghost/net/reassembly.rs) is not delivered again while it keeps its slot.
use vantablack.Prelude.{
  ℕ, ◌%◌, ◌≤◌, ◌≡◌, refl, sym, ap, subst, ◌∙◌, Bool, true, false, not, ◌||◌, List, [], ◌∷◌, arith,
  ltb, ◌==◌, length, get_or, All, inl, inr, Bool-cases,
}
use vantablack.Prelude.Bytes.{Bytes}
use vantablack.Transport.Erasure.{ReedSolomon, IsErasureCode}
use vantablack.Transport.Coalesce.{CoalescedShard, shard_payload_bytes}
use vantablack.Transport.Reassembly.{
  ReassemblySlot, ReassemblyBuffer, nothing, payload, empty, slot_of, ingest_shard,
}
use vantablack.Transport.Reassembly.Slots.{ingest_slot, ingest_shard_bad, ingest_shard-slot}
use vantablack.Transport.Reassembly.Runs.{
  IsReassembly, ingest_shard-IsReassembly, ingest_all, ingest_slot_lem, ingest_slot-group_id,
  ingest_slot-completed,
}

-- A shard that leaves the slot of the group `id` to it: one of that group, or of another slot.
abbrev pub spares : ℕ → CoalescedShard → Bool
spares id s = (s.group_id == id) || not (s.group_id % 64 == id % 64)

abbrev IsDone : ℕ → ReassemblySlot → Type 0
IsDone id slot = (slot.group_id ≡ id) × (slot.completed ≡ true)

module _ (rs : ReedSolomon) (code : IsErasureCode rs) where
  dropped :
      (s : CoalescedShard) (slot : ReassemblySlot)
      → IsDone s.group_id slot
      → ingest_slot rs slot s ≡ (nothing, slot)
  dropped s slot (id, done) =
      rw (ingest_slot_lem rs s slot (inr (ap (λ n. n % 64) id))) (ground arith)

  abbrev at_id : ℕ → ReassemblyBuffer → ReassemblySlot
  at_id id b = get_or b.slots (id % 64) empty

  touched :
      (s : CoalescedShard) (b : ReassemblyBuffer)
      → IsReassembly b
      → s.shard_idx ≤ 2
      → ((ingest_shard rs s b).0 ≡ (ingest_slot rs (at_id s.group_id b) s).0)
        × (at_id s.group_id (ingest_shard rs s b).1 ≡ (ingest_slot rs (at_id s.group_id b) s).1)
  unfolding slot_of
  touched s b v h =
      let (out, _, slots) = ingest_shard-slot rs s b h v.buffer in
      let here : (s.group_id % 64 == s.group_id % 64) ≡ true = ground arith in
      (out, slots (s.group_id % 64) ∙ rw here refl)

  move : {n m : ℕ} (b : ReassemblyBuffer) → n ≡ m → IsDone n (at_id n b) → IsDone m (at_id m b)
  move b e done = subst (λ n. IsDone n (at_id n b)) e done

  own_shard :
      (s : CoalescedShard) (b : ReassemblyBuffer)
      → IsReassembly b
      → s.shard_idx ≤ 2
      → IsDone s.group_id (at_id s.group_id b)
      → IsDone s.group_id (at_id s.group_id (ingest_shard rs s b).1)
  own_shard s b v h done =
      let kept = (touched s b v h).1 ∙ ap (λ r. r.1) (dropped s (at_id s.group_id b) done) in
      rw kept done

  spared :
      (id : ℕ) (s : CoalescedShard) (b : ReassemblyBuffer)
      → IsReassembly b
      → spares id s ≡ true
      → IsDone id (at_id id b)
      → IsDone id (at_id id (ingest_shard rs s b).1)
  spared id s b v safe done = elim (Bool-cases (ltb 2 s.shard_idx)) [
    | inl bad ↦ rw (ingest_shard_bad rs s b (ground arith)) done
    | inr good ↦
        let (_, _, slots) = ingest_shard-slot rs s b (ground arith) v.buffer in
        elim (Bool-cases (s.group_id == id)) [
          | inl own ↦
              let e : s.group_id ≡ id = ground arith in
              move (ingest_shard rs s b).1 e (own_shard s b v (ground arith) (move b (sym e) done))
          | inr other ↦
              let away : (s.group_id % 64 == id % 64) ≡ false = ground arith in
              let same : at_id id (ingest_shard rs s b).1 ≡ at_id id b =
                slots (id % 64) ∙ rw away refl in
              rw same done
        ]
  ]

  delivered :
      (s : CoalescedShard) (b : ReassemblyBuffer) (out : Bytes)
      → IsReassembly b
      → (ingest_shard rs s b).0 ≡ payload out
      → IsDone s.group_id (at_id s.group_id (ingest_shard rs s b).1)
  delivered s b out v h = elim (Bool-cases (ltb 2 s.shard_idx)) [
    | inl bad ↦
        let silent : nothing ≡ payload out =
          ap (λ r. r.0) (sym (ingest_shard_bad rs s b (ground arith))) ∙ h in
        cc
    | inr good ↦
        let fits = v.buffer.placed (s.group_id % 64) (omega arith) in
        let (out_at, slot_at) = touched s b v (ground arith) in
        rw slot_at (
          ingest_slot-group_id rs s (at_id s.group_id b) fits,
          ingest_slot-completed rs s (at_id s.group_id b) fits out (sym out_at ∙ h),
        )
  ]

  spared-All :
      (ss : List CoalescedShard) (id : ℕ) (b : ReassemblyBuffer)
      → All (λ s. length s.shard_data ≡ shard_payload_bytes) ss
      → All (λ s. spares id s ≡ true) ss
      → IsReassembly b
      → IsDone id (at_id id b)
      → IsReassembly (ingest_all rs ss b) × IsDone id (at_id id (ingest_all rs ss b))
  unfolding ingest_all
  spared-All [] id b full safe v done = (v, done)
  spared-All (s ∷ ss) id b full safe v done =
      spared-All ss id (ingest_shard rs s b).1 full.1 safe.1
        (ingest_shard-IsReassembly rs code s b full.0 v).0 (spared id s b v safe.0 done)

  -- With an erasure code of the documented kind and a well-formed buffer: once a shard has
  -- delivered its group, no later shard of the group delivers anything, as long as every shard in
  -- between has 492 bytes of data and is of that group or of another slot.
  pub ingest_shard_once :
      (s t : CoalescedShard) (between : List CoalescedShard) (b : ReassemblyBuffer) {out : Bytes}
      → All (λ x. length x.shard_data ≡ shard_payload_bytes) (s ∷ between)
      → All (λ x. spares s.group_id x ≡ true) between
      → IsReassembly b
      → t.group_id ≡ s.group_id
      → (ingest_shard rs s b).0 ≡ payload out
      → (ingest_shard rs t (ingest_all rs between (ingest_shard rs s b).1)).0 ≡ nothing
  ingest_shard_once s t between b {out} full safe v same h =
      let v₁ = (ingest_shard-IsReassembly rs code s b full.0 v).0 in
      let (v₂, done) =
        spared-All between s.group_id (ingest_shard rs s b).1 full.1 safe v₁
          (delivered s b out v h) in
      elim (Bool-cases (ltb 2 t.shard_idx)) [
        | inl bad ↦ ap (λ r. r.0) (ingest_shard_bad rs t _ (ground arith))
        | inr good ↦
            (touched t _ v₂ (ground arith)).0
            ∙ ap (λ r. r.0)
                (dropped t _ (move (ingest_all rs between (ingest_shard rs s b).1) (sym same) done))
      ]
