-- ===== src/Transport/Reassembly/Runs.antt =====
-- Histories of the reassembly buffer (src/ghost/net/reassembly.rs): no panic, and no group delivered
-- twice while its slot is not taken by another.
use vantablack.Prelude.{
  ℕ, ◌%◌, ◌≡◌, ◌≢◌, refl, sym, ap, subst, ◌∙◌, Bool, true, false, ◌&&◌, some, List, [], ◌∷◌, arith,
  ltb, ◌==◌, if◌then◌else◌, length, get_or, All, inl, inr, Bool-cases,
}
use vantablack.Prelude.Bytes.{Bytes}
use vantablack.Transport.Erasure.{ReedSolomon, IsErasureCode, reconstruct}
use vantablack.Transport.Coalesce.{CoalescedShard, shard_payload_bytes}
use vantablack.Transport.Reassembly.{
  ReassemblySlot, ReassemblyBuffer, Outcome, nothing, payload, panicked, empty, reset, new, add,
  complete, finish, fast_path, recovery, slot_of, ingest_shard,
}
use vantablack.Transport.Reassembly.Slots.{
  Fits, IsBuffer, get_or-replicate, new-IsBuffer, claim_lem, ingest_with, ingest_slot,
  ingest_shard_bad, ingest_shard-slot,
}
use vantablack.Transport.Reassembly.Recover.{IsSlot, empty-IsSlot, reset-IsSlot, add-IsSlot}
use vantablack.Transport.Reassembly.Finish.{finish-IsSlot}

complete-group_id :
    (o : Outcome) (slot : ReassemblySlot) → (complete o slot).1.group_id ≡ slot.group_id
unfolding complete
complete-group_id nothing slot = refl
complete-group_id (payload out) slot = refl
complete-group_id panicked slot = refl

complete-completed :
    (o : Outcome) (slot : ReassemblySlot) (out : Bytes)
    → (complete o slot).0 ≡ payload out
    → (complete o slot).1.completed ≡ true
unfolding complete
complete-completed nothing slot out h = cc
complete-completed (payload x) slot out h = refl
complete-completed panicked slot out h = cc

add-group_id :
    (shard : CoalescedShard) (slot : ReassemblySlot) → (add shard slot).group_id ≡ slot.group_id
unfolding add
add-group_id shard slot = ground arith

either-IsSlot :
    (b : Bool) {x y : ReassemblySlot} → IsSlot x → IsSlot y → IsSlot (if b then x else y)
either-IsSlot true u v = u
either-IsSlot false u v = v

module _ (rs : ReedSolomon) where
  abbrev from_data : ReassemblySlot → Outcome
  from_data slot = fast_path slot.payload_len slot.shards.d0 slot.shards.d1

  abbrev from_parity : ReassemblySlot → Outcome
  from_parity slot = recovery slot.payload_len (reconstruct rs slot.shards)

  finish-group_id : (slot : ReassemblySlot) → (finish rs slot).1.group_id ≡ slot.group_id
  unfolding finish
  finish-group_id slot =
      ground
        (arith, complete-group_id (from_data slot) slot, complete-group_id (from_parity slot) slot)

  finish-completed :
      (slot : ReassemblySlot) (out : Bytes)
      → (finish rs slot).0 ≡ payload out
      → (finish rs slot).1.completed ≡ true
  unfolding finish
  finish-completed slot out h = ground (
    arith,
    complete-completed (from_data slot) slot out,
    complete-completed (from_parity slot) slot out,
  )

  -- What one shard does to its slot.
  taken_group_id :
      (shard : CoalescedShard) (s : ReassemblySlot)
      → (ingest_with rs (some s) s shard).1.group_id ≡ s.group_id
  unfolding ingest_with
  taken_group_id shard s = finish-group_id (add shard s) ∙ add-group_id shard s

  module _ (shard : CoalescedShard) (slot : ReassemblySlot)
      (fits : Fits (shard.group_id % 64) slot) where
    -- The slot that a shard goes to, unless it is dropped.
    abbrev claimed : ReassemblySlot
    claimed =
        if slot.group_id == shard.group_id
        then slot
        else reset shard.group_id shard.payload_len slot

    claimed-group_id : claimed.group_id ≡ shard.group_id
    claimed-group_id = unfold reset in ground arith

    -- A shard is dropped if its group is complete, and else added to the slot it claims.
    pub ingest_slot_lem : ingest_slot rs slot shard ≡ (
        if (slot.group_id == shard.group_id) && slot.completed
        then (nothing, slot)
        else finish rs (add shard claimed))
    unfolding ingest_slot ingest_with
    ingest_slot_lem =
        ap (λ c. ingest_with rs c slot shard) (claim_lem slot shard fits) ∙ ground arith

    pub ingest_slot-group_id : (ingest_slot rs slot shard).1.group_id ≡ shard.group_id
    ingest_slot-group_id =
        let through =
          finish-group_id (add shard claimed) ∙ add-group_id shard claimed ∙ claimed-group_id in
        rw ingest_slot_lem (ground (arith, through))

    pub ingest_slot-IsSlot :
        IsErasureCode rs
        → IsSlot slot
        → length shard.shard_data ≡ shard_payload_bytes
        → IsSlot (ingest_slot rs slot shard).1 × ((ingest_slot rs slot shard).0 ≢ panicked)
    ingest_slot-IsSlot code v full =
        let used = finish-IsSlot rs code (add shard claimed) (
          add-IsSlot shard claimed full (
            either-IsSlot (slot.group_id == shard.group_id) v
              (reset-IsSlot shard.group_id shard.payload_len slot))) in
        elim (Bool-cases ((slot.group_id == shard.group_id) && slot.completed)) [
          | inl done ↦ rw (ingest_slot_lem, done) (v, λ h. cc)
          | inr open' ↦ rw (ingest_slot_lem, open') used
        ]

    pub ingest_slot-completed :
        (out : Bytes)
        → (ingest_slot rs slot shard).0 ≡ payload out
        → (ingest_slot rs slot shard).1.completed ≡ true
    ingest_slot-completed out =
        rw ingest_slot_lem (λ h. ground (arith, finish-completed (add shard claimed) out))

-- Each slot of the buffer is in step with its mask, and holds a group of its residue.
pub record IsReassembly (b : ReassemblyBuffer) : Type 0 where
  pub buffer : IsBuffer b
  pub each : (i : ℕ) → IsSlot (get_or b.slots i empty)

either-Fits :
    (id i : ℕ) (x y : ReassemblySlot)
    → x.group_id ≡ id
    → Fits i y
    → Fits i (if id % 64 == i then x else y)
either-Fits id i x y e v = elim (Bool-cases (id % 64 == i)) [
  | inl here ↦ rw (here, e) (inr (ground arith))
  | inr there ↦ rw there v
]

pub new-IsReassembly : IsReassembly new
new-IsReassembly = record {
  buffer = new-IsBuffer;
  each = λ i. unfold new in rw (get_or-replicate 64 i) empty-IsSlot;
}

unfoldable pub ingest_all : ReedSolomon → List CoalescedShard → ReassemblyBuffer → ReassemblyBuffer
ingest_all rs [] b = b
ingest_all rs (s ∷ ss) b = ingest_all rs ss (ingest_shard rs s b).1

module _ (rs : ReedSolomon) (code : IsErasureCode rs) where
  -- With an erasure code of the documented kind, a shard with 492 bytes of data, whatever its
  -- header, leaves a well-formed buffer well formed and does not panic.
  pub ingest_shard-IsReassembly :
      (shard : CoalescedShard) (b : ReassemblyBuffer)
      → length shard.shard_data ≡ shard_payload_bytes
      → IsReassembly b
      → IsReassembly (ingest_shard rs shard b).1 × ((ingest_shard rs shard b).0 ≢ panicked)
  ingest_shard-IsReassembly shard b full v = elim (Bool-cases (ltb 2 shard.shard_idx)) [
    | inl bad ↦ rw (ingest_shard_bad rs shard b (ground arith)) (v, λ h. cc)
    | inr good ↦
        let (same, size, slots) = ingest_shard-slot rs shard b (ground arith) v.buffer in
        let fits = v.buffer.placed (shard.group_id % 64) (omega arith) in
        let ok =
          ingest_slot-IsSlot rs shard (slot_of b shard) (unfold slot_of in fits) code
            (unfold slot_of in v.each (shard.group_id % 64)) full in
        let id = ingest_slot-group_id rs shard (slot_of b shard) (unfold slot_of in fits) in
        (
          record {
            buffer = record {
              size = size;
              placed = λ i h.
                  subst (Fits i) (sym (slots i))
                    (either-Fits shard.group_id i _ _ id (v.buffer.placed i h));
            };
            each = λ i.
                subst IsSlot (sym (slots i))
                  (either-IsSlot (shard.group_id % 64 == i) ok.0 (v.each i));
          },
          rw same ok.1,
        )
  ]

  -- With an erasure code of the documented kind, from a well-formed buffer on, whatever shards
  -- with 492 bytes of data arrive and in whatever order, the next one does not panic.
  pub ingest_all-calm :
      (shards : List CoalescedShard) (shard : CoalescedShard) (b : ReassemblyBuffer)
      → All (λ s. length s.shard_data ≡ shard_payload_bytes) (shard ∷ shards)
      → IsReassembly b
      → (ingest_shard rs shard (ingest_all rs shards b)).0 ≢ panicked
  unfolding ingest_all
  ingest_all-calm [] shard b full v = (ingest_shard-IsReassembly shard b full.0 v).1
  ingest_all-calm (s ∷ ss) shard b full v =
      ingest_all-calm ss shard (ingest_shard rs s b).1 (full.0, full.1.1)
        (ingest_shard-IsReassembly s b full.1.0 v).0
