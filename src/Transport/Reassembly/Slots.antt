-- ===== src/Transport/Reassembly/Slots.antt =====
-- The slots of the reassembly buffer (src/ghost/net/reassembly.rs): where a group number may stand.
use vantablack.Prelude.{
  ℕ, zero, suc, ◌%◌, ◌≤◌, ◌<◌, ◌≡◌, ◌≢◌, ◌⊎◌, refl, sym, ap, ◌∙◌, true, false, Option, none, some,
  List, arith, ltb, ◌==◌, if◌then◌else◌, length, replicate, get_or, set, length-set,
  length-replicate, get_or-set_self, get_or-set_ne, inl, inr, Bool-cases, Option-cases,
}
use vantablack.Transport.Erasure.{ReedSolomon}
use vantablack.Transport.Coalesce.{CoalescedShard}
use vantablack.Transport.Reassembly.{
  ReassemblySlot, ReassemblyBuffer, Outcome, nothing, empty, reset, new, claim, add, finish,
  slot_of, ingest_claimed, ingest_shard,
}

-- A slot is unused, or holds a group whose number has its residue.
abbrev pub Fits : ℕ → ReassemblySlot → Type 0
Fits i slot = (slot.group_id ≡ 0) ⊎ (slot.group_id % 64 ≡ i)

pub record IsBuffer (b : ReassemblyBuffer) : Type 0 where
  pub size : length b.slots ≡ 64
  pub placed : (i : ℕ) → i < 64 → Fits i (get_or b.slots i empty)

pub get_or-replicate : (n i : ℕ) → get_or (replicate n empty) i empty ≡ empty
get_or-replicate zero i = refl
get_or-replicate (suc n) zero = refl
get_or-replicate (suc n) (suc i) = get_or-replicate n i

pub new-IsBuffer : IsBuffer new
unfolding new
new-IsBuffer = record {
  size = length-replicate 64 empty;
  placed = λ i h. inl (ap (λ s. s.group_id) (get_or-replicate 64 i));
}

-- For a slot that is unused or holds a group of the shard's residue modulo 64, the test for an
-- outdated shard makes no difference: a shard is dropped exactly if the slot has completed its
-- own group, continues an incomplete one, and resets a slot of any other.
pub claim_lem :
    (slot : ReassemblySlot) (shard : CoalescedShard)
    → Fits (shard.group_id % 64) slot
    → claim slot shard ≡ (
        if slot.group_id == shard.group_id
        then (if slot.completed then none else some slot)
        else some (reset shard.group_id shard.payload_len slot))
unfolding claim
claim_lem slot shard v = ground arith

-- The part of `ingest_shard` that works on the shard's slot.
unfoldable pub ingest_with :
    ReedSolomon → Option ReassemblySlot → ReassemblySlot → CoalescedShard → Outcome × ReassemblySlot
ingest_with rs none slot shard = (nothing, slot)
ingest_with rs (some s) slot shard = finish rs (add shard s)

unfoldable pub ingest_slot :
    ReedSolomon → ReassemblySlot → CoalescedShard → Outcome × ReassemblySlot
unfolding ingest_with
ingest_slot rs slot shard = ingest_with rs (claim slot shard) slot shard

-- Writing one slot.
written :
    (slots : List ReassemblySlot) (k : ℕ) (slot : ReassemblySlot) (i : ℕ)
    → k < length slots
    → get_or (set slots k slot) i empty ≡ (if k == i then slot else get_or slots i empty)
written slots k slot i h = elim (Bool-cases (k == i)) [
  | inl here ↦
      let e : k ≡ i = ground arith in
      rw here
        (ap (λ j. get_or (set slots k slot) j empty) (sym e) ∙ get_or-set_self slots k slot empty h)
  | inr there ↦ let ne : k ≢ i = (λ e. ground arith) in rw there (get_or-set_ne slots slot empty ne)
]

kept :
    (slots : List ReassemblySlot) (k i : ℕ)
    → get_or slots i empty ≡ (if k == i then get_or slots k empty else get_or slots i empty)
kept slots k i = elim (Bool-cases (k == i)) [
  | inl here ↦ let e : i ≡ k = ground arith in rw here (ap (λ j. get_or slots j empty) e)
  | inr there ↦ rw there refl
]

-- An index above 2 is refused at once.
pub ingest_shard_bad :
    (rs : ReedSolomon) (shard : CoalescedShard) (b : ReassemblyBuffer)
    → 2 < shard.shard_idx
    → ingest_shard rs shard b ≡ (nothing, b)
unfolding ingest_shard
ingest_shard_bad rs shard b h = let t : ltb 2 shard.shard_idx ≡ true = ground arith in rw t refl

-- `ingest_shard` works on the slot of the shard's group and leaves the others alone.
module _ (rs : ReedSolomon) (shard : CoalescedShard) (b : ReassemblyBuffer)
    (h : shard.shard_idx ≤ 2) where
  ingest_shard_lem :
      ingest_shard rs shard b ≡ ingest_claimed rs (claim (slot_of b shard) shard) shard b
  unfolding ingest_shard
  ingest_shard_lem = let t : ltb 2 shard.shard_idx ≡ false = ground arith in rw t refl

  -- The slot after the shard.
  abbrev after : ReassemblySlot
  after = (ingest_slot rs (slot_of b shard) shard).1

  abbrev placed_at : ℕ → Outcome × ReassemblySlot → ReassemblySlot
  placed_at i (out, slot) = if shard.group_id % 64 == i then slot else get_or b.slots i empty

  pub ingest_shard-slot :
      IsBuffer b
      → ((ingest_shard rs shard b).0 ≡ (ingest_slot rs (slot_of b shard) shard).0)
        × (length (ingest_shard rs shard b).1.slots ≡ 64)
        × ((i : ℕ)
            → get_or (ingest_shard rs shard b).1.slots i empty
              ≡ (if shard.group_id % 64 == i then after else get_or b.slots i empty))
  unfolding ingest_claimed ingest_slot slot_of
  ingest_shard-slot v = elim (Option-cases (claim (slot_of b shard) shard)) [
    | inl dropped ↦
        let e = ingest_shard_lem ∙ ap (λ c. ingest_claimed rs c shard b) dropped in
        let e' : ingest_slot rs (slot_of b shard) shard ≡ (nothing, slot_of b shard) =
          ap (λ c. ingest_with rs c (slot_of b shard) shard) dropped in
        rw e (
          sym (ap (λ t. t.0) e'),
          v.size,
          λ i. kept b.slots (shard.group_id % 64) i ∙ ap (placed_at i) (sym e'),
        )
    | inr (s, taken) ↦
        let e = ingest_shard_lem ∙ ap (λ c. ingest_claimed rs c shard b) taken in
        let e' : ingest_slot rs (slot_of b shard) shard ≡ finish rs (add shard s) =
          ap (λ c. ingest_with rs c (slot_of b shard) shard) taken in
        rw e (
          sym (ap (λ t. t.0) e'),
          length-set b.slots _ _ ∙ v.size,
          λ i.
              written b.slots (shard.group_id % 64) _ i (omega (arith, v.size))
              ∙ ap (placed_at i) (sym e'),
        )
  ]
