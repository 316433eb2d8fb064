-- ===== src/Transport/Reassembly.antt =====
-- The reassembly buffer (src/ghost/net/reassembly.rs): 64 slots, one for each residue of the group
-- number.
pub mod Slots
pub mod Recover
pub mod Finish
pub mod Runs
pub mod Once
pub mod Deliver
pub mod Groups
use vantablack.Prelude.{
  ℕ, zero, suc, ◌+◌, ◌-◌, ◌*◌, ◌/◌, ◌%◌, ◌^◌, min, max, bit_and, bit_or, Bool, true, false, not,
  ◌&&◌, Option, none, some, List, [], ◌∷◌, ◌++◌, ltb, leb, ◌==◌, if◌then◌else◌, length, take,
  replicate, get_or, set,
}
use vantablack.Prelude.Bytes.{Bytes}
use vantablack.Transport.Erasure.{Shards, ReedSolomon, reconstruct}
use vantablack.Transport.Coalesce.{CoalescedShard, shard_payload_bytes}

-- `RING_SLOTS`
abbrev pub ring_slots : ℕ
ring_slots = 64

pub record ReassemblySlot : Type 0 where
  pub group_id : ℕ
  pub payload_len : ℕ
  pub received_mask : ℕ
  pub completed : Bool
  pub shards : Shards

pub record ReassemblyBuffer : Type 0 where
  pub slots : List ReassemblySlot
  pub highest_seen_group : ℕ

-- What a call comes to: `None`, a payload, or the panic of an `unwrap` or of a slice out of range.
pub data Outcome : Type 0 where
  nothing : Outcome
  payload : Bytes → Outcome
  panicked : Outcome

abbrev pub no_shards : Shards
no_shards = record { d0 = none; d1 = none; p0 = none }

-- `ReassemblySlot::empty`
abbrev pub empty : ReassemblySlot
empty = record {
  group_id = 0;
  payload_len = 0;
  received_mask = 0;
  completed = false;
  shards = no_shards;
}

-- `ReassemblySlot::reset`
unfoldable pub reset : ℕ → ℕ → ReassemblySlot → ReassemblySlot
reset group_id payload_len slot = record {
  group_id = group_id;
  payload_len = payload_len;
  received_mask = 0;
  completed = false;
  shards = no_shards;
}

-- `ReassemblyBuffer::new`
unfoldable pub new : ReassemblyBuffer
new = record { slots = replicate ring_slots empty; highest_seen_group = 0 }

-- The choice of the slot's group at the start of `ingest_shard`: `none` where the shard is dropped.
unfoldable pub claim : ReassemblySlot → CoalescedShard → Option ReassemblySlot
unfolding reset
claim slot shard =
    if slot.group_id == shard.group_id
    then (if slot.completed then none else some slot)
    else if not (slot.group_id == 0)
    then if ltb shard.group_id slot.group_id && ltb (slot.group_id - shard.group_id) ring_slots
      then none
      else some (reset shard.group_id shard.payload_len slot)
    else some (reset shard.group_id shard.payload_len slot)

abbrev keep_first : Option Bytes → Bytes → Option Bytes
keep_first none bytes = some bytes
keep_first (some old) bytes = some old

abbrev pub mark_if_none : Option Bytes → ℕ → ℕ → ℕ
mark_if_none none idx mask = bit_or mask (2 ^ idx)
mark_if_none (some old) idx mask = mask

-- `if slot.shards[idx].is_none() { … }`, for an index of at most 2.
unfoldable pub add : CoalescedShard → ReassemblySlot → ReassemblySlot
add shard slot =
    if shard.shard_idx == 0
    then record slot {
      received_mask = mark_if_none slot.shards.d0 0 slot.received_mask;
      shards = record (slot.shards) { d0 = keep_first slot.shards.d0 shard.shard_data };
    }
    else if shard.shard_idx == 1
    then record slot {
      received_mask = mark_if_none slot.shards.d1 1 slot.received_mask;
      shards = record (slot.shards) { d1 = keep_first slot.shards.d1 shard.shard_data };
    }
    else record slot {
      received_mask = mark_if_none slot.shards.p0 2 slot.received_mask;
      shards = record (slot.shards) { p0 = keep_first slot.shards.p0 shard.shard_data };
    }

-- `count_ones` of a byte.
abbrev ones : ℕ → ℕ → ℕ
ones zero n = 0
ones (suc w) n = n % 2 + ones w (n / 2)

abbrev pub count_ones : ℕ → ℕ
count_ones n = ones 8 n

-- The output from two data shards, as both paths of `ingest_shard` build it; slicing past the end
-- of a shard panics.
unfoldable pub assemble : ℕ → Bytes → Bytes → Outcome
assemble total_len d0 d1 =
    let first_take = min total_len shard_payload_bytes in
    let second_take = min (total_len - shard_payload_bytes) shard_payload_bytes in
    if ltb (length d0) first_take
    then panicked
    else if ltb shard_payload_bytes total_len
    then if ltb (length d1) second_take
      then panicked
      else payload (take first_take d0 ++ take second_take d1)
    else payload (take first_take d0)

-- `slot.shards[0].as_ref().unwrap()` and the same for 1.
unfoldable pub fast_path : ℕ → Option Bytes → Option Bytes → Outcome
unfolding assemble
fast_path total_len none d1 = panicked
fast_path total_len (some d0) none = panicked
fast_path total_len (some d0) (some d1) = assemble total_len d0 d1

-- `if let (Some(d0), Some(d1)) = …`
unfoldable pub recovered : ℕ → Option Bytes → Option Bytes → Outcome
unfolding assemble
recovered total_len none d1 = nothing
recovered total_len (some d0) none = nothing
recovered total_len (some d0) (some d1) = assemble total_len d0 d1

unfoldable pub recovery : ℕ → Option Shards → Outcome
unfolding recovered
recovery total_len none = nothing
recovery total_len (some s) = recovered total_len s.d0 s.d1

-- A payload completes the slot.
unfoldable pub complete : Outcome → ReassemblySlot → Outcome × ReassemblySlot
complete (payload out) slot = (payload out, record slot { completed = true })
complete nothing slot = (nothing, slot)
complete panicked slot = (panicked, slot)

-- `&mut self.slots[slot_idx]`
unfoldable pub slot_of : ReassemblyBuffer → CoalescedShard → ReassemblySlot
slot_of b shard = get_or b.slots (shard.group_id % ring_slots) empty

module _ (rs : ReedSolomon) where
  -- The rest of `ingest_shard`, on the slot with the shard in it.
  unfoldable pub finish : ReassemblySlot → Outcome × ReassemblySlot
  unfolding fast_path recovery complete reconstruct
  finish slot =
      if ltb (count_ones slot.received_mask) 2
      then (nothing, slot)
      else if bit_and slot.received_mask 3 == 3
      then complete (fast_path slot.payload_len slot.shards.d0 slot.shards.d1) slot
      else complete (recovery slot.payload_len (reconstruct rs slot.shards)) slot

  -- `ingest_shard`
  unfoldable pub ingest_claimed :
      Option ReassemblySlot → CoalescedShard → ReassemblyBuffer → Outcome × ReassemblyBuffer
  unfolding add finish
  ingest_claimed none shard b = (nothing, b)
  ingest_claimed (some slot) shard b =
      let (out, slot') = finish (add shard slot) in
      (
        out,
        record {
          slots = set b.slots (shard.group_id % ring_slots) slot';
          highest_seen_group = max shard.group_id b.highest_seen_group;
        },
      )

  unfoldable pub ingest_shard : CoalescedShard → ReassemblyBuffer → Outcome × ReassemblyBuffer
  unfolding claim ingest_claimed slot_of
  ingest_shard shard b =
      if ltb 2 shard.shard_idx
      then (nothing, b)
      else ingest_claimed (claim (slot_of b shard) shard) shard b
