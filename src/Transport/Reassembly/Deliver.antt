-- ===== src/Transport/Reassembly/Deliver.antt =====
-- Delivery of a coding group (src/ghost/net/reassembly.rs): any two of its shards give its payload.
use vantablack.Prelude.{
  ℕ, ◌%◌, ◌≡◌, ◌≢◌, refl, sym, ap, subst, ◌∙◌, Bool, true, false, Option, none, some, bit_or, arith,
  length, inr,
}
use vantablack.Prelude.Bytes.{Bytes}
use vantablack.Transport.Erasure.{ReedSolomon, IsErasureCode, IsBytes}
use vantablack.Transport.Coalesce.{CoalescedShard, Group, shard_payload_bytes}
use vantablack.Transport.Coalesce.Halves.{join}
use vantablack.Transport.Coalesce.Groups
use vantablack.Transport.Coalesce.Groups.{IsGroup}
use vantablack.Transport.Reassembly.{
  ReassemblySlot, Outcome, nothing, payload, reset, add, complete, recovered, recovery, finish,
}
use vantablack.Transport.Reassembly.Slots.{Fits, ingest_slot}
use vantablack.Transport.Reassembly.Recover.{assemble-join}
use vantablack.Transport.Reassembly.Finish.{
  holding, finish_few, finish_data, finish_first, finish_second,
}
use vantablack.Transport.Reassembly.Runs.{ingest_slot_lem}

-- The order in which the three shards of a group arrive.
pub data Arrival : Type 0 where
  d0_d1_p0 d1_d0_p0 d0_p0_d1 p0_d0_d1 d1_p0_d0 p0_d1_d0 : Arrival

unfoldable pub arrival : Arrival → Group → CoalescedShard × CoalescedShard × CoalescedShard
arrival d0_d1_p0 g = (g.d0, g.d1, g.p0)
arrival d1_d0_p0 g = (g.d1, g.d0, g.p0)
arrival d0_p0_d1 g = (g.d0, g.p0, g.d1)
arrival p0_d0_d1 g = (g.p0, g.d0, g.d1)
arrival d1_p0_d0 g = (g.d1, g.p0, g.d0)
arrival p0_d1_d0 g = (g.p0, g.d1, g.d0)

module _ (rs : ReedSolomon) where
  -- Three shards into one slot.
  abbrev pub slot_thrice :
      ReassemblySlot
      → CoalescedShard × CoalescedShard × CoalescedShard
      → (Outcome × Outcome × Outcome) × ReassemblySlot
  slot_thrice slot (s, t, u) =
      let (o₁, slot₁) = ingest_slot rs slot s in
      let (o₂, slot₂) = ingest_slot rs slot₁ t in
      let (o₃, slot₃) = ingest_slot rs slot₂ u in ((o₁, o₂, o₃), slot₃)

  module _ (shard : CoalescedShard) (slot : ReassemblySlot)
      (fits : Fits (shard.group_id % 64) slot) where
    ingest_fresh :
        slot.group_id ≢ shard.group_id
        → ingest_slot rs slot shard
          ≡ finish rs (add shard (holding shard.group_id shard.payload_len 0 false none none none))
    ingest_fresh ne = rw (ingest_slot_lem rs shard slot fits) (unfold reset in ground arith)

    ingest_more :
        slot.group_id ≡ shard.group_id
        → slot.completed ≡ false
        → ingest_slot rs slot shard ≡ finish rs (add shard slot)
    ingest_more same open' = rw (ingest_slot_lem rs shard slot fits) (ground arith)

    ingest_done :
        slot.group_id ≡ shard.group_id
        → slot.completed ≡ true
        → ingest_slot rs slot shard ≡ (nothing, slot)
    ingest_done same done = rw (ingest_slot_lem rs shard slot fits) (ground arith)

  -- Two shards that complete a fresh slot, and a third that comes late.
  thrice :
      (s t u : CoalescedShard) (slot h h' : ReassemblySlot) (out : Bytes)
      → Fits (s.group_id % 64) slot
      → slot.group_id ≢ s.group_id
      → t.group_id ≡ s.group_id
      → u.group_id ≡ s.group_id
      → finish rs (add s (holding s.group_id s.payload_len 0 false none none none)) ≡ (nothing, h)
      → (h.group_id ≡ s.group_id) × (h.completed ≡ false)
      → finish rs (add t h) ≡ (payload out, h')
      → (h'.group_id ≡ s.group_id) × (h'.completed ≡ true)
      → slot_thrice slot (s, t, u) ≡ ((nothing, payload out, nothing), h')
  thrice s t u slot h h' out fits ne same_t same_u one at_h two at_h' =
      let e₁ : ingest_slot rs slot s ≡ (nothing, h) = ingest_fresh s slot fits ne ∙ one in
      let e₂ : ingest_slot rs h t ≡ (payload out, h') =
        ingest_more t h (inr (ap (λ n. n % 64) (at_h.0 ∙ sym same_t))) (at_h.0 ∙ sym same_t) at_h.1
        ∙ two in
      let e₃ : ingest_slot rs h' u ≡ (nothing, h') =
        ingest_done u h' (inr (ap (λ n. n % 64) (at_h'.0 ∙ sym same_u))) (at_h'.0 ∙ sym same_u)
          at_h'.1 in
      rw (e₁, e₂, e₃) refl

  module _ (shard : CoalescedShard) (id len m : ℕ) (c : Bool) (x y z : Option Bytes) where
    add_first :
        shard.shard_idx ≡ 0
        → add shard (holding id len m c none y z)
          ≡ holding id len (bit_or m 1) c (some shard.shard_data) y z
    unfolding add
    add_first e = rw e refl

    add_second :
        shard.shard_idx ≡ 1
        → add shard (holding id len m c x none z)
          ≡ holding id len (bit_or m 2) c x (some shard.shard_data) z
    unfolding add
    add_second e = rw e refl

    add_parity :
        shard.shard_idx ≡ 2
        → add shard (holding id len m c x y none)
          ≡ holding id len (bit_or m 4) c x y (some shard.shard_data)
    unfolding add
    add_parity e = rw e refl

  module _ (code : IsErasureCode rs) (id len : ℕ) (a b p : Bytes)
      (ha : length a ≡ shard_payload_bytes) (hb : length b ≡ shard_payload_bytes) (ba : IsBytes a)
      (bb : IsBytes b) (hp : p ≡ rs.parity a b) where
    abbrev done : ℕ → Option Bytes → Option Bytes → Option Bytes → ReassemblySlot
    done m x y z = holding id len m true x y z

    finish_without_second :
        finish rs (holding id len 5 false (some a) none (some p))
        ≡ (payload (join shard_payload_bytes len a b), done 5 (some a) none (some p))
    unfolding complete recovery recovered
    finish_without_second =
        let found : rs.recover (record { d0 = some a; d1 = none; p0 = some p })
            ≡ some (record { d0 = some a; d1 = some b; p0 = some p }) =
          rw hp (code.recover_second a b ba bb (ha ∙ sym hb) (omega (arith, ha))) in
        finish_first rs id len 5 false a p refl
        ∙ ap (λ r. complete (recovery len r) (holding id len 5 false (some a) none (some p))) found
        ∙ rw (assemble-join len a b ha hb) refl

    finish_without_first :
        finish rs (holding id len 6 false none (some b) (some p))
        ≡ (payload (join shard_payload_bytes len a b), done 6 none (some b) (some p))
    unfolding complete recovery recovered
    finish_without_first =
        let found : rs.recover (record { d0 = none; d1 = some b; p0 = some p })
            ≡ some (record { d0 = some a; d1 = some b; p0 = some p }) =
          rw hp (code.recover_first a b ba bb (ha ∙ sym hb) (omega (arith, ha))) in
        finish_second rs id len 6 false b p refl
        ∙ ap (λ r. complete (recovery len r) (holding id len 6 false none (some b) (some p))) found
        ∙ rw (assemble-join len a b ha hb) refl

  -- Each order of arrival at one slot.
  module _ (code : IsErasureCode rs) (g : Group) (ok : IsGroup rs g) (slot : ReassemblySlot)
      (fits : Fits (g.d0.group_id % 64) slot) (ne : slot.group_id ≢ g.d0.group_id) where
    abbrev a : Bytes
    a = g.d0.shard_data

    abbrev b : Bytes
    b = g.d1.shard_data

    abbrev p : Bytes
    p = g.p0.shard_data

    Fits-at : (s : CoalescedShard) → s.group_id ≡ g.d0.group_id → Fits (s.group_id % 64) slot
    Fits-at s e = subst (λ n. Fits (n % 64) slot) (sym e) fits

    ne-at : (s : CoalescedShard) → s.group_id ≡ g.d0.group_id → slot.group_id ≢ s.group_id
    ne-at s e h = ne (h ∙ e)

    told :
        (s : CoalescedShard) (slot' : ReassemblySlot)
        → s.payload_len ≡ g.d0.payload_len
        → (t : CoalescedShard × CoalescedShard × CoalescedShard)
        → slot_thrice slot t
          ≡ ((nothing, payload (join shard_payload_bytes s.payload_len a b), nothing), slot')
        → (slot_thrice slot t).0 ≡ (nothing, payload (Groups.payload g), nothing)
    told s slot' e t h =
        ap (λ r. r.0) h ∙ (ap (λ n. (nothing, payload (join shard_payload_bytes n a b), nothing)) e)

    pub delivers_slot :
        (o : Arrival)
        → (slot_thrice slot (arrival o g)).0 ≡ (nothing, payload (Groups.payload g), nothing)
    unfolding arrival
    delivers_slot d0_d1_p0 = told g.d0 _ refl _ (
        thrice g.d0 g.d1 g.p0 slot
          (holding g.d0.group_id g.d0.payload_len 1 false (some a) none none)
          (holding g.d0.group_id g.d0.payload_len 3 true (some a) (some b) none) _
          (Fits-at g.d0 refl) (ne-at g.d0 refl) ok.same_id.0 ok.same_id.1
          (ap (finish rs)
              (add_first g.d0 g.d0.group_id g.d0.payload_len 0 false none none none ok.index.0)
            ∙ finish_few rs g.d0.group_id g.d0.payload_len 1 false (some a) none none refl
                (omega arith))
          (refl, refl)
          (ap (finish rs)
              (add_second g.d1 g.d0.group_id g.d0.payload_len 1 false (some a) none none ok.index.1)
            ∙ finish_data rs g.d0.group_id g.d0.payload_len 3 false a b none refl ok.full.0
                ok.full.1)
          (refl, refl))
    delivers_slot d1_d0_p0 = told g.d1 _ ok.same_len.0 _ (
        thrice g.d1 g.d0 g.p0 slot
          (holding g.d1.group_id g.d1.payload_len 2 false none (some b) none)
          (holding g.d1.group_id g.d1.payload_len 3 true (some a) (some b) none) _
          (Fits-at g.d1 ok.same_id.0) (ne-at g.d1 ok.same_id.0) (sym ok.same_id.0)
          (ok.same_id.1 ∙ sym ok.same_id.0)
          (ap (finish rs)
              (add_second g.d1 g.d1.group_id g.d1.payload_len 0 false none none none ok.index.1)
            ∙ finish_few rs g.d1.group_id g.d1.payload_len 2 false none (some b) none refl
                (omega arith))
          (refl, refl)
          (ap (finish rs)
              (add_first g.d0 g.d1.group_id g.d1.payload_len 2 false none (some b) none ok.index.0)
            ∙ finish_data rs g.d1.group_id g.d1.payload_len 3 false a b none refl ok.full.0
                ok.full.1)
          (refl, refl))
    delivers_slot d0_p0_d1 = told g.d0 _ refl _ (
        thrice g.d0 g.p0 g.d1 slot
          (holding g.d0.group_id g.d0.payload_len 1 false (some a) none none)
          (holding g.d0.group_id g.d0.payload_len 5 true (some a) none (some p)) _
          (Fits-at g.d0 refl) (ne-at g.d0 refl) ok.same_id.1 ok.same_id.0
          (ap (finish rs)
              (add_first g.d0 g.d0.group_id g.d0.payload_len 0 false none none none ok.index.0)
            ∙ finish_few rs g.d0.group_id g.d0.payload_len 1 false (some a) none none refl
                (omega arith))
          (refl, refl)
          (ap (finish rs)
              (add_parity g.p0 g.d0.group_id g.d0.payload_len 1 false (some a) none none ok.index.2)
            ∙ finish_without_second code g.d0.group_id g.d0.payload_len a b p ok.full.0 ok.full.1
                ok.bytes.0 ok.bytes.1 ok.parity)
          (refl, refl))
    delivers_slot p0_d0_d1 = told g.p0 _ ok.same_len.1 _ (
        thrice g.p0 g.d0 g.d1 slot
          (holding g.p0.group_id g.p0.payload_len 4 false none none (some p))
          (holding g.p0.group_id g.p0.payload_len 5 true (some a) none (some p)) _
          (Fits-at g.p0 ok.same_id.1) (ne-at g.p0 ok.same_id.1) (sym ok.same_id.1)
          (ok.same_id.0 ∙ sym ok.same_id.1)
          (ap (finish rs)
              (add_parity g.p0 g.p0.group_id g.p0.payload_len 0 false none none none ok.index.2)
            ∙ finish_few rs g.p0.group_id g.p0.payload_len 4 false none none (some p) refl
                (omega arith))
          (refl, refl)
          (ap (finish rs)
              (add_first g.d0 g.p0.group_id g.p0.payload_len 4 false none none (some p) ok.index.0)
            ∙ finish_without_second code g.p0.group_id g.p0.payload_len a b p ok.full.0 ok.full.1
                ok.bytes.0 ok.bytes.1 ok.parity)
          (refl, refl))
    delivers_slot d1_p0_d0 = told g.d1 _ ok.same_len.0 _ (
        thrice g.d1 g.p0 g.d0 slot
          (holding g.d1.group_id g.d1.payload_len 2 false none (some b) none)
          (holding g.d1.group_id g.d1.payload_len 6 true none (some b) (some p)) _
          (Fits-at g.d1 ok.same_id.0) (ne-at g.d1 ok.same_id.0) (ok.same_id.1 ∙ sym ok.same_id.0)
          (sym ok.same_id.0)
          (ap (finish rs)
              (add_second g.d1 g.d1.group_id g.d1.payload_len 0 false none none none ok.index.1)
            ∙ finish_few rs g.d1.group_id g.d1.payload_len 2 false none (some b) none refl
                (omega arith))
          (refl, refl)
          (ap (finish rs)
              (add_parity g.p0 g.d1.group_id g.d1.payload_len 2 false none (some b) none ok.index.2)
            ∙ finish_without_first code g.d1.group_id g.d1.payload_len a b p ok.full.0 ok.full.1
                ok.bytes.0 ok.bytes.1 ok.parity)
          (refl, refl))
    delivers_slot p0_d1_d0 = told g.p0 _ ok.same_len.1 _ (
        thrice g.p0 g.d1 g.d0 slot
          (holding g.p0.group_id g.p0.payload_len 4 false none none (some p))
          (holding g.p0.group_id g.p0.payload_len 6 true none (some b) (some p)) _
          (Fits-at g.p0 ok.same_id.1) (ne-at g.p0 ok.same_id.1) (ok.same_id.0 ∙ sym ok.same_id.1)
          (sym ok.same_id.1)
          (ap (finish rs)
              (add_parity g.p0 g.p0.group_id g.p0.payload_len 0 false none none none ok.index.2)
            ∙ finish_few rs g.p0.group_id g.p0.payload_len 4 false none none (some p) refl
                (omega arith))
          (refl, refl)
          (ap (finish rs)
              (add_second g.d1 g.p0.group_id g.p0.payload_len 4 false none none (some p) ok.index.1)
            ∙ finish_without_first code g.p0.group_id g.p0.payload_len a b p ok.full.0 ok.full.1
                ok.bytes.0 ok.bytes.1 ok.parity)
          (refl, refl))
