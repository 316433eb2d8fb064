-- ===== src/Transport/Reassembly/Finish.antt =====
-- The end of `ingest_shard` (src/ghost/net/reassembly.rs), by the shards that a slot has.
use vantablack.Prelude.{
  ℕ, ◌+◌, ◌*◌, ◌≤◌, ◌≡◌, ◌≢◌, refl, sym, ap, ◌∙◌, Bool, true, Option, none, some, arith, length,
  inl, inr, Option-cases,
}
use vantablack.Prelude.Bytes.{Bytes}
use vantablack.Transport.Erasure.{
  Shards, ReedSolomon, IsErasureCode, HasLength, OfLength, reconstruct,
}
use vantablack.Transport.Coalesce.{shard_payload_bytes}
use vantablack.Transport.Coalesce.Halves.{join}
use vantablack.Transport.Reassembly.{
  ReassemblySlot, Outcome, nothing, payload, panicked, fast_path, recovered, recovery, complete,
  finish,
}
use vantablack.Transport.Reassembly.Recover.{present, IsSlot, assemble-join}

module _ (id len m : ℕ) (c : Bool) where
  abbrev pub holding : Option Bytes → Option Bytes → Option Bytes → ReassemblySlot
  holding x y z = record {
    group_id = id;
    payload_len = len;
    received_mask = m;
    completed = c;
    shards = record { d0 = x; d1 = y; p0 = z };
  }

module _ (rs : ReedSolomon) (id len m : ℕ) (c : Bool) where
  -- What the end of `ingest_shard` does, by the shards that are present.
  pub finish_few :
      (x y z : Option Bytes)
      → m ≡ present x + 2 * present y + 4 * present z
      → present x + present y + present z ≤ 1
      → finish rs (holding id len m c x y z) ≡ (nothing, holding id len m c x y z)
  unfolding finish
  finish_few none none none e h = rw e refl
  finish_few none none (some z) e h = rw e refl
  finish_few none (some y) none e h = rw e refl
  finish_few (some x) none none e h = rw e refl
  finish_few none (some y) (some z) e h = absurd (omega arith)
  finish_few (some x) none (some z) e h = absurd (omega arith)
  finish_few (some x) (some y) none e h = absurd (omega arith)
  finish_few (some x) (some y) (some z) e h = absurd (omega arith)

  pub finish_data :
      (a b : Bytes) (z : Option Bytes)
      → m ≡ 3 + 4 * present z
      → length a ≡ shard_payload_bytes
      → length b ≡ shard_payload_bytes
      → finish rs (holding id len m c (some a) (some b) z) ≡ (
        payload (join shard_payload_bytes len a b),
        record (holding id len m c (some a) (some b) z) { completed = true },
      )
  unfolding finish fast_path complete
  finish_data a b none e ha hb = rw (e, assemble-join len a b ha hb) refl
  finish_data a b (some z) e ha hb = rw (e, assemble-join len a b ha hb) refl

  pub finish_first :
      (a p : Bytes)
      → m ≡ 5
      → finish rs (holding id len m c (some a) none (some p))
        ≡ complete
            (recovery len (rs.recover (record { d0 = some a; d1 = none; p0 = some p })))
            (holding id len m c (some a) none (some p))
  unfolding finish reconstruct
  finish_first a p e = rw e refl

  pub finish_second :
      (b p : Bytes)
      → m ≡ 6
      → finish rs (holding id len m c none (some b) (some p))
        ≡ complete
            (recovery len (rs.recover (record { d0 = none; d1 = some b; p0 = some p })))
            (holding id len m c none (some b) (some p))
  unfolding finish reconstruct
  finish_second b p e = rw e refl

complete-IsSlot :
    (o : Outcome) (slot : ReassemblySlot)
    → IsSlot slot
    → o ≢ panicked
    → IsSlot (complete o slot).1 × ((complete o slot).0 ≢ panicked)
unfolding complete
complete-IsSlot nothing slot v h = (v, h)
complete-IsSlot (payload out) slot v h = (record { mask = v.mask; full = v.full }, h)
complete-IsSlot panicked slot v h = (v, h)

recovered-calm :
    (len : ℕ) (x y : Option Bytes)
    → HasLength shard_payload_bytes x
    → HasLength shard_payload_bytes y
    → recovered len x y ≢ panicked
unfolding recovered
recovered-calm len none y hx hy e = cc
recovered-calm len (some a) none hx hy e = cc
recovered-calm len (some a) (some b) hx hy e = let f = sym (assemble-join len a b hx hy) ∙ e in cc

module _ (rs : ReedSolomon) (code : IsErasureCode rs) where
  recovery-calm :
      (len : ℕ) (s : Shards)
      → OfLength shard_payload_bytes s
      → recovery len (rs.recover s) ≢ panicked
  recovery-calm len s h = elim (Option-cases (rs.recover s)) [
    | inl failed ↦ λ e. (let f = sym (ap (recovery len) failed) ∙ e in unfold recovery in cc)
    | inr (t, found) ↦
        let full = code.length-recover shard_payload_bytes s t h found in
        λ e.
          recovered-calm len t.d0 t.d1 full.0 full.1
            (unfold recovery in (sym (ap (recovery len) found) ∙ e))
  ]

  calm :
      (id len m : ℕ) (c : Bool) (x y z : Option Bytes)
      → m ≡ present x + 2 * present y + 4 * present z
      → OfLength shard_payload_bytes (record { d0 = x; d1 = y; p0 = z })
      → IsSlot (finish rs (holding id len m c x y z)).1
        × ((finish rs (holding id len m c x y z)).0 ≢ panicked)
  calm id len m c none none none e full =
      rw (finish_few rs id len m c none none none e (omega arith))
        (record { mask = e; full = full }, λ h. cc)
  calm id len m c none none (some z) e full =
      rw (finish_few rs id len m c none none (some z) e (omega arith))
        (record { mask = e; full = full }, λ h. cc)
  calm id len m c none (some y) none e full =
      rw (finish_few rs id len m c none (some y) none e (omega arith))
        (record { mask = e; full = full }, λ h. cc)
  calm id len m c (some x) none none e full =
      rw (finish_few rs id len m c (some x) none none e (omega arith))
        (record { mask = e; full = full }, λ h. cc)
  calm id len m c none (some y) (some z) e full = rw (finish_second rs id len m c y z e) (
      complete-IsSlot _ (holding id len m c none (some y) (some z))
        (record { mask = e; full = full })
        (recovery-calm len (record { d0 = none; d1 = some y; p0 = some z }) full))
  calm id len m c (some x) none (some z) e full = rw (finish_first rs id len m c x z e) (
      complete-IsSlot _ (holding id len m c (some x) none (some z))
        (record { mask = e; full = full })
        (recovery-calm len (record { d0 = some x; d1 = none; p0 = some z }) full))
  calm id len m c (some x) (some y) z e full =
      rw (finish_data rs id len m c x y z (omega arith) full.0 full.1)
        (record { mask = e; full = full }, λ h. cc)

  -- The end of `ingest_shard` keeps the mask in step and does not panic.
  pub finish-IsSlot :
      (slot : ReassemblySlot)
      → IsSlot slot
      → IsSlot (finish rs slot).1 × ((finish rs slot).0 ≢ panicked)
  finish-IsSlot slot v =
      calm slot.group_id slot.payload_len slot.received_mask slot.completed slot.shards.d0
        slot.shards.d1 slot.shards.p0 v.mask v.full
