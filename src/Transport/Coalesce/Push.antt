-- ===== src/Transport/Coalesce/Push.antt =====
-- The loop of `push` (src/ghost/net/coalesce.rs): it ends, and loses no byte.
use vantablack.Prelude.{
  ℕ, zero, suc, ◌+◌, ◌-◌, ◌≤◌, ◌<◌, min, ◌≡◌, ◌≢◌, refl, sym, ap, subst, ◌∙◌, Bool, true, false,
  Option, some, List, [], ◌∷◌, ◌++◌, append_assoc, append-nil, arith, leb, ◌==◌, if◌then◌else◌, inl,
  inr, leb→le, Bool-cases, length, take, drop, length-append, length-take, length-drop,
  length-eq-zero, take-append-drop, All, All-append, All-take, All-drop,
}
use vantablack.Prelude.Bytes.{Bytes}
use vantablack.Transport.Erasure.{ReedSolomon, IsBytes}
use vantablack.Transport.Coalesce.{
  Group, CoalescingQueue, flag_immediate, next_id, flush_internal, push_loop,
}
use vantablack.Transport.Coalesce.Groups.{
  payload, IsGroup, IsQueue, Numbered, payloads, flush_internal-IsGroup, flush_internal-rest,
  flush_internal-IsQueue,
}

module _ (rs : ReedSolomon) where
  -- What comes out of a loop that starts with the groups `results`, the queue `q` and the bytes
  -- `rest` still to take: more groups, which carry what went in, but for what stays in the buffer.
  pub data Emits (results : List Group) (q : CoalescingQueue) (rest : Bytes)
      : Option (List Group × CoalescingQueue) → Type 0 where
    emits :
        (gs : List Group) (q' : CoalescingQueue)
        → IsQueue q'
        → All (IsGroup rs) gs
        → payloads gs ++ q'.buffer ≡ q.buffer ++ rest
        → Numbered q.next_group_id gs q'.next_group_id
        → Emits results q rest (some (results ++ gs, q'))

  Emits-kept :
      {results : List Group} {q : CoalescingQueue} {rest : Bytes}
      {out : Option (List Group × CoalescingQueue)} (n : ℕ)
      → Emits results (record q { buffer = q.buffer ++ take n rest }) (drop n rest) out
      → Emits results q rest out
  Emits-kept {results} {q} {rest} n (emits gs q' v all stream ids) =
      emits gs q' v all
        (stream
          ∙ append_assoc q.buffer (take n rest) (drop n rest)
          ∙ ap (λ t. q.buffer ++ t) (take-append-drop n rest))
        ids

  Emits-flushed :
      {results : List Group} {q r : CoalescingQueue} {rest : Bytes}
      {out : Option (List Group × CoalescingQueue)} (g : Group) (n : ℕ)
      → IsGroup rs g
      → payload g ≡ q.buffer ++ take n rest
      → g.d0.group_id ≡ q.next_group_id
      → r.buffer ≡ []
      → r.next_group_id ≡ next_id q.next_group_id
      → Emits (results ++ (g ∷ [])) r (drop n rest) out
      → Emits results q rest out
  unfolding payloads
  Emits-flushed {results} {q} {r} {rest} g n ok carries id empty next
        (emits gs q' v all stream ids) =
      rw (append_assoc results (g ∷ []) gs) (
        emits (g ∷ gs) q' v (ok, all)
          (append_assoc (payload g) (payloads gs) q'.buffer
            ∙ rw (stream, empty, carries)
                (append_assoc q.buffer (take n rest) (drop n rest)
                  ∙ ap (λ t. q.buffer ++ t) (take-append-drop n rest)))
          (id, rw next at ids))

  Emits-none :
      (results : List Group) (q : CoalescingQueue) (rest : Bytes)
      → IsQueue q
      → rest ≡ []
      → Emits results q rest (some (results, q))
  unfolding payloads
  Emits-none results q rest v e =
      subst (λ gs. Emits results q rest (some (gs, q))) (append-nil results)
        (emits [] q v tt (rw e (sym (append-nil q.buffer))) refl)

  module _ (fuel : ℕ) (clock : ℕ → ℕ) (force : Bool) (rest : Bytes) (results : List Group)
      (q : CoalescingQueue) where
    -- What one round takes, the queue after taking it, and the flush of that queue.
    abbrev taken : ℕ
    taken = min (length rest) (q.max_batch_size - length q.buffer)

    abbrev filled : CoalescingQueue
    filled = record q { buffer = q.buffer ++ take taken rest }

    abbrev flushed : Group × CoalescingQueue
    flushed =
        flush_internal rs (clock (length results)) (if force then flag_immediate else 0) filled

    loop_full :
        length rest ≢ 0
        → q.max_batch_size ≤ length filled.buffer
        → push_loop rs (suc fuel) clock force rest results q
          ≡ push_loop rs fuel clock force (drop taken rest) (results ++ (flushed.0 ∷ [])) flushed.1
    unfolding push_loop
    loop_full some_left full =
        let t : (length rest == 0) ≡ false = ground arith in
        let u : leb q.max_batch_size (length filled.buffer) ≡ true = ground arith in rw (t, u) refl

    loop_kept :
        length rest ≢ 0
        → length filled.buffer < q.max_batch_size
        → push_loop rs (suc fuel) clock force rest results q
          ≡ push_loop rs fuel clock force (drop taken rest) results filled
    unfolding push_loop
    loop_kept some_left room =
        let t : (length rest == 0) ≡ false = ground arith in
        let u : leb q.max_batch_size (length filled.buffer) ≡ false = ground arith in rw (t, u) refl

    length-filled : length filled.buffer ≡ length q.buffer + taken
    length-filled = omega (arith, length-append q.buffer (take taken rest), length-take taken rest)

    filled-IsBytes : IsBytes q.buffer → IsBytes rest → IsBytes filled.buffer
    filled-IsBytes b b' =
        All-append (λ x. x < 256) q.buffer _ b (All-take (λ x. x < 256) taken rest b')

    loop_done :
        length rest ≡ 0 → push_loop rs (suc fuel) clock force rest results q ≡ some (results, q)
    unfolding push_loop
    loop_done h = let t : (length rest == 0) ≡ true = ground arith in rw t refl

    -- One round of the loop, with what the rounds after it do.
    Emits-full :
        IsQueue q
        → IsBytes rest
        → length rest ≢ 0
        → q.max_batch_size ≤ length filled.buffer
        → ((v : IsQueue flushed.1)
            → Emits (results ++ (flushed.0 ∷ [])) flushed.1 (drop taken rest) (
                push_loop rs fuel clock force
                  (drop taken rest)
                  (results ++ (flushed.0 ∷ []))
                  flushed.1))
        → Emits results q rest (push_loop rs (suc fuel) clock force rest results q)
    Emits-full v b some_left full later =
        let after =
          flush_internal-rest rs (clock (length results)) (if force then flag_immediate else 0)
            filled in
        let (ok, carries, id) =
          flush_internal-IsGroup rs (clock (length results)) (if force then flag_immediate else 0)
            filled (omega (arith, length-filled, v.room, v.bounded)) (filled-IsBytes v.bytes b)
            v.id_pos in
        let v' =
          flush_internal-IsQueue rs (clock (length results)) (if force then flag_immediate else 0)
            filled (omega (arith, v.room)) v.bounded in
        rw (loop_full some_left full)
          (Emits-flushed flushed.0 taken ok carries id (rw after refl) (rw after refl) (later v'))

  pub push_loop-Emits :
      (fuel : ℕ) (clock : ℕ → ℕ) (force : Bool) (rest : Bytes) (results : List Group)
      (q : CoalescingQueue)
      → IsQueue q
      → IsBytes rest
      → length rest < fuel
      → Emits results q rest (push_loop rs fuel clock force rest results q)
  push_loop-Emits zero clock force rest results q v b h = elim h [ ]
  push_loop-Emits (suc fuel) clock force rest results q v b h =
      let n = taken fuel clock force rest results q in
      let len = length-filled fuel clock force rest results q in
      let b' : IsBytes (drop n rest) = All-drop (λ x. x < 256) n rest b in
      elim (Bool-cases (length rest == 0)) [
        | inl done ↦
            let e : length rest ≡ 0 = ground arith in
            rw (loop_done fuel clock force rest results q e)
              (Emits-none results q rest v (length-eq-zero rest e))
        | inr more ↦
            let ne : length rest ≢ 0 = λ e. ground arith in
            let less : length (drop n rest) < fuel = omega (arith, length-drop n rest, v.room) in
            elim (Bool-cases (leb q.max_batch_size (length (q.buffer ++ take n rest)))) [
              | inl full ↦
                  Emits-full fuel clock force rest results q v b ne (leb→le _ _ full)
                    (λ v'. push_loop-Emits fuel clock force (drop n rest) _ _ v' b' less)
              | inr room ↦
                  let low : length (q.buffer ++ take n rest) < q.max_batch_size = ground arith in
                  let v' : IsQueue (record q { buffer = q.buffer ++ take n rest }) = record {
                    room = low;
                    bounded = v.bounded;
                    bytes = filled-IsBytes fuel clock force rest results q v.bytes b;
                    id_pos = v.id_pos;
                  } in
                  rw (loop_kept fuel clock force rest results q ne low) (
                    Emits-kept n
                      (push_loop-Emits fuel clock force (drop n rest) results _ v' b' less))
            ]
      ]
