-- ===== src/Transport/Coalesce/Stream.antt =====
-- What `push` does with a stream of bytes (src/ghost/net/coalesce.rs).
use vantablack.Prelude.{
  ℕ, zero, suc, ◌-◌, ◌<◌, min, ◌≡◌, ◌≢◌, refl, sym, ap, subst, ◌∙◌, Bool, true, false, Option, none,
  some, List, [], ◌∷◌, ◌++◌, append_assoc, append-nil, arith, leb, ◌==◌, if◌then◌else◌, inl, inr,
  Bool-cases, length, take, All, All-append,
}
use vantablack.Prelude.Bytes.{Bytes}
use vantablack.Transport.Erasure.{ReedSolomon, IsBytes}
use vantablack.Transport.Coalesce.{
  Group, CoalescingQueue, flag_immediate, new, next_id, push_loop, push_end, push,
}
use vantablack.Transport.Coalesce.Groups.{
  payload, IsGroup, IsQueue, Numbered, payloads, flush_internal-IsGroup, flush_internal-rest,
  flush_internal-IsQueue,
}
use vantablack.Transport.Coalesce.Push.{Emits, emits, push_loop-Emits}

payloads-append : (gs hs : List Group) → payloads (gs ++ hs) ≡ payloads gs ++ payloads hs
unfolding payloads
payloads-append [] hs = refl
payloads-append (g ∷ gs) hs =
    ap (λ t. payload g ++ t) (payloads-append gs hs)
    ∙ sym (append_assoc (payload g) (payloads gs) (payloads hs))

Numbered-append :
    (gs : List Group) (n m : ℕ) (g : Group)
    → Numbered n gs m
    → g.d0.group_id ≡ m
    → Numbered n (gs ++ (g ∷ [])) (next_id m)
Numbered-append [] n m g e id = (id ∙ sym e, ap next_id e)
Numbered-append (h ∷ gs) n m g (first, rest) id = (first, Numbered-append gs _ m g rest id)

module _ (rs : ReedSolomon) where
  -- What `push` returns: groups, numbered one after the other, whose payloads followed by what is
  -- still buffered are the bytes buffered before followed by the new ones; a forced push leaves
  -- nothing buffered.
  pub data Sends (q : CoalescingQueue) (force : Bool) (input : Bytes)
      : Option (List Group × CoalescingQueue) → Type 0 where
    sends :
        (gs : List Group) (q' : CoalescingQueue)
        → IsQueue q'
        → All (IsGroup rs) gs
        → payloads gs ++ q'.buffer ≡ q.buffer ++ input
        → Numbered q.next_group_id gs q'.next_group_id
        → (if force then length q'.buffer else 0) ≡ 0
        → Sends q force input (some (gs, q'))

  -- One more group, with all that was buffered.
  Sends-add :
      (q q' r : CoalescingQueue) {input : Bytes} (gs : List Group) (g : Group)
      → All (IsGroup rs) gs
      → payloads gs ++ q'.buffer ≡ q.buffer ++ input
      → Numbered q.next_group_id gs q'.next_group_id
      → IsGroup rs g
      → payload g ≡ q'.buffer
      → g.d0.group_id ≡ q'.next_group_id
      → IsQueue r
      → r ≡ record q' {
        buffer = [];
        last_flush = r.last_flush;
        next_group_id = next_id q'.next_group_id;
      }
      → Sends q true input (some (gs ++ (g ∷ []), r))
  unfolding payloads
  Sends-add q q' r gs g all stream ids ok carries id v after =
      let empty : r.buffer ≡ [] = ap (λ x. x.buffer) after in
      let next : r.next_group_id ≡ next_id q'.next_group_id = ap (λ x. x.next_group_id) after in
      sends (gs ++ (g ∷ [])) r v (All-append (IsGroup rs) gs (g ∷ []) all (ok, tt))
        (ap (λ t. payloads (gs ++ (g ∷ [])) ++ t) empty
          ∙ append-nil (payloads (gs ++ (g ∷ [])))
          ∙ payloads-append gs (g ∷ [])
          ∙ ap (λ t. payloads gs ++ t) (append-nil (payload g) ∙ carries)
          ∙ stream)
        (subst (Numbered q.next_group_id (gs ++ (g ∷ []))) (sym next)
          (Numbered-append gs q.next_group_id q'.next_group_id g ids id))
        (ap length empty)

  push_end-Sends :
      (clock : ℕ → ℕ) (force : Bool) {q q' : CoalescingQueue} {input : Bytes} (gs : List Group)
      → IsQueue q'
      → All (IsGroup rs) gs
      → payloads gs ++ q'.buffer ≡ q.buffer ++ input
      → Numbered q.next_group_id gs q'.next_group_id
      → Sends q force input (some (push_end rs clock force (gs, q')))
  unfolding push_end
  push_end-Sends clock false gs v all stream ids = sends gs _ v all stream ids refl
  push_end-Sends clock true {q} {q'} {input} gs v all stream ids =
      elim (Bool-cases (length q'.buffer == 0)) [
        | inl empty ↦ rw empty (sends gs q' v all stream ids (ground arith))
        | inr more ↦
            let now = clock (length gs) in
            let (ok, carries, id) =
              flush_internal-IsGroup rs now flag_immediate q' (omega (arith, v.room, v.bounded))
                v.bytes v.id_pos in
            rw more (
              Sends-add q q' _ gs _ all stream ids ok carries id
                (flush_internal-IsQueue rs now flag_immediate q' (omega (arith, v.room)) v.bounded)
                (flush_internal-rest rs now flag_immediate q'))
      ]

  Emits-Sends :
      (clock : ℕ → ℕ) (force : Bool) {q : CoalescingQueue} {input : Bytes}
      {out : Option (List Group × CoalescingQueue)}
      → Emits rs [] q input out
      → Sends q force input (elim out [ none ↦ none | some o ↦ some (push_end rs clock force o) ])
  Emits-Sends clock force (emits gs q' v all stream ids) =
      push_end-Sends clock force gs v all stream ids

  -- A push of bytes into a queue that has room, is limited to 984 bytes and numbers its groups
  -- from above 0 ends within one round more than there are bytes. It returns well-formed groups
  -- with consecutive numbers whose payloads, followed by what is still buffered, are what was
  -- buffered followed by the input, and a forced push leaves nothing buffered.
  pub push-Sends :
      (fuel : ℕ) (clock : ℕ → ℕ) (force : Bool) (input : Bytes) (q : CoalescingQueue)
      → IsQueue q
      → IsBytes input
      → length input < fuel
      → Sends q force input (push rs fuel clock force input q)
  unfolding push
  push-Sends fuel clock force input q v b h =
      Emits-Sends clock force (push_loop-Emits rs fuel clock force input [] q v b h)

  stuck_loop :
      (fuel : ℕ) (clock : ℕ → ℕ) (force : Bool) (input : Bytes) (results : List Group)
      (q : CoalescingQueue)
      → q.max_batch_size ≡ 0
      → length input ≢ 0
      → push_loop rs fuel clock force input results q ≡ none
  unfolding push_loop
  stuck_loop zero clock force input results q e ne = refl
  stuck_loop (suc fuel) clock force input results q e ne =
      let t : (length input == 0) ≡ false = ground arith in
      let none_taken : min (length input) (q.max_batch_size - length q.buffer) ≡ 0 = omega arith in
      let u : leb q.max_batch_size (
            length
              (q.buffer ++ take (min (length input) (q.max_batch_size - length q.buffer)) input))
          ≡ true =
        ground arith in
      rw (t, u, none_taken) (stuck_loop fuel clock force input _ _ e ne)

  -- A queue made with a batch size of 0 never returns from a push of one byte or more: no number
  -- of rounds is enough.
  pub push-none :
      (fuel : ℕ) (clock : ℕ → ℕ) (force : Bool) (input : Bytes) (timeout now : ℕ)
      → length input ≢ 0
      → push rs fuel clock force input (new 0 timeout now) ≡ none
  unfolding push
  push-none fuel clock force input timeout now ne =
      rw
        (
          push,
          stuck_loop fuel clock force input [] (new 0 timeout now) (unfold new in omega arith) ne,
        )
        refl
