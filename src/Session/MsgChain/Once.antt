-- ===== src/Session/MsgChain/Once.antt =====
-- Histories of a receiving chain (src/ghost/session/ratchet.rs): which key opens which counter, and
-- how often.
use vantablack.Prelude.{
  ℕ, zero, suc, ◌+◌, ◌-◌, ◌≤◌, ◌<◌, ◌≡◌, ◌≢◌, refl, ap, ◌∙◌, Option, none, some, List, [], ◌∷◌,
  arith, All,
}
use vantablack.Prelude.Bytes.{Bytes}
use vantablack.Prelude.Assoc.{Map, lookup, lookup-remove}
use vantablack.Session.Kdf.{Primitives}
use vantablack.Session.MsgChain.{
  MsgChain, OpenPlan, forward, cached, refused, u64_max, seed, store, commit, plan, plan_past,
}
use vantablack.Session.MsgChain.Skipped.{
  lookup-store_ne, lookup-evict-none, lookup_above, All-store,
}
use vantablack.Session.MsgChain.Keys.{
  key_at, passed, IsChain, Planned, ahead, kept, gone, too_far, plan-Planned, plan_old,
  commit_ahead, commit-IsChain, seed-IsChain,
}

-- The key that a plan opens with (`SessionRatchet::open_key`).
abbrev pub plan_key : OpenPlan → Option Bytes
plan_key (forward key new_chain new_pos cache) = some key
plan_key (cached counter key) = some key
plan_key refused = none

-- A counter that was passed and whose key is gone.
abbrev pub Spent : MsgChain → ℕ → Type 0
Spent c n = (n < c.pos) × (lookup n c.skipped ≡ none)

module _ (p : Primitives) where
  -- One authenticated frame: plan, open, commit.
  unfoldable pub receive : MsgChain → ℕ → Option Bytes × MsgChain
  receive c n = let o = plan p c n in (plan_key o, commit o c)

  -- The keys that a list of counters opens with, and the chain after them.
  unfoldable pub receive_all : MsgChain → List ℕ → MsgChain
  unfolding receive
  receive_all c [] = c
  receive_all c (n ∷ ns) = receive_all (receive c n).1 ns

  Spent-refused : (c : MsgChain) (n : ℕ) → Spent c n → plan p c n ≡ refused
  unfolding plan_past
  Spent-refused c n (old, e) = plan_old p [] c n old ∙ rw e

  module _ (s : Bytes) where
    pub passed_above : (n at gap : ℕ) → n < at → All (λ e. e.0 ≢ n) (passed p s at gap)
    unfolding passed
    passed_above n at zero h = tt
    passed_above n at (suc gap) h = ((λ e. omega arith), passed_above n (suc at) gap (omega arith))

    passed_below : (n at gap : ℕ) → at + gap ≤ n → All (λ e. e.0 < n) (passed p s at gap)
    unfolding passed
    passed_below n at zero h = tt
    passed_below n at (suc gap) h = (omega arith, passed_below n (suc at) gap (omega arith))

    pub held_below :
        (b n : ℕ) (m : Map Bytes)
        → b ≤ n
        → All (λ e. (e.0 < b) × (e.1 ≡ key_at p s e.0)) m
        → All (λ e. e.0 < n) m
    held_below b n [] h a = tt
    held_below b n ((j, w) ∷ m) h a = (omega arith, held_below b n m h a.1)

    -- What was opened is spent.
    opened-Spent :
        {c : MsgChain} {n : ℕ} {o : OpenPlan}
        → n < u64_max
        → Planned p s c n o
        → IsChain p s c
        → plan_key o ≢ none
        → Spent (commit o c) n
    unfolding commit
    opened-Spent {c} {n} small (ahead low high) v ne = rw (commit_ahead p s c n small low) (
      omega arith,
      lookup-evict-none n (store (passed p s c.pos (n - c.pos)) c.skipped) (
          lookup_above n _ (
            All-store _ (passed p s c.pos (n - c.pos)) c.skipped
              (passed_below n c.pos (n - c.pos) (omega arith))
              (held_below c.pos n c.skipped low v.held))),
    )
    opened-Spent {c} {n} small (kept old e) v ne =
        (old, lookup-remove 0 n n c.skipped v.order ∙ ground arith)
    opened-Spent small (gone old e) v ne = absurd (ne refl)
    opened-Spent small (too_far far) v ne = absurd (ne refl)

    -- What is spent stays spent.
    commit-Spent :
        {c : MsgChain} {n : ℕ} {o : OpenPlan} (k : ℕ)
        → n < u64_max
        → Planned p s c n o
        → IsChain p s c
        → Spent c k
        → Spent (commit o c) k
    unfolding commit
    commit-Spent {c} {n} k small (ahead low high) v (old, e) = rw (commit_ahead p s c n small low) (
      omega arith,
      lookup-evict-none k (store (passed p s c.pos (n - c.pos)) c.skipped) (
          lookup-store_ne k (passed p s c.pos (n - c.pos)) c.skipped
            (passed_above k c.pos (n - c.pos) old)
          ∙ e),
    )
    commit-Spent {c} {n} k small (kept _ _) v (old, e) =
        (old, lookup-remove 0 n k c.skipped v.order ∙ ground arith)
    commit-Spent k small (gone _ _) v spent = spent
    commit-Spent k small (too_far _) v spent = spent

    pub receive-IsChain :
        (c : MsgChain) (n : ℕ) → n < u64_max → IsChain p s c → IsChain p s (receive c n).1
    unfolding receive
    receive-IsChain c n small v = commit-IsChain p s small (plan-Planned p s c n v) v

    receive_all-IsChain :
        (ns : List ℕ) (c : MsgChain)
        → All (λ n. n < u64_max) ns
        → IsChain p s c
        → IsChain p s (receive_all c ns)
    unfolding receive_all
    receive_all-IsChain [] c small v = v
    receive_all-IsChain (n ∷ ns) c small v =
        receive_all-IsChain ns _ small.1 (receive-IsChain c n small.0 v)

    receive_all-Spent :
        (ns : List ℕ) (c : MsgChain) (k : ℕ)
        → All (λ n. n < u64_max) ns
        → IsChain p s c
        → Spent c k
        → Spent (receive_all c ns) k
    unfolding receive_all receive
    receive_all-Spent [] c k small v spent = spent
    receive_all-Spent (n ∷ ns) c k small v spent =
        let planned = plan-Planned p s c n v in
        receive_all-Spent ns _ k small.1 (commit-IsChain p s small.0 planned v)
          (commit-Spent k small.0 planned v spent)

    plan-key :
        {c : MsgChain} {n : ℕ} {o : OpenPlan} {k : Bytes}
        → Planned p s c n o
        → plan_key o ≡ some k
        → k ≡ key_at p s n
    plan-key (ahead low high) e = ground arith
    plan-key (kept old _) e = ground arith
    plan-key (gone old _) e = cc
    plan-key (too_far far) e = cc

    -- After any authenticated frames with counters below the last 64-bit one, in any order, a key
    -- with which the receiving chain opens counter `n` is the key of the sender's message `n`.
    pub receive_key :
        (ns : List ℕ) (n : ℕ) {k : Bytes}
        → All (λ m. m < u64_max) ns
        → (receive (receive_all (seed s) ns) n).0 ≡ some k
        → k ≡ key_at p s n
    unfolding receive
    receive_key ns n small e =
        plan-key (plan-Planned p s _ n (receive_all-IsChain ns _ small (seed-IsChain p s))) e

    -- In a history of authenticated frames with counters below the last 64-bit one, a counter
    -- that a receiving chain has opened once never opens again, whatever frames come between.
    pub receive_once :
        (before after : List ℕ) (n : ℕ)
        → All (λ m. m < u64_max) before
        → All (λ m. m < u64_max) after
        → n < u64_max
        → (receive (receive_all (seed s) before) n).0 ≢ none
        → (receive (receive_all (receive (receive_all (seed s) before) n).1 after) n).0 ≡ none
    unfolding receive
    receive_once before after n small_before small_after small opened =
        let v = receive_all-IsChain before (seed s) small_before (seed-IsChain p s) in
        let planned = plan-Planned p s (receive_all (seed s) before) n v in
        ap plan_key (
          Spent-refused _ n (
            receive_all-Spent after _ n small_after (commit-IsChain p s small planned v)
              (opened-Spent small planned v opened)))
