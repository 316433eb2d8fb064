-- ===== src/Session/MsgChain/Late.antt =====
-- Frames that arrive out of order (src/ghost/session/ratchet.rs): the keys a jump passes over stay
-- available, within the cache.
use vantablack.Prelude.{
  ℕ, zero, suc, ◌+◌, ◌-◌, ◌≤◌, ◌<◌, ◌≡◌, ◌≢◌, refl, ap, ◌∙◌, none, some, [], ◌∷◌, arith, ◌==◌,
  length, All, inl, inr, Bool-cases,
}
use vantablack.Prelude.Bytes.{Bytes}
use vantablack.Prelude.Assoc.{Map, lookup, or_insert, Ascends, or_insert-Ascends, lookup-or_insert}
use vantablack.Session.Kdf.{Primitives, kdf_ck}
use vantablack.Session.MsgChain.{
  MsgChain, forward, max_skip, u64_max, store, evict, commit, plan, plan_past, derive,
}
use vantablack.Session.MsgChain.Skipped.{
  lookup-store_ne, lookup_above, evict_room, length-store-le, All-or_insert,
}
use vantablack.Session.MsgChain.Keys.{
  key_at, passed, length-passed, IsChain, plan_near, plan_old, commit_ahead,
}
use vantablack.Session.MsgChain.Once.{plan_key, receive, passed_above, held_below}

module _ (p : Primitives) (s : Bytes) where
  weaken_below : (b : ℕ) (m : Map Bytes) → All (λ e. e.0 < b) m → All (λ e. e.0 < suc b) m
  weaken_below b [] a = tt
  weaken_below b (e ∷ m) a = (omega arith, weaken_below b m a.1)

  lookup-store-passed :
      (at gap k : ℕ) (m : Map Bytes)
      → at ≤ k
      → k < at + gap
      → Ascends 0 m
      → All (λ e. e.0 < at) m
      → lookup k (store (passed p s at gap) m) ≡ some (key_at p s k)
  unfolding passed store
  lookup-store-passed at zero k m low high asc below = absurd (omega arith)
  lookup-store-passed at (suc gap) k m low high asc below = elim (Bool-cases (at == k)) [
    | inl first ↦
        let here : at ≡ k = ground arith in
        lookup-store_ne k (passed p s (suc at) gap) (or_insert at (key_at p s at) m)
          (passed_above p s k (suc at) gap (omega arith))
        ∙ lookup-or_insert 0 at k (key_at p s at) m asc (lookup_above at m below)
        ∙ ground arith
    | inr later ↦
        lookup-store-passed (suc at) gap k (or_insert at (key_at p s at) m) (ground arith)
          (omega arith) (or_insert-Ascends 0 at _ m (omega arith) asc)
          (All-or_insert (λ e. e.0 < suc at) at (key_at p s at) m (omega arith)
            (weaken_below at m below))
  ]

  -- On a chain in step with the sender, a frame with counter `n` below the last 64-bit one, for
  -- which the cache has room for all it passes over, leaves each counter `k` between the chain's
  -- position and `n` openable, with the key of the sender's message `k`.
  pub receive_late :
      (c : MsgChain) (n k : ℕ)
      → IsChain p s c
      → n < u64_max
      → c.pos ≤ k
      → k < n
      → length c.skipped + (n - c.pos) ≤ max_skip
      → (receive p (receive p c n).1 k).0 ≡ some (key_at p s k)
  unfolding receive
  receive_late c n k v small low before room =
      let cache = passed p s c.pos (n - c.pos) in
      let keeps : evict (store cache c.skipped) ≡ store cache c.skipped =
        evict_room _
          (omega (arith, length-store-le cache c.skipped, length-passed p s c.pos (n - c.pos))) in
      let found : lookup k (store cache c.skipped) ≡ some (key_at p s k) =
        lookup-store-passed c.pos (n - c.pos) k c.skipped low (omega arith) v.order
          (held_below p s c.pos c.pos c.skipped (omega arith) v.held) in
      rw
        (
          plan_near p s c n v (omega arith) (omega arith),
          commit_ahead p s c n small (omega arith),
          keeps,
        )
        (ap plan_key (plan_old p s _ k (omega arith)) ∙ rw found (unfold plan_past in refl))

plan_last :
    (p : Primitives) (c : MsgChain)
    → c.pos ≡ u64_max
    → plan p c u64_max ≡ forward (kdf_ck p c.chain).1 (kdf_ck p c.chain).0 u64_max []
unfolding plan derive
plan_last p c e =
    let none_left : u64_max - c.pos ≡ 0 = omega arith in
    let d : derive p (u64_max - c.pos) c.pos c.chain []
        ≡ ((kdf_ck p c.chain).1, (kdf_ck p c.chain).0, []) =
      rw none_left in
    ground (arith, d)

commit_last :
    (c : MsgChain) (key chain : Bytes)
    → c.pos ≡ u64_max
    → commit (forward key chain u64_max []) c ≡ record c { skipped = evict c.skipped }
unfolding commit
commit_last c key chain e = ground arith

-- A chain at the last 64-bit position opens that counter, and opens it again with the same key
-- after the first frame has been committed.
pub receive_last :
    (p : Primitives) (c : MsgChain)
    → c.pos ≡ u64_max
    → ((receive p c u64_max).0 ≢ none)
      × ((receive p (receive p c u64_max).1 u64_max).0 ≡ (receive p c u64_max).0)
unfolding receive
receive_last p c e =
    rw (plan_last p c e, commit_last c (kdf_ck p c.chain).1 (kdf_ck p c.chain).0 e)
      ((λ h. cc), ap plan_key (plan_last p _ e))
