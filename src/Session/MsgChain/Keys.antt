-- ===== src/Session/MsgChain/Keys.antt =====
-- A receiving chain (src/ghost/session/ratchet.rs) against the sender's sequence of keys.
use vantablack.Prelude.{
  ℕ, zero, suc, ◌+◌, ◌-◌, ◌%◌, ◌^◌, ◌≤◌, ◌<◌, min, ◌≡◌, refl, ap, ◌∙◌, Option, none, some, List, [],
  ◌∷◌, ◌++◌, append_assoc, append-nil, arith, ltb, length, All, inl, inr, Bool-cases,
}
use vantablack.Prelude.Bytes.{Bytes}
use vantablack.Prelude.Assoc.{Map, lookup, remove, Ascends, remove-Ascends, length-remove-le}
use vantablack.Session.Kdf.{Primitives, kdf_ck}
use vantablack.Session.MsgChain.{
  MsgChain, OpenPlan, forward, cached, refused, max_skip, u64_max, seed, store, evict, commit,
  advance, derive, plan_past, plan,
}
use vantablack.Session.MsgChain.Skipped.{
  All-store, store-Ascends, All-evict, evict-Ascends, length-evict-le,
}

module _ (p : Primitives) (s : Bytes) where
  -- The specification: the chain key after `n` messages, and the key of message `n`.
  unfoldable pub chain_at : ℕ → Bytes
  chain_at zero = s
  chain_at (suc n) = (kdf_ck p (chain_at n)).0

  unfoldable pub key_at : ℕ → Bytes
  key_at n = (kdf_ck p (chain_at n)).1

  -- The keys of the messages `at`, `at + 1`, … passed over by a jump.
  unfoldable pub passed : ℕ → ℕ → List (ℕ × Bytes)
  passed at zero = []
  passed at (suc gap) = (at, key_at at) ∷ passed (suc at) gap

  pub length-passed : (at gap : ℕ) → length (passed at gap) ≡ gap
  unfolding passed
  length-passed at zero = refl
  length-passed at (suc gap) = ap suc (length-passed (suc at) gap)

  pub derive_lem :
      (gap at : ℕ) (cache : List (ℕ × Bytes))
      → derive p gap at (chain_at at) cache
        ≡ (key_at (at + gap), chain_at (suc (at + gap)), cache ++ passed at gap)
  unfolding derive passed key_at chain_at kdf_ck
  derive_lem zero at cache = let e : at + 0 ≡ at = omega arith in rw (e, append-nil)
  derive_lem (suc gap) at cache =
      let next : at + 1 ≡ suc at = omega arith in
      let end : at + suc gap ≡ suc at + gap = omega arith in
      rw (next, end) (derive_lem gap (suc at) _ ∙ rw append_assoc)

  -- The chain stands where its position says, and holds keys of earlier messages only.
  pub record IsChain (c : MsgChain) : Type 0 where
    pub stands : c.chain ≡ chain_at c.pos
    pub held : All (λ e. (e.0 < c.pos) × (e.1 ≡ key_at e.0)) c.skipped
    pub order : Ascends 0 c.skipped
    pub room : length c.skipped ≤ max_skip

  pub seed-IsChain : IsChain (seed s)
  unfolding seed chain_at
  seed-IsChain = record { stands = refl; held = tt; order = tt; room = omega arith }

  pub plan_near :
      (c : MsgChain) (n : ℕ)
      → IsChain c
      → c.pos ≤ n
      → n ≤ c.pos + max_skip
      → plan p c n
        ≡ forward (key_at n) (chain_at (suc n)) (min (n + 1) u64_max) (passed c.pos (n - c.pos))
  unfolding plan
  plan_near c n v low high =
      let e : c.pos + (n - c.pos) ≡ n = omega arith in
      let d : derive p (n - c.pos) c.pos c.chain []
          ≡ (key_at n, chain_at (suc n), passed c.pos (n - c.pos)) =
        rw v.stands (derive_lem (n - c.pos) c.pos [] ∙ rw e) in
      ground (arith, d)

  pub plan_far : (c : MsgChain) (n : ℕ) → c.pos + max_skip < n → plan p c n ≡ refused
  unfolding plan
  plan_far c n far = ground arith

  pub plan_old :
      (c : MsgChain) (n : ℕ) → n < c.pos → plan p c n ≡ plan_past p (lookup n c.skipped) n
  unfolding plan
  plan_old c n old = ground arith

  lookup-held :
      (n b : ℕ) (m : Map Bytes) (k : Bytes)
      → All (λ e. (e.0 < b) × (e.1 ≡ key_at e.0)) m
      → lookup n m ≡ some k
      → (n < b) × (k ≡ key_at n)
  unfolding lookup
  lookup-held n b [] k a e = cc
  lookup-held n b ((j, w) ∷ m) k a e = ground (arith, lookup-held n b m k a.1)

  -- Where a counter lies decides what `plan` answers.
  pub data Planned (c : MsgChain) (n : ℕ) : OpenPlan → Type 0 where
    ahead :
        c.pos ≤ n
        → n ≤ c.pos + max_skip
        → Planned c n
            (forward (key_at n) (chain_at (suc n)) (min (n + 1) u64_max) (passed c.pos (n - c.pos)))
    kept : n < c.pos → lookup n c.skipped ≡ some (key_at n) → Planned c n (cached n (key_at n))
    gone : n < c.pos → lookup n c.skipped ≡ none → Planned c n refused
    too_far : c.pos + max_skip < n → Planned c n refused

  plan_past-Planned :
      (c : MsgChain) (n : ℕ) (o : Option Bytes)
      → IsChain c
      → n < c.pos
      → lookup n c.skipped ≡ o
      → Planned c n (plan_past p o n)
  unfolding plan_past
  plan_past-Planned c n none v old e = gone old e
  plan_past-Planned c n (some k) v old e =
      let known = lookup-held n c.pos c.skipped k v.held e in
      rw (known.1) (kept old (e ∙ rw known.1))

  -- For a chain in step with the sender, the answer to every counter: the sender's own key, the
  -- chain after it and the keys passed over for a counter up to 1024 ahead; the sender's key for
  -- one that was passed over and is still held; a refusal for one that is further ahead, or
  -- behind and no longer held.
  pub plan-Planned : (c : MsgChain) (n : ℕ) → IsChain c → Planned c n (plan p c n)
  plan-Planned c n v = elim (Bool-cases (ltb n c.pos)) [
    | inl old ↦ rw (plan_old c n (ground arith)) (plan_past-Planned c n _ v (ground arith) refl)
    | inr new ↦ elim (Bool-cases (ltb (c.pos + max_skip) n)) [
      | inl far ↦ rw (plan_far c n (ground arith)) (too_far (ground arith))
      | inr near ↦
          rw (plan_near c n v (ground arith) (ground arith)) (ahead (ground arith) (ground arith))
    ]
  ]

  passed-held :
      (at gap b : ℕ) → at + gap ≤ b → All (λ e. (e.0 < b) × (e.1 ≡ key_at e.0)) (passed at gap)
  unfolding passed
  passed-held at zero b h = tt
  passed-held at (suc gap) b h = ((omega arith, refl), passed-held (suc at) gap b (omega arith))

  held_mono :
      (a b : ℕ) (m : Map Bytes)
      → a ≤ b
      → All (λ e. (e.0 < a) × (e.1 ≡ key_at e.0)) m
      → All (λ e. (e.0 < b) × (e.1 ≡ key_at e.0)) m
  held_mono a b [] h x = tt
  held_mono a b ((j, w) ∷ m) h x = ((omega arith, x.0.1), held_mono a b m h x.1)

  All-remove {ℓ} : (P : ℕ × Bytes → Type ℓ) (k : ℕ) (m : Map Bytes) → All P m → All P (remove k m)
  unfolding remove
  All-remove P k [] a = tt
  All-remove P k (e ∷ m) a = let rest = All-remove P k m a.1 in ground (arith, rest)

  -- Sealing with a chain that is in step and not at the last 64-bit position yields the key of
  -- the message at its position, moves it on by one and keeps it in step.
  pub advance-IsChain :
      (c : MsgChain)
      → IsChain c
      → c.pos < u64_max
      → IsChain (advance p c).1
        × ((advance p c).0 ≡ key_at c.pos)
        × ((advance p c).1.pos ≡ suc c.pos)
  unfolding advance chain_at key_at
  advance-IsChain c v h =
      let next : (c.pos + 1) % 2 ^ 64 ≡ suc c.pos = omega arith in
      (
        record {
          stands = rw (next, v.stands);
          held = rw next (held_mono c.pos (suc c.pos) c.skipped (omega arith) v.held);
          order = v.order;
          room = v.room;
        },
        rw v.stands,
        next,
      )

  pub commit_ahead :
      (c : MsgChain) (n : ℕ)
      → n < u64_max
      → c.pos ≤ n
      → commit
          (forward (key_at n) (chain_at (suc n)) (min (n + 1) u64_max) (passed c.pos (n - c.pos)))
          c
        ≡ record {
          chain = chain_at (suc n);
          pos = suc n;
          skipped = evict (store (passed c.pos (n - c.pos)) c.skipped);
        }
  unfolding commit
  commit_ahead c n small low =
      let next : min (n + 1) u64_max ≡ suc n = omega arith in rw next (ground arith)

  -- Committing a plan keeps the chain in step.
  pub commit-IsChain :
      {c : MsgChain} {n : ℕ} {o : OpenPlan}
      → n < u64_max
      → Planned c n o
      → IsChain c
      → IsChain (commit o c)
  unfolding commit
  commit-IsChain {c} {n} small (ahead low high) v = rw (commit_ahead c n small low) (record {
    stands = refl;
    held = All-evict _ (store (passed c.pos (n - c.pos)) c.skipped) (
        All-store _ (passed c.pos (n - c.pos)) c.skipped
          (passed-held c.pos (n - c.pos) (suc n) (omega arith))
          (held_mono c.pos (suc n) c.skipped (omega arith) v.held));
    order =
        evict-Ascends (store (passed c.pos (n - c.pos)) c.skipped)
          (store-Ascends (passed c.pos (n - c.pos)) c.skipped v.order);
    room = length-evict-le (store (passed c.pos (n - c.pos)) c.skipped);
  })
  commit-IsChain {c} {n} small (kept old e) v = record {
    stands = v.stands;
    held = All-remove _ n c.skipped v.held;
    order = remove-Ascends 0 n c.skipped v.order;
    room = omega (arith, length-remove-le n c.skipped, v.room);
  }
  commit-IsChain small (gone old e) v = v
  commit-IsChain small (too_far far) v = v
