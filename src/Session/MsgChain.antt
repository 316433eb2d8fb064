-- ===== src/Session/MsgChain.antt =====
-- `MsgChain` and `OpenPlan` of src/ghost/session/ratchet.rs: one direction's per-message keys.
-- The map of skipped keys is an ordered list of entries. Zeroizing has no effect on any value that
-- is still reachable and is not modelled.
pub mod Skipped
pub mod Keys
pub mod Once
pub mod Late
use vantablack.Prelude.{
  ℕ, zero, suc, ◌+◌, ◌-◌, ◌%◌, ◌^◌, min, Option, none, some, List, [], ◌∷◌, ◌++◌, ltb,
  if◌then◌else◌, length,
}
use vantablack.Prelude.Bytes.{Bytes}
use vantablack.Prelude.Assoc.{Map, lookup, or_insert, remove}
use vantablack.Session.Kdf.{Primitives, kdf_ck}

-- `MAX_SKIP`
abbrev pub max_skip : ℕ
max_skip = 1024

abbrev pub u64_max : ℕ
u64_max = 2 ^ 64 - 1

pub data OpenPlan : Type 0 where
  forward : (key new_chain : Bytes) (new_pos : ℕ) (cache : List (ℕ × Bytes)) → OpenPlan
  cached : (counter : ℕ) (key : Bytes) → OpenPlan
  refused : OpenPlan

pub record MsgChain : Type 0 where
  pub chain : Bytes
  pub pos : ℕ
  pub skipped : Map Bytes

-- `MsgChain::seed`
unfoldable pub seed : Bytes → MsgChain
seed s = record { chain = s; pos = 0; skipped = [] }

-- The loop that caches what is passed over, oldest first: `skipped.entry(counter).or_insert(key)`.
unfoldable pub store : List (ℕ × Bytes) → Map Bytes → Map Bytes
store [] m = m
store ((k, v) ∷ cache) m = store cache (or_insert k v m)

-- `while self.skipped.len() > MAX_SKIP` drops the first entry, which is the oldest.
unfoldable pub evict : Map Bytes → Map Bytes
evict [] = []
evict (e ∷ m) = if ltb max_skip (length (e ∷ m)) then evict m else e ∷ m

-- `MsgChain::commit`
unfoldable pub commit : OpenPlan → MsgChain → MsgChain
unfolding store evict
commit (forward key new_chain new_pos cache) c =
    if ltb c.pos new_pos
    then record { chain = new_chain; pos = new_pos; skipped = evict (store cache c.skipped) }
    else record c { skipped = evict c.skipped }
commit (cached counter key) c = record c { skipped = remove counter c.skipped }
commit refused c = c

module _ (p : Primitives) where
  -- `MsgChain::advance`: the message key and the chain past it.
  unfoldable pub advance : MsgChain → Bytes × MsgChain
  unfolding kdf_ck
  advance c =
      let (next, key) = kdf_ck p c.chain in
      (key, record c { chain = next; pos = (c.pos + 1) % 2 ^ 64 })

  -- The loop `for i in 0..=gap` of `plan`, from the counter `at` on.
  unfoldable pub derive : ℕ → ℕ → Bytes → List (ℕ × Bytes) → Bytes × Bytes × List (ℕ × Bytes)
  unfolding kdf_ck
  derive zero at chain cache = let (next, step) = kdf_ck p chain in (step, next, cache)
  derive (suc gap) at chain cache =
      let (next, step) = kdf_ck p chain in derive gap (at + 1) next (cache ++ ((at, step) ∷ []))

  -- the answer of `plan` for a counter already passed
  unfoldable pub plan_past : Option Bytes → ℕ → OpenPlan
  plan_past none counter = refused
  plan_past (some key) counter = cached counter key

  -- `MsgChain::plan`
  unfoldable pub plan : MsgChain → ℕ → OpenPlan
  unfolding derive plan_past
  plan c counter =
      if ltb counter c.pos
      then plan_past (lookup counter c.skipped) counter
      else if ltb max_skip (counter - c.pos)
      then refused
      else let (key, next, cache) = derive (counter - c.pos) c.pos c.chain [] in
        forward key next (min (counter + 1) u64_max) cache
