-- ===== src/Prelude/Assoc.antt =====
-- Ordered maps from numbers, as lists of entries in ascending order of the keys (`BTreeMap`).
use vantablack.Prelude.Tests.{ltb, ◌==◌, if◌then◌else◌}
use vantablack.Prelude.Lists.{length}
use Prim.Native.Nat.{ℕ, suc, ◌≤◌, ◌<◌}
use mathlib.Core.Path.{◌≡◌, refl}
use mathlib.Core.List.{List, [], ◌∷◌}
use mathlib.Core.Option.{Option, none, some}
use native.Mathlib.Omega.{arith}

abbrev pub Map {ℓ} : Type ℓ → Type ℓ
Map V = List (ℕ × V)

module _ {ℓ} {V : Type ℓ} where
  unfoldable pub lookup : ℕ → Map V → Option V
  lookup k [] = none
  lookup k ((j, w) ∷ m) = if j == k then some w else lookup k m

  -- `insert`: an entry under the key is replaced.
  unfoldable pub insert : ℕ → V → Map V → Map V
  insert k v [] = (k, v) ∷ []
  insert k v ((j, w) ∷ m) =
      if j == k then (k, v) ∷ m else if ltb k j then (k, v) ∷ (j, w) ∷ m else (j, w) ∷ insert k v m

  -- `entry(k).or_insert(v)`: an entry under the key stays.
  unfoldable pub or_insert : ℕ → V → Map V → Map V
  or_insert k v [] = (k, v) ∷ []
  or_insert k v ((j, w) ∷ m) =
      if j == k
      then (j, w) ∷ m
      else if ltb k j
      then (k, v) ∷ (j, w) ∷ m
      else (j, w) ∷ or_insert k v m

  -- `remove`
  unfoldable pub remove : ℕ → Map V → Map V
  remove k [] = []
  remove k ((j, w) ∷ m) = if j == k then m else (j, w) ∷ remove k m

  -- The keys ascend, from `b` on.
  abbrev pub Ascends : ℕ → Map V → Type 0
  Ascends b [] = Unit {0}
  Ascends b ((j, w) ∷ m) = (b ≤ j) × Ascends (suc j) m

  pub Ascends-mono : {b c : ℕ} (m : Map V) → c ≤ b → Ascends b m → Ascends c m
  Ascends-mono [] h a = tt
  Ascends-mono ((j, w) ∷ m) h a = (omega arith, a.1)

  pub lookup_below : (b k : ℕ) (m : Map V) → Ascends b m → k < b → lookup k m ≡ none
  unfolding lookup
  lookup_below b k [] a h = refl
  lookup_below b k ((j, w) ∷ m) a h = ground (arith, lookup_below (suc j) k m)

  pub insert-Ascends :
      (b k : ℕ) (v : V) (m : Map V) → b ≤ k → Ascends b m → Ascends b (insert k v m)
  unfolding insert
  insert-Ascends b k v [] h a = (h, tt)
  insert-Ascends b k v ((j, w) ∷ m) h a =
      ground (arith, insert-Ascends (suc j) k v m, Ascends-mono {b = suc j} {c = suc k} m)

  pub or_insert-Ascends :
      (b k : ℕ) (v : V) (m : Map V) → b ≤ k → Ascends b m → Ascends b (or_insert k v m)
  unfolding or_insert
  or_insert-Ascends b k v [] h a = (h, tt)
  or_insert-Ascends b k v ((j, w) ∷ m) h a =
      ground (arith, or_insert-Ascends (suc j) k v m, Ascends-mono {b = suc j} {c = suc k} m)

  pub remove-Ascends : (b k : ℕ) (m : Map V) → Ascends b m → Ascends b (remove k m)
  unfolding remove
  remove-Ascends b k [] a = tt
  remove-Ascends b k ((j, w) ∷ m) a =
      ground (arith, remove-Ascends (suc j) k m, Ascends-mono {b = suc j} {c = b} m)

  pub lookup-insert :
      (b k j : ℕ) (v : V) (m : Map V)
      → Ascends b m
      → lookup j (insert k v m) ≡ (if k == j then some v else lookup j m)
  unfolding lookup insert
  lookup-insert b k j v [] a = refl
  lookup-insert b k j v ((i, w) ∷ m) a =
      ground (arith, lookup-insert (suc i) k j v m, lookup_below (suc i) j m)

  pub lookup-or_insert :
      (b k j : ℕ) (v : V) (m : Map V)
      → Ascends b m
      → lookup k m ≡ none
      → lookup j (or_insert k v m) ≡ (if k == j then some v else lookup j m)
  unfolding lookup or_insert
  lookup-or_insert b k j v [] a h = refl
  lookup-or_insert b k j v ((i, w) ∷ m) a h = ground (arith, lookup-or_insert (suc i) k j v m)

  pub lookup-remove :
      (b k j : ℕ) (m : Map V)
      → Ascends b m
      → lookup j (remove k m) ≡ (if k == j then none else lookup j m)
  unfolding lookup remove
  lookup-remove b k j [] a = ground arith
  lookup-remove b k j ((i, w) ∷ m) a =
      ground (arith, lookup-remove (suc i) k j m, lookup_below (suc i) j m)

  pub length-remove-le : (k : ℕ) (m : Map V) → length (remove k m) ≤ length m
  unfolding remove
  length-remove-le k [] = omega arith
  length-remove-le k ((j, w) ∷ m) = ground (arith, length-remove-le k m)
