-- ===== src/Prelude/Keyed.antt =====
-- Maps keyed by any type with a Boolean equality (`HashMap`), as lists of entries in the order of
-- insertion. Proofs elsewhere go by the laws.
use Prim.Native.Nat.{ℕ}
use mathlib.Core.Path.{◌≡◌, refl, ap, sym, subst, ◌∙◌}
use mathlib.Core.Logic.{◌↔◌, inl, inr}
use mathlib.Core.Bool.{Bool, true, false}
use mathlib.Core.Option.{Option, none, some}
use mathlib.Core.List.{List, [], ◌∷◌}
use native.Mathlib.Omega.{arith}
use vantablack.Prelude.Tests.{◌==◌, ==_iff, if◌then◌else◌, Bool-cases}

pub some_inj : {A : Type 0} {a b : A} → some a ≡ some b → a ≡ b
some_inj h = cc

either_same : {A : Type 0} (b : Bool) (o : A) → (if b then o else o) ≡ o
either_same true o = refl
either_same false o = refl

pub record Keys (K : Type 0) : Type 0 where
  pub same : K → K → Bool
  pub same_iff : (a b : K) → (same a b ≡ true) ↔ (a ≡ b)

abbrev pub num_keys : Keys ℕ
num_keys = record { same = ◌==◌; same_iff = ==_iff }

module _ {K : Type 0} (e : Keys K) {V : Type 0} where
  unfoldable pub lookup : K → List (K × V) → Option V
  lookup k [] = none
  lookup k ((j, w) ∷ d) = if e.same j k then some w else lookup k d

  unfoldable pub insert : K → V → List (K × V) → List (K × V)
  insert k v [] = (k, v) ∷ []
  insert k v ((j, w) ∷ d) = if e.same j k then (k, v) ∷ d else (j, w) ∷ insert k v d

  unfoldable pub remove : K → List (K × V) → List (K × V)
  remove k [] = []
  remove k ((j, w) ∷ d) = let rest = remove k d in if e.same j k then rest else (j, w) ∷ rest

  pub lookup-insert :
      (k j : K) (v : V) (d : List (K × V))
      → lookup j (insert k v d) ≡ (if e.same k j then some v else lookup j d)
  unfolding lookup insert
  lookup-insert k j v [] = refl
  lookup-insert k j v ((i, w) ∷ d) =
      ground (arith, e.same_iff i k, e.same_iff i j, e.same_iff k j, lookup-insert k j v d)

  pub lookup-remove :
      (k j : K) (d : List (K × V))
      → lookup j (remove k d) ≡ (if e.same k j then none else lookup j d)
  unfolding lookup remove
  lookup-remove k j [] = ground arith
  lookup-remove k j ((i, w) ∷ d) =
      ground (arith, e.same_iff i k, e.same_iff i j, e.same_iff k j, lookup-remove k j d)

  -- No key stands twice.
  abbrev pub Unique : List (K × V) → Type 0
  Unique [] = Unit {0}
  Unique ((j, w) ∷ d) = (lookup j d ≡ none) × Unique d

  pub insert-Unique : (k : K) (v : V) (d : List (K × V)) → Unique d → Unique (insert k v d)
  unfolding insert lookup
  insert-Unique k v [] u = (refl, tt)
  insert-Unique k v ((j, w) ∷ d) u = elim (Bool-cases (e.same j k)) [
    | inl same ↦ rw same (ap (λ i. lookup i d) (sym ((e.same_iff j k).0 same)) ∙ u.0, u.1)
    | inr other ↦
        let kept : lookup j (insert k v d) ≡ lookup j d =
          lookup-insert k j v d
          ∙ (let apart : e.same k j ≡ false = ground (arith, e.same_iff j k, e.same_iff k j) in
              rw apart refl) in
        rw other (kept ∙ u.0, insert-Unique k v d u.1)
  ]

  pub remove-Unique : (k : K) (d : List (K × V)) → Unique d → Unique (remove k d)
  unfolding remove
  remove-Unique k [] u = tt
  remove-Unique k ((j, w) ∷ d) u = elim (Bool-cases (e.same j k)) [
    | inl same ↦ rw same (remove-Unique k d u.1)
    | inr other ↦
        let kept : lookup j (remove k d) ≡ none =
          lookup-remove k j d ∙ (rw u.0 (either_same (e.same k j) none)) in
        rw other (kept, remove-Unique k d u.1)
  ]

-- A property of all values is kept by the operations.
module _ {K : Type 0} (e : Keys K) {V : Type 0} (P : V → Type 0) where
  abbrev pub Values : List (K × V) → Type 0
  Values [] = Unit {0}
  Values ((j, w) ∷ d) = P w × Values d

  pub insert-Values : (k : K) (v : V) (d : List (K × V)) → P v → Values d → Values (insert e k v d)
  unfolding insert
  insert-Values k v [] p h = (p, tt)
  insert-Values k v ((j, w) ∷ d) p h = elim (Bool-cases (e.same j k)) [
    | inl same ↦ rw same (p, h.1)
    | inr other ↦ rw other (h.0, insert-Values k v d p h.1)
  ]

  pub remove-Values : (k : K) (d : List (K × V)) → Values d → Values (remove e k d)
  unfolding remove
  remove-Values k [] h = tt
  remove-Values k ((j, w) ∷ d) h = elim (Bool-cases (e.same j k)) [
    | inl same ↦ rw same (remove-Values k d h.1)
    | inr other ↦ rw other (h.0, remove-Values k d h.1)
  ]

  pub lookup-Values : (k : K) (d : List (K × V)) (v : V) → Values d → lookup e k d ≡ some v → P v
  unfolding lookup
  lookup-Values k [] v h f = cc
  lookup-Values k ((j, w) ∷ d) v h f = elim (Bool-cases (e.same j k)) [
    | inl same ↦ let found : some w ≡ some v = rw same at f in subst P (some_inj found) h.0
    | inr other ↦ lookup-Values k d v h.1 (rw other at f)
  ]
