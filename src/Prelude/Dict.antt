-- ===== src/Prelude/Dict.antt =====
-- Maps keyed by texts (`DashMap<String, _>`), as lists of entries in the order of insertion. Proofs
-- elsewhere go by the laws.
use mathlib.Core.Path.{◌≡◌, refl}
use mathlib.Core.Option.{Option, none, some}
use mathlib.Core.List.{List, [], ◌∷◌}
use native.Mathlib.Omega.{arith}
use vantablack.Prelude.Tests.{if◌then◌else◌}
use vantablack.Prelude.Bytes.{Bytes, equal, equal_iff}

abbrev pub Dict {ℓ} : Type ℓ → Type ℓ
Dict V = List (Bytes × V)

module _ {ℓ} {V : Type ℓ} where
  unfoldable pub lookup : Bytes → Dict V → Option V
  lookup k [] = none
  lookup k ((j, w) ∷ d) = if equal j k then some w else lookup k d

  unfoldable pub insert : Bytes → V → Dict V → Dict V
  insert k v [] = (k, v) ∷ []
  insert k v ((j, w) ∷ d) = if equal j k then (k, v) ∷ d else (j, w) ∷ insert k v d

  unfoldable pub remove : Bytes → Dict V → Dict V
  remove k [] = []
  remove k ((j, w) ∷ d) = let rest = remove k d in if equal j k then rest else (j, w) ∷ rest

  pub lookup-insert :
      (k j : Bytes) (v : V) (d : Dict V)
      → lookup j (insert k v d) ≡ (if equal k j then some v else lookup j d)
  unfolding lookup insert
  lookup-insert k j v [] = refl
  lookup-insert k j v ((i, w) ∷ d) =
      ground (arith, equal_iff i k, equal_iff i j, equal_iff k j, lookup-insert k j v d)

  pub lookup-remove :
      (k j : Bytes) (d : Dict V) → lookup j (remove k d) ≡ (if equal k j then none else lookup j d)
  unfolding lookup remove
  lookup-remove k j [] = ground arith
  lookup-remove k j ((i, w) ∷ d) =
      ground (arith, equal_iff i k, equal_iff i j, equal_iff k j, lookup-remove k j d)
