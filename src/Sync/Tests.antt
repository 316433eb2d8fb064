-- ===== src/Sync/Tests.antt =====
-- Runs of bundles and stores.
use vantablack.Prelude.{ℕ, ◌≡◌, refl, false, [], ◌∷◌, arith}
use vantablack.Prelude.Bytes.{equal, Bytes}
use vantablack.Prelude.Assoc.{lookup}
use vantablack.Sync.Dtn.{DtnBundle, DtnMerkleTree, root_hash, reconcile_blackout_stores}
use vantablack.Sync.Dtn.Wire.{IsBundle}
use vantablack.Sync.Dtn.Union.{IsStore, or_else, reconcile_blackout_stores_lem}

abbrev thirty_two : Bytes
thirty_two =
    1 ∷ 2 ∷ 3 ∷ 4 ∷ 5 ∷ 6 ∷ 7 ∷ 8 ∷ 1 ∷ 2 ∷ 3 ∷ 4 ∷ 5 ∷ 6 ∷ 7 ∷ 8 ∷ 1 ∷ 2 ∷ 3 ∷ 4 ∷ 5 ∷ 6 ∷ 7 ∷ 8
    ∷ 1 ∷ 2 ∷ 3 ∷ 4 ∷ 5 ∷ 6 ∷ 7 ∷ 8 ∷ []

abbrev bundle : ℕ → DtnBundle
bundle id = record { bundle_id = id; sequence = 9; payload_hash = thirty_two; payload = 4 ∷ 2 ∷ [] }

bundle-IsBundle : IsBundle (bundle 300)
bundle-IsBundle = record {
  id_fits = omega arith;
  sequence_fits = omega arith;
  hash_full = refl;
  payload_fits = omega arith;
}

-- The hash keeps the bytes.
abbrev same : Bytes → Bytes
same b = b

abbrev left : DtnMerkleTree
left = record { bundles = (1, bundle 1) ∷ (2, bundle 2) ∷ [] }

abbrev right : DtnMerkleTree
right = record { bundles = (2, bundle 2) ∷ (3, bundle 3) ∷ [] }

left-IsStore : IsStore left.bundles
left-IsStore = record { order = (omega arith, (omega arith, tt)); own = (refl, (refl, tt)) }

right-IsStore : IsStore right.bundles
right-IsStore = record { order = (omega arith, (omega arith, tt)); own = (refl, (refl, tt)) }

apart : equal (root_hash same left) (root_hash same right) ≡ false
unfolding root_hash
apart = refl

reconcile_blackout_stores_lem_example :
    let (_, (a', b')) = reconcile_blackout_stores same left right in
    (lookup 1 a'.bundles ≡ or_else (lookup 1 left.bundles) (lookup 1 right.bundles))
    × (lookup 1 b'.bundles ≡ or_else (lookup 1 right.bundles) (lookup 1 left.bundles))
reconcile_blackout_stores_lem_example =
    reconcile_blackout_stores_lem same left right 1 left-IsStore right-IsStore apart
