-- ===== src/Sync/Dtn/Union.antt =====
-- What a reconciliation comes to (src/ghost/net/dtn_reconcile.rs): each store ends with the union.
use vantablack.Prelude.{
  ℕ, suc, ◌≡◌, refl, ap, ◌∙◌, false, Option, none, some, List, [], ◌∷◌, arith, ◌==◌, if◌then◌else◌,
  mem, All, is_some,
}
use vantablack.Prelude.Bytes.{equal, Bytes}
use vantablack.Prelude.Assoc.{Map, lookup, Ascends, insert-Ascends, lookup-insert, lookup_below}
use vantablack.Sync.Dtn.{
  DtnBundle, DtnMerkleTree, missing_from, compute_missing_from, splice, splice_all, splice_incoming,
  keys, root_hash, reconcile_blackout_stores,
}

-- A store in order, each bundle under its own identifier.
pub record IsStore (m : Map DtnBundle) : Type 0 where
  pub order : Ascends 0 m
  pub own : All (λ e. e.0 ≡ e.1.bundle_id) m

abbrev pub or_else : Option DtnBundle → Option DtnBundle → Option DtnBundle
or_else none o = o
or_else (some b) o = some b

-- The first bundle of a list with an identifier.
unfoldable pub first_of : ℕ → List DtnBundle → Option DtnBundle
first_of k [] = none
first_of k (b ∷ bs) = if b.bundle_id == k then some b else first_of k bs

mem-keys : (k : ℕ) (m : Map DtnBundle) → mem k (keys m) ≡ is_some (lookup k m)
unfolding lookup
mem-keys k [] = refl
mem-keys k ((j, w) ∷ m) = ground (arith, mem-keys k m)

first_of-missing_from :
    (k b : ℕ) (ids : List ℕ) (m : Map DtnBundle)
    → Ascends b m
    → All (λ e. e.0 ≡ e.1.bundle_id) m
    → first_of k (missing_from ids m) ≡ (if mem k ids then none else lookup k m)
unfolding first_of missing_from lookup
first_of-missing_from k b ids [] asc own = ground arith
first_of-missing_from k b ids ((j, w) ∷ m) asc own =
    ground (arith, first_of-missing_from k (suc j) ids m asc.1 own.1, lookup_below (suc j) k m)

splice-lookup :
    (k : ℕ) (o : Option DtnBundle) (b : DtnBundle) (m : Map DtnBundle)
    → lookup b.bundle_id m ≡ o
    → Ascends 0 m
    → Ascends 0 (splice o b m).1
      × (lookup k (splice o b m).1
          ≡ or_else (lookup k m) (if b.bundle_id == k then some b else none))
unfolding splice
splice-lookup k none b m e asc = ground (
  arith,
  insert-Ascends 0 b.bundle_id b m (omega arith) asc,
  lookup-insert 0 b.bundle_id k b m asc,
  e,
)
splice-lookup k (some old) b m e asc = ground (arith, e)

lookup-splice_all :
    (incoming : List DtnBundle) (k : ℕ) (m : Map DtnBundle)
    → Ascends 0 m
    → lookup k (splice_all incoming m).1 ≡ or_else (lookup k m) (first_of k incoming)
unfolding splice_all first_of
lookup-splice_all [] k m asc = ground arith
lookup-splice_all (b ∷ incoming) k m asc =
    let (asc', here) = splice-lookup k (lookup b.bundle_id m) b m refl asc in
    lookup-splice_all incoming k _ asc' ∙ rw here (ground arith)

absorb : (x y : Option DtnBundle) → or_else x (if is_some x then none else y) ≡ or_else x y
absorb none y = refl
absorb (some b) y = refl

-- One side's store with what the other side has and it lacks.
joined :
    (k : ℕ) (m other : Map DtnBundle)
    → IsStore m
    → IsStore other
    → lookup k (splice_all (missing_from (keys m) other) m).1
      ≡ or_else (lookup k m) (lookup k other)
joined k m other v w =
    lookup-splice_all (missing_from (keys m) other) k m v.order
    ∙ ap (or_else (lookup k m)) (first_of-missing_from k 0 (keys m) other w.order w.own)
    ∙ (rw (mem-keys k m) (absorb (lookup k m) (lookup k other)))

-- If two stores, each in order and with every bundle under its own identifier, have different
-- roots, then after the reconciliation each holds, under every identifier, its own bundle if it
-- had one and else the other's.
pub reconcile_blackout_stores_lem :
    (sha256 : Bytes → Bytes) (a b : DtnMerkleTree) (k : ℕ)
    → IsStore a.bundles
    → IsStore b.bundles
    → equal (root_hash sha256 a) (root_hash sha256 b) ≡ false
    → let (_, (a', b')) = reconcile_blackout_stores sha256 a b in
      (lookup k a'.bundles ≡ or_else (lookup k a.bundles) (lookup k b.bundles))
      × (lookup k b'.bundles ≡ or_else (lookup k b.bundles) (lookup k a.bundles))
unfolding reconcile_blackout_stores compute_missing_from splice_incoming
reconcile_blackout_stores_lem sha256 a b k va vb differ =
    rw differ (joined k a.bundles b.bundles va vb, joined k b.bundles a.bundles vb va)
