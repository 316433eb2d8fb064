-- ===== src/Session/MsgChain/Skipped.antt =====
-- The map of skipped keys (src/ghost/session/ratchet.rs): what caching and evicting do to it.
use vantablack.Prelude.{
  ℕ, suc, ◌+◌, ◌≤◌, ◌<◌, ◌≡◌, ◌≢◌, refl, ◌∙◌, none, List, [], ◌∷◌, arith, length, All,
}
use vantablack.Prelude.Bytes.{Bytes}
use vantablack.Prelude.Assoc.{Map, lookup, or_insert, Ascends, Ascends-mono, or_insert-Ascends}
use vantablack.Session.MsgChain.{store, evict, max_skip}

pub All-or_insert {ℓ} :
    (P : ℕ × Bytes → Type ℓ) (k : ℕ) (v : Bytes) (m : Map Bytes)
    → P (k, v)
    → All P m
    → All P (or_insert k v m)
unfolding or_insert
All-or_insert P k v [] h a = (h, tt)
All-or_insert P k v ((j, w) ∷ m) h a =
    let rest = All-or_insert P k v m h a.1 in ground (arith, rest)

pub All-store {ℓ} :
    (P : ℕ × Bytes → Type ℓ) (cache : List (ℕ × Bytes)) (m : Map Bytes)
    → All P cache
    → All P m
    → All P (store cache m)
unfolding store
All-store P [] m h a = a
All-store P ((k, v) ∷ cache) m h a = All-store P cache _ h.1 (All-or_insert P k v m h.0 a)

pub store-Ascends :
    (cache : List (ℕ × Bytes)) (m : Map Bytes) → Ascends 0 m → Ascends 0 (store cache m)
unfolding store
store-Ascends [] m a = a
store-Ascends ((k, v) ∷ cache) m a =
    store-Ascends cache _ (or_insert-Ascends 0 k v m (omega arith) a)

length-or_insert-le :
    (k : ℕ) (v : Bytes) (m : Map Bytes) → length (or_insert k v m) ≤ suc (length m)
unfolding or_insert
length-or_insert-le k v [] = omega arith
length-or_insert-le k v ((j, w) ∷ m) = ground (arith, length-or_insert-le k v m)

pub length-store-le :
    (cache : List (ℕ × Bytes)) (m : Map Bytes) → length (store cache m) ≤ length cache + length m
unfolding store
length-store-le [] m = omega arith
length-store-le ((k, v) ∷ cache) m =
    omega (arith, length-store-le cache (or_insert k v m), length-or_insert-le k v m)

lookup-or_insert_ne :
    (k j : ℕ) (v : Bytes) (m : Map Bytes) → k ≢ j → lookup j (or_insert k v m) ≡ lookup j m
unfolding lookup or_insert
lookup-or_insert_ne k j v [] h = ground arith
lookup-or_insert_ne k j v ((i, w) ∷ m) h = ground (arith, lookup-or_insert_ne k j v m h)

pub lookup-store_ne :
    (j : ℕ) (cache : List (ℕ × Bytes)) (m : Map Bytes)
    → All (λ e. e.0 ≢ j) cache
    → lookup j (store cache m) ≡ lookup j m
unfolding store
lookup-store_ne j [] m h = refl
lookup-store_ne j ((k, v) ∷ cache) m h =
    lookup-store_ne j cache _ h.1 ∙ lookup-or_insert_ne k j v m h.0

pub All-evict {ℓ} : (P : ℕ × Bytes → Type ℓ) (m : Map Bytes) → All P m → All P (evict m)
unfolding evict
All-evict P [] a = a
All-evict P (e ∷ m) a = let rest = All-evict P m a.1 in ground (arith, rest)

evict-Ascends_from : (b : ℕ) (m : Map Bytes) → Ascends b m → Ascends b (evict m)
unfolding evict
evict-Ascends_from b [] a = tt
evict-Ascends_from b ((j, w) ∷ m) a =
    let rest =
      Ascends-mono {b = suc j} {c = b} (evict m) (omega arith) (evict-Ascends_from (suc j) m a.1) in
    ground (arith, rest)

pub evict-Ascends : (m : Map Bytes) → Ascends 0 m → Ascends 0 (evict m)
evict-Ascends m a = evict-Ascends_from 0 m a

pub length-evict-le : (m : Map Bytes) → length (evict m) ≤ max_skip
unfolding evict
length-evict-le [] = omega arith
length-evict-le (e ∷ m) = ground (arith, length-evict-le m)

pub evict_room : (m : Map Bytes) → length m ≤ max_skip → evict m ≡ m
unfolding evict
evict_room [] h = refl
evict_room (e ∷ m) h = ground arith

pub lookup-evict-none : (j : ℕ) (m : Map Bytes) → lookup j m ≡ none → lookup j (evict m) ≡ none
unfolding lookup evict
lookup-evict-none j [] h = refl
lookup-evict-none j ((i, w) ∷ m) h = ground (arith, lookup-evict-none j m)

pub lookup_above : (j : ℕ) (m : Map Bytes) → All (λ e. e.0 < j) m → lookup j m ≡ none
unfolding lookup
lookup_above j [] h = refl
lookup_above j ((i, w) ∷ m) h = ground (arith, lookup_above j m h.1)
