-- ===== src/Relay/Bundles/Queue.antt =====
-- The store of src/ghost/net/relay.rs against one queue of all bundles, in the order of arrival.
use vantablack.Prelude.{
  ℕ, ◌+◌, ◌≡◌, refl, Bool, false, not, ◌&&◌, List, [], ◌∷◌, ◌++◌, arith, ◌==◌, if◌then◌else◌,
  length,
}
use vantablack.Prelude.Bytes.{Bytes, equal}
use vantablack.Prelude.Dict.{Dict, lookup}
use vantablack.Relay.Bundles.{
  Bundle, BundleBuffer, or_default, enqueue, dequeue_for, is_fresh, expire_old, has_pending,
}

-- `filter`
abbrev pub filter : (Bundle → Bool) → List Bundle → List Bundle
filter p [] = []
filter p (b ∷ l) = let rest = filter p l in if p b then b ∷ rest else rest

abbrev pub is_for : Bytes → Bundle → Bool
is_for fp b = equal b.target_fingerprint fp

-- One call, and what it answers.
pub data Call : Type 0 where
  enqueues : (b : Bundle) → Call
  dequeues pending : (fp : Bytes) → Call
  expires : (now : ℕ) → Call

pub data Answer : Type 0 where
  done : Answer
  bundles : (l : List Bundle) → Answer
  expired : (n : ℕ) → Answer
  is_pending : (b : Bool) → Answer

unfoldable pub answer : Call → BundleBuffer → Answer × BundleBuffer
unfolding enqueue dequeue_for expire_old has_pending
answer (enqueues b) buf = (done, enqueue b buf)
answer (dequeues fp) buf = let (l, buf') = dequeue_for fp buf in (bundles l, buf')
answer (pending fp) buf = (is_pending (has_pending fp buf), buf)
answer (expires now) buf = let (n, buf') = expire_old now buf in (expired n, buf')

-- The same on the queue: a peer's bundles are those for it, in the order of arrival.
unfoldable pub specified : Call → List Bundle → Answer × List Bundle
unfolding is_fresh
specified (enqueues b) q = (done, q ++ (b ∷ []))
specified (dequeues fp) q = (bundles (filter (is_for fp) q), filter (λ b. not (is_for fp b)) q)
specified (pending fp) q = (is_pending (not (length (filter (is_for fp) q) == 0)), q)
specified (expires now) q =
    (expired (length (filter (λ b. not (is_fresh now b)) q)), filter (is_fresh now) q)

-- The bundles of the store that pass a test.
abbrev pub count : (Bundle → Bool) → Dict (List Bundle) → ℕ
count p [] = 0
count p ((fp, l) ∷ d) = length (filter p l) + count p d

-- No peer has two entries.
abbrev pub NoKey : Bytes → Dict (List Bundle) → Type 0
NoKey fp [] = Unit {0}
NoKey fp ((j, l) ∷ d) = (equal j fp ≡ false) × NoKey fp d

abbrev pub OneEntry : Dict (List Bundle) → Type 0
OneEntry [] = Unit {0}
OneEntry ((fp, l) ∷ d) = NoKey fp d × OneEntry d

-- A store that holds what a queue holds.
pub record Holds (buf : BundleBuffer) (q : List Bundle) : Type 0 where
  pub each : (fp : Bytes) → or_default (lookup fp buf.bundles) ≡ filter (is_for fp) q
  pub counted : (p : Bundle → Bool) → count p buf.bundles ≡ length (filter p q)
  pub one : OneEntry buf.bundles

pub filter-append :
    (p : Bundle → Bool) (l r : List Bundle) → filter p (l ++ r) ≡ filter p l ++ filter p r
filter-append p [] r = refl
filter-append p (b ∷ l) r = ground (arith, filter-append p l r)

pub filter_both :
    (p q : Bundle → Bool) (l : List Bundle) → filter p (filter q l) ≡ filter (λ b. q b && p b) l
filter_both p q [] = refl
filter_both p q (b ∷ l) = ground (arith, filter_both p q l)

pub filter_same :
    (p q : Bundle → Bool) (l : List Bundle) → ((b : Bundle) → p b ≡ q b) → filter p l ≡ filter q l
filter_same p q [] h = refl
filter_same p q (b ∷ l) h = ground (arith, filter_same p q l h, h b)

-- A list is divided by a test.
pub filter_parts :
    (p t : Bundle → Bool) (l : List Bundle)
    → length (filter p (filter t l)) + length (filter p (filter (λ b. not (t b)) l))
      ≡ length (filter p l)
filter_parts p t [] = omega arith
filter_parts p t (b ∷ l) = ground (arith, filter_parts p t l)

-- The answers to a list of calls.
unfoldable pub answers : List Call → BundleBuffer → List Answer
unfolding answer
answers [] buf = []
answers (c ∷ cs) buf = let (a, buf') = answer c buf in a ∷ answers cs buf'

unfoldable pub specified_answers : List Call → List Bundle → List Answer
unfolding specified
specified_answers [] q = []
specified_answers (c ∷ cs) q = let (a, q') = specified c q in a ∷ specified_answers cs q'
