-- ===== src/Relay/Bundles/Refine.antt =====
-- The store of src/ghost/net/relay.rs answers as the queue does.
use vantablack.Prelude.{
  ℕ, ◌+◌, ◌≡◌, refl, sym, ap, ap₂, ◌∙◌, Bool, false, not, ◌&&◌, none, List, [], ◌∷◌, ◌++◌,
  append-nil, arith, ◌==◌, if◌then◌else◌, length, length-append,
}
use vantablack.Prelude.Bytes.{Bytes, equal, equal_iff}
use vantablack.Prelude.Dict.{Dict, lookup, insert, remove, lookup-insert, lookup-remove}
use vantablack.Relay.Bundles.{
  Bundle, BundleBuffer, new, or_default, enqueue, dequeue_for, is_fresh, retain_fresh, count_stale,
  retain_entry, retain_some, count_expired, expire_old, has_pending,
}
use vantablack.Relay.Bundles.Queue.{
  filter, is_for, Call, enqueues, dequeues, pending, expires, bundles, expired, is_pending, answer,
  specified, answers, specified_answers, count, NoKey, OneEntry, Holds, filter-append, filter_both,
  filter_same, filter_parts,
}

-- One entry replaced or removed.
count-insert :
    (p : Bundle → Bool) (fp : Bytes) (v : List Bundle) (d : Dict (List Bundle))
    → count p (insert fp v d) + length (filter p (or_default (lookup fp d)))
      ≡ count p d + length (filter p v)
unfolding insert lookup
count-insert p fp v [] = omega arith
count-insert p fp v ((j, l) ∷ d) = ground (arith, count-insert p fp v d)

NoKey-insert :
    (j fp : Bytes) (v : List Bundle) (d : Dict (List Bundle))
    → equal fp j ≡ false
    → NoKey j d
    → NoKey j (insert fp v d)
unfolding insert
NoKey-insert j fp v [] h n = (h, tt)
NoKey-insert j fp v ((i, l) ∷ d) h n = ground (arith, NoKey-insert j fp v d h n.1, n.0)

OneEntry-insert :
    (fp : Bytes) (v : List Bundle) (d : Dict (List Bundle)) → OneEntry d → OneEntry (insert fp v d)
unfolding insert
OneEntry-insert fp v [] o = (tt, tt)
OneEntry-insert fp v ((j, l) ∷ d) o =
    ground
      (arith, equal_iff j fp, equal_iff fp j, OneEntry-insert fp v d o.1, NoKey-insert j fp v d)

NoKey-lookup : (fp : Bytes) (d : Dict (List Bundle)) → NoKey fp d → lookup fp d ≡ none
unfolding lookup
NoKey-lookup fp [] n = refl
NoKey-lookup fp ((j, l) ∷ d) n = ground (arith, NoKey-lookup fp d n.1, n.0)

NoKey-remove : (j fp : Bytes) (d : Dict (List Bundle)) → NoKey j d → NoKey j (remove fp d)
unfolding remove
NoKey-remove j fp [] n = tt
NoKey-remove j fp ((i, l) ∷ d) n = ground (arith, NoKey-remove j fp d n.1, n.0)

OneEntry-remove : (fp : Bytes) (d : Dict (List Bundle)) → OneEntry d → OneEntry (remove fp d)
unfolding remove
OneEntry-remove fp [] o = tt
OneEntry-remove fp ((j, l) ∷ d) o =
    ground (arith, OneEntry-remove fp d o.1, NoKey-remove j fp d o.0)

count-remove_absent :
    (p : Bundle → Bool) (fp : Bytes) (d : Dict (List Bundle))
    → NoKey fp d
    → count p (remove fp d) ≡ count p d
unfolding remove
count-remove_absent p fp [] n = refl
count-remove_absent p fp ((j, l) ∷ d) n = ground (arith, count-remove_absent p fp d n.1, n.0)

count-remove :
    (p : Bundle → Bool) (fp : Bytes) (d : Dict (List Bundle))
    → OneEntry d
    → count p (remove fp d) + length (filter p (or_default (lookup fp d))) ≡ count p d
unfolding remove lookup
count-remove p fp [] o = omega arith
count-remove p fp ((j, l) ∷ d) o =
    ground (arith, count-remove p fp d o.1, equal_iff j fp, count-remove_absent p fp d)

retain_fresh-filter : (now : ℕ) (l : List Bundle) → retain_fresh now l ≡ filter (is_fresh now) l
retain_fresh-filter now [] = refl
retain_fresh-filter now (b ∷ l) = ground (arith, retain_fresh-filter now l)

count_stale-filter :
    (now : ℕ) (l : List Bundle) → count_stale now l ≡ length (filter (λ b. not (is_fresh now b)) l)
count_stale-filter now [] = refl
count_stale-filter now (b ∷ l) = ground (arith, count_stale-filter now l)

count_expired-count :
    (now : ℕ) (d : Dict (List Bundle)) → count_expired now d ≡ count (λ b. not (is_fresh now b)) d
count_expired-count now [] = refl
count_expired-count now ((fp, l) ∷ d) =
    ap₂ (λ a b. a + b) (count_stale-filter now l) (count_expired-count now d)

-- An entry kept unless it is empty.
NoKey-retain_entry :
    (fp j : Bytes) (l : List Bundle) (d : Dict (List Bundle))
    → equal j fp ≡ false
    → NoKey fp d
    → NoKey fp (retain_entry j l d)
NoKey-retain_entry fp j [] d h n = n
NoKey-retain_entry fp j (b ∷ l) d h n = (h, n)

OneEntry-retain_entry :
    (j : Bytes) (l : List Bundle) (d : Dict (List Bundle))
    → NoKey j d
    → OneEntry d
    → OneEntry (retain_entry j l d)
OneEntry-retain_entry j [] d n o = o
OneEntry-retain_entry j (b ∷ l) d n o = (n, o)

count-retain_entry :
    (p : Bundle → Bool) (j : Bytes) (l : List Bundle) (d : Dict (List Bundle))
    → count p (retain_entry j l d) ≡ length (filter p l) + count p d
count-retain_entry p j [] d = omega arith
count-retain_entry p j (b ∷ l) d = refl

lookup-retain_entry :
    (fp j : Bytes) (l : List Bundle) (d : Dict (List Bundle))
    → NoKey j d
    → or_default (lookup fp (retain_entry j l d))
      ≡ (if equal j fp then l else or_default (lookup fp d))
unfolding lookup
lookup-retain_entry fp j [] d n = ground (arith, equal_iff j fp, NoKey-lookup j d n)
lookup-retain_entry fp j (b ∷ l) d n = ground arith

NoKey-retain_some :
    (fp : Bytes) (now : ℕ) (d : Dict (List Bundle)) → NoKey fp d → NoKey fp (retain_some now d)
NoKey-retain_some fp now [] n = tt
NoKey-retain_some fp now ((j, l) ∷ d) n =
    NoKey-retain_entry fp j (retain_fresh now l) (retain_some now d) n.0
      (NoKey-retain_some fp now d n.1)

OneEntry-retain_some :
    (now : ℕ) (d : Dict (List Bundle)) → OneEntry d → OneEntry (retain_some now d)
OneEntry-retain_some now [] o = tt
OneEntry-retain_some now ((j, l) ∷ d) o =
    OneEntry-retain_entry j (retain_fresh now l) (retain_some now d) (NoKey-retain_some j now d o.0)
      (OneEntry-retain_some now d o.1)

count-retain_some :
    (p : Bundle → Bool) (now : ℕ) (d : Dict (List Bundle))
    → count p (retain_some now d) ≡ count (λ b. is_fresh now b && p b) d
count-retain_some p now [] = refl
count-retain_some p now ((j, l) ∷ d) =
    count-retain_entry p j (retain_fresh now l) (retain_some now d)
    ∙ ap₂ (λ a b. a + b)
        (ap (λ t. length (filter p t)) (retain_fresh-filter now l)
          ∙ ap length (filter_both p (is_fresh now) l))
        (count-retain_some p now d)

lookup-retain_some :
    (fp : Bytes) (now : ℕ) (d : Dict (List Bundle))
    → OneEntry d
    → or_default (lookup fp (retain_some now d)) ≡ filter (is_fresh now) (or_default (lookup fp d))
unfolding lookup
lookup-retain_some fp now [] o = refl
lookup-retain_some fp now ((j, l) ∷ d) o =
    lookup-retain_entry fp j (retain_fresh now l) (retain_some now d)
      (NoKey-retain_some j now d o.0)
    ∙ ground (arith, retain_fresh-filter now l, lookup-retain_some fp now d o.1)

-- The tests of two peers.
filter_none : (p : Bundle → Bool) (q : List Bundle) → ((b : Bundle) → p b ≡ false) → filter p q ≡ []
filter_none p [] h = refl
filter_none p (b ∷ q) h = ground (arith, filter_none p q h, h b)

dequeued_self :
    (fp : Bytes) (q : List Bundle) → filter (is_for fp) (filter (λ b. not (is_for fp b)) q) ≡ []
dequeued_self fp q =
    filter_both (is_for fp) (λ b. not (is_for fp b)) q
    ∙ filter_none (λ b. not (is_for fp b) && is_for fp b) q (λ b. ground arith)

dequeued_other :
    (fp j : Bytes) (q : List Bundle)
    → equal fp j ≡ false
    → filter (is_for j) (filter (λ b. not (is_for fp b)) q) ≡ filter (is_for j) q
dequeued_other fp j q h =
    filter_both (is_for j) (λ b. not (is_for fp b)) q
    ∙ filter_same (λ b. not (is_for fp b) && is_for j b) (is_for j) q
        (λ b. ground (
          arith,
          equal_iff b.target_fingerprint fp,
          equal_iff b.target_fingerprint j,
          equal_iff fp j,
        ))

expired_commute :
    (fp : Bytes) (now : ℕ) (q : List Bundle)
    → filter (is_fresh now) (filter (is_for fp) q) ≡ filter (is_for fp) (filter (is_fresh now) q)
expired_commute fp now q =
    filter_both (is_fresh now) (is_for fp) q
    ∙ filter_same (λ b. is_for fp b && is_fresh now b) (λ b. is_fresh now b && is_for fp b) q
        (λ b. ground arith)
    ∙ sym (filter_both (is_for fp) (is_fresh now) q)

enqueue-Holds :
    (b : Bundle) (buf : BundleBuffer) (q : List Bundle)
    → Holds buf q
    → Holds (enqueue b buf) (q ++ (b ∷ []))
unfolding enqueue
enqueue-Holds b buf q h =
    let fp = b.target_fingerprint in
    let v = or_default (lookup fp buf.bundles) ++ (b ∷ []) in
    record {
      each = λ j. ground (
        arith,
        lookup-insert fp j v buf.bundles,
        filter-append (is_for j) q (b ∷ []),
        append-nil (filter (is_for j) q),
        equal_iff fp j,
        h.each j,
      );
      counted = λ p. omega (
        arith,
        count-insert p fp v buf.bundles,
        h.counted p,
        ap length (filter-append p (or_default (lookup fp buf.bundles)) (b ∷ [])),
        ap length (filter-append p q (b ∷ [])),
        length-append (filter p (or_default (lookup fp buf.bundles))) (filter p (b ∷ [])),
        length-append (filter p q) (filter p (b ∷ [])),
      );
      one = OneEntry-insert fp v buf.bundles h.one;
    }

dequeue_for-Holds :
    (fp : Bytes) (buf : BundleBuffer) (q : List Bundle)
    → Holds buf q
    → Holds (dequeue_for fp buf).1 (filter (λ b. not (is_for fp b)) q)
unfolding dequeue_for
dequeue_for-Holds fp buf q h = record {
  each = λ j. ground (
    arith,
    lookup-remove fp j buf.bundles,
    equal_iff fp j,
    h.each j,
    dequeued_self fp q,
    dequeued_other fp j q,
  );
  counted = λ p. omega (
    arith,
    count-remove p fp buf.bundles h.one,
    h.counted p,
    ap (λ t. length (filter p t)) (h.each fp),
    filter_parts p (is_for fp) q,
  );
  one = OneEntry-remove fp buf.bundles h.one;
}

expire_old-Holds :
    (now : ℕ) (buf : BundleBuffer) (q : List Bundle)
    → Holds buf q
    → Holds (expire_old now buf).1 (filter (is_fresh now) q)
unfolding expire_old
expire_old-Holds now buf q h = record {
  each = λ j.
      lookup-retain_some j now buf.bundles h.one
      ∙ ap (filter (is_fresh now)) (h.each j)
      ∙ expired_commute j now q;
  counted = λ p.
      count-retain_some p now buf.bundles
      ∙ h.counted (λ b. is_fresh now b && p b)
      ∙ ap length (sym (filter_both p (is_fresh now) q));
  one = OneEntry-retain_some now buf.bundles h.one;
}

answer-specified :
    (c : Call) (buf : BundleBuffer) (q : List Bundle)
    → Holds buf q
    → ((answer c buf).0 ≡ (specified c q).0) × Holds (answer c buf).1 (specified c q).1
unfolding answer specified has_pending dequeue_for expire_old
answer-specified (enqueues b) buf q h = (refl, enqueue-Holds b buf q h)
answer-specified (dequeues fp) buf q h = (ap bundles (h.each fp), dequeue_for-Holds fp buf q h)
answer-specified (pending fp) buf q h = (ap (λ l. is_pending (not (length l == 0))) (h.each fp), h)
answer-specified (expires now) buf q h = (
  ap expired (count_expired-count now buf.bundles ∙ h.counted (λ b. not (is_fresh now b))),
  expire_old-Holds now buf q h,
)

answers-Holds :
    (cs : List Call) (buf : BundleBuffer) (q : List Bundle)
    → Holds buf q
    → answers cs buf ≡ specified_answers cs q
unfolding answers specified_answers
answers-Holds [] buf q h = refl
answers-Holds (c ∷ cs) buf q h =
    let (same, h') = answer-specified c buf q h in
    ap₂ (λ a l. a ∷ l) same (answers-Holds cs (answer c buf).1 (specified c q).1 h')

-- From a new store on, any calls are answered as by one queue of all bundles in the order of
-- arrival: a peer takes the bundles for it in that order, has some pending exactly when there are
-- any, and expiry drops the bundles of an hour or more and counts them.
pub answers-specified_answers : (cs : List Call) → answers cs new ≡ specified_answers cs []
unfolding new lookup
answers-specified_answers cs =
    answers-Holds cs new [] (record { each = λ fp. refl; counted = λ p. refl; one = tt })
