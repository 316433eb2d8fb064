-- ===== src/Relay/Derp/Pick.antt =====
-- The choice of a relay in src/ghost/net/relay.rs.
use vantablack.Prelude.{
  ℕ, ◌≡◌, refl, subst, ◌⊎◌, inl, inr, Bool, true, false, not, ◌&&◌, ◌||◌, Option, none, some, [],
  ◌∷◌, arith, if◌then◌else◌, All, Bool-cases,
}
use vantablack.Prelude.Bytes.{Bytes, equal}
use vantablack.Prelude.Utf8.{text_ltb}
use vantablack.Prelude.Dict.{Dict}
use vantablack.Relay.Derp.{DerpRelay, before, sort_in, sort_by_key, find_other, pick_relay}

text_ltb_asym : (x y : Bytes) → text_ltb x y ≡ true → text_ltb y x ≡ false
text_ltb_asym [] [] h = refl
text_ltb_asym [] (y ∷ ys) h = refl
text_ltb_asym (x ∷ xs) [] h = ground arith
text_ltb_asym (x ∷ xs) (y ∷ ys) h = ground (arith, text_ltb_asym xs ys)

text_ltb_trans :
    (x y z : Bytes) → text_ltb y x ≡ false → text_ltb z y ≡ false → text_ltb z x ≡ false
text_ltb_trans [] [] z h k = k
text_ltb_trans [] (y ∷ ys) [] h k = ground arith
text_ltb_trans [] (y ∷ ys) (z ∷ zs) h k = refl
text_ltb_trans (x ∷ xs) [] z h k = ground arith
text_ltb_trans (x ∷ xs) (y ∷ ys) [] h k = ground arith
text_ltb_trans (x ∷ xs) (y ∷ ys) (z ∷ zs) h k = ground (arith, text_ltb_trans xs ys zs)

-- A peer that cannot be the relay.
abbrev pub excluded : Bytes → Bytes → Bytes → Bool
excluded our_fp target_fp fp = equal fp our_fp || equal fp target_fp

abbrev pub Entry : Bytes × ℕ → Dict ℕ → Type 0
Entry e [] = ⊥
Entry e (x ∷ d) = (x ≡ e) ⊎ Entry e d

-- The choice among candidates: one of them, neither us nor the target, before which no other such
-- candidate comes; or none, when there is no such candidate.
abbrev pub Picked : DerpRelay → Bytes → Bytes → Option (Bytes × ℕ) → Dict ℕ → Type 0
Picked r our_fp target_fp none d = All (λ e. excluded our_fp target_fp e.0 ≡ true) d
Picked r our_fp target_fp (some (fp, addr)) d =
    (excluded our_fp target_fp fp ≡ false)
    × Entry (fp, addr) d
    × All (λ e. (excluded our_fp target_fp e.0 ≡ true) ⊎ (before r e.0 fp ≡ false)) d

All-weaken :
    (P Q : Bytes × ℕ → Type 0) (d : Dict ℕ) → ((e : Bytes × ℕ) → P e → Q e) → All P d → All Q d
All-weaken P Q [] f a = tt
All-weaken P Q (e ∷ d) f a = (f e a.0, All-weaken P Q d f a.1)

each_an_Entry : (d : Dict ℕ) → All (λ e. Entry e d) d
each_an_Entry [] = tt
each_an_Entry (x ∷ d) = (
  inl refl,
  All-weaken (λ e. Entry e d) (λ e. Entry e (x ∷ d)) d (λ e h. inr h) (each_an_Entry d),
)

module _ (r : DerpRelay) where
  before_asym : (a b : Bytes) → before r a b ≡ true → before r b a ≡ false
  unfolding before
  before_asym a b h = ground (arith, text_ltb_asym a b)

  before_trans :
      (a b c : Bytes) → before r b a ≡ false → before r c b ≡ false → before r c a ≡ false
  unfolding before
  before_trans a b c h k = ground (arith, text_ltb_trans a b c)

  -- No entry comes before an earlier one.
  abbrev After : Bytes → Dict ℕ → Type 0
  After fp d = All (λ e. before r e.0 fp ≡ false) d

  abbrev Sorted : Dict ℕ → Type 0
  Sorted [] = Unit {0}
  Sorted ((fp, addr) ∷ d) = After fp d × Sorted d

  module _ (P : Bytes × ℕ → Type 0) where
    sort_in-All : (e : Bytes × ℕ) (d : Dict ℕ) → P e → All P d → All P (sort_in r e d)
    unfolding sort_in
    sort_in-All e [] p a = (p, tt)
    sort_in-All (fp, addr) ((j, w) ∷ d) p a = ground (arith, sort_in-All (fp, addr) d p a.1)

    sort_in-All_inv : (e : Bytes × ℕ) (d : Dict ℕ) → All P (sort_in r e d) → P e × All P d
    unfolding sort_in
    sort_in-All_inv e [] a = a
    sort_in-All_inv (fp, addr) ((j, w) ∷ d) a = ground (arith, sort_in-All_inv (fp, addr) d)

    sort_by_key-All : (d : Dict ℕ) → All P d → All P (sort_by_key r d)
    unfolding sort_by_key
    sort_by_key-All [] a = tt
    sort_by_key-All (e ∷ d) a = sort_in-All e (sort_by_key r d) a.0 (sort_by_key-All d a.1)

    sort_by_key-All_inv : (d : Dict ℕ) → All P (sort_by_key r d) → All P d
    unfolding sort_by_key
    sort_by_key-All_inv [] a = tt
    sort_by_key-All_inv (e ∷ d) a =
        let both = sort_in-All_inv e (sort_by_key r d) a in (both.0, sort_by_key-All_inv d both.1)

  After-trans : (a b : Bytes) (d : Dict ℕ) → before r b a ≡ false → After b d → After a d
  After-trans a b [] h k = tt
  After-trans a b ((j, w) ∷ d) h k = (before_trans a b j h k.0, After-trans a b d h k.1)

  sort_in-Sorted : (e : Bytes × ℕ) (d : Dict ℕ) → Sorted d → Sorted (sort_in r e d)
  unfolding sort_in
  sort_in-Sorted (fp, addr) [] s = (tt, tt)
  sort_in-Sorted (fp, addr) ((j, w) ∷ d) s = elim (Bool-cases (before r j fp)) [
    | inl h ↦ rw h (
      sort_in-All (λ e. before r e.0 j ≡ false) (fp, addr) d (before_asym j fp h) s.0,
      sort_in-Sorted (fp, addr) d s.1,
    )
    | inr h ↦ rw h ((h, After-trans fp j d h s.0), s)
  ]

  sort_by_key-Sorted : (d : Dict ℕ) → Sorted (sort_by_key r d)
  unfolding sort_by_key
  sort_by_key-Sorted [] = tt
  sort_by_key-Sorted (e ∷ d) = sort_in-Sorted e (sort_by_key r d) (sort_by_key-Sorted d)

  module _ (our_fp target_fp : Bytes) where
    find_skips :
        (o : Option (Bytes × ℕ)) (x : Bytes × ℕ) (d : Dict ℕ)
        → excluded our_fp target_fp x.0 ≡ true
        → Picked r our_fp target_fp o d
        → Picked r our_fp target_fp o (x ∷ d)
    find_skips none x d h p = (h, p)
    find_skips (some (fp, addr)) x d h p = (p.0, inr p.1, (inl h, p.2))

    find_other-Picked :
        (d : Dict ℕ) → Sorted d → Picked r our_fp target_fp (find_other our_fp target_fp d) d
    unfolding find_other
    find_other-Picked [] s = tt
    find_other-Picked ((fp, addr) ∷ d) s =
        found (equal fp our_fp) (equal fp target_fp) refl refl (find_other-Picked d s.1)
      where
        before_self : before r fp fp ≡ false
        before_self = elim (Bool-cases (before r fp fp)) [ inl h ↦ before_asym fp fp h | inr h ↦ h ]

        found :
            (a b : Bool)
            → equal fp our_fp ≡ a
            → equal fp target_fp ≡ b
            → Picked r our_fp target_fp (find_other our_fp target_fp d) d
            → Picked r our_fp target_fp
                (if not a && not b then some (fp, addr) else find_other our_fp target_fp d)
                ((fp, addr) ∷ d)
        found true b h k p =
            find_skips (find_other our_fp target_fp d) (fp, addr) d (ground arith) p
        found false true h k p =
            find_skips (find_other our_fp target_fp d) (fp, addr) d (ground arith) p
        found false false h k p =
            (ground arith, inl refl, (inr before_self, All-weaken _ _ d (λ e x. inr x) s.0))

    Picked-sort_by_key :
        (o : Option (Bytes × ℕ)) (d : Dict ℕ)
        → Picked r our_fp target_fp o (sort_by_key r d)
        → Picked r our_fp target_fp o d
    Picked-sort_by_key none d p = sort_by_key-All_inv _ d p
    Picked-sort_by_key (some (fp, addr)) d p = (
      p.0,
      among (sort_by_key r d) (sort_by_key-All (λ e. Entry e d) d (each_an_Entry d)) p.1,
      sort_by_key-All_inv _ d p.2,
    )
      where
        among : (s : Dict ℕ) → All (λ e. Entry e d) s → Entry (fp, addr) s → Entry (fp, addr) d
        among [] a h = absurd h
        among (x ∷ s) a (inl h) = subst (λ e. Entry e d) h a.0
        among (x ∷ s) a (inr h) = among s a.1 h

-- The relay picked is a candidate that is neither us nor the target, and no other such candidate
-- comes before it in the order that puts the peers with a session first and orders by name; none
-- is picked only when there is no such candidate.
pub pick_relay-Picked :
    (our_fp target_fp : Bytes) (r : DerpRelay)
    → Picked r our_fp target_fp (pick_relay our_fp target_fp r) r.candidates
unfolding pick_relay
pick_relay-Picked our_fp target_fp r = Picked-sort_by_key r our_fp target_fp _ r.candidates (
    find_other-Picked r our_fp target_fp (sort_by_key r r.candidates)
      (sort_by_key-Sorted r r.candidates))
