-- ===== src/Relay/Diversity/Shards.antt =====
-- Histories of assignments (`AsnDiversityConstraint`, src/ghost/net/relay.rs).
use vantablack.Prelude.{
  ℕ, ◌≡◌, refl, true, false, not, List, [], ◌∷◌, ◌++◌, arith, ltb, ◌==◌, length, map, mem, Distinct,
  All,
}
use vantablack.Relay.Diversity.{
  AsnDiversityConstraint, default, count_others, is_asn_permitted, retain_others, assign_shard_asn,
  diverse_from, is_diverse,
}

abbrev pub asns : List (ℕ × ℕ) → List ℕ
asns l = map (λ e. e.1) l

mem-retain_others :
    (i a x : ℕ) (l : List (ℕ × ℕ))
    → mem x (asns l) ≡ false
    → mem x (asns (retain_others i l)) ≡ false
unfolding retain_others
mem-retain_others i a x [] h = refl
mem-retain_others i a x ((j, b) ∷ l) h = ground (arith, mem-retain_others i a x l)

Distinct-retain_others :
    (i : ℕ) (l : List (ℕ × ℕ)) → Distinct (asns l) → Distinct (asns (retain_others i l))
unfolding retain_others
Distinct-retain_others i [] d = tt
Distinct-retain_others i ((j, b) ∷ l) d =
    ground (arith, Distinct-retain_others i l, mem-retain_others i b b l)

none_left :
    (i a : ℕ) (l : List (ℕ × ℕ)) → count_others i a l ≡ 0 → mem a (asns (retain_others i l)) ≡ false
unfolding count_others retain_others
none_left i a [] h = refl
none_left i a ((j, b) ∷ l) h = ground (arith, none_left i a l)

mem-push :
    (x i a : ℕ) (l : List (ℕ × ℕ))
    → mem x (asns l) ≡ false
    → (a == x) ≡ false
    → mem x (asns (l ++ ((i, a) ∷ []))) ≡ false
mem-push x i a [] h ne = ground arith
mem-push x i a ((j, b) ∷ l) h ne = ground (arith, mem-push x i a l)

Distinct-push :
    (i a : ℕ) (l : List (ℕ × ℕ))
    → Distinct (asns l)
    → mem a (asns l) ≡ false
    → Distinct (asns (l ++ ((i, a) ∷ [])))
Distinct-push i a [] d h = (refl, tt)
Distinct-push i a ((j, b) ∷ l) d h = ground (arith, Distinct-push i a l, mem-push b i a l)

-- The default constraint: one shard for each system.
pub record IsStrict (c : AsnDiversityConstraint) : Type 0 where
  pub one : c.max_shards_per_asn ≡ 1
  pub apart : Distinct (asns c.assigned_asns)

assign-IsStrict :
    (i a : ℕ) (c : AsnDiversityConstraint) → IsStrict c → IsStrict (assign_shard_asn i a c).1
unfolding assign_shard_asn is_asn_permitted
assign-IsStrict i a c v = ground (
  arith,
  v.one,
  none_left i a c.assigned_asns,
  Distinct-retain_others i c.assigned_asns v.apart,
  Distinct-push i a (retain_others i c.assigned_asns),
)

unfoldable pub assign_all : List (ℕ × ℕ) → AsnDiversityConstraint → AsnDiversityConstraint
assign_all [] c = c
assign_all ((i, a) ∷ l) c = assign_all l (assign_shard_asn i a c).1

assign_all-IsStrict :
    (l : List (ℕ × ℕ)) (c : AsnDiversityConstraint) → IsStrict c → IsStrict (assign_all l c)
unfolding assign_all
assign_all-IsStrict [] c v = v
assign_all-IsStrict ((i, a) ∷ l) c v =
    assign_all-IsStrict l (assign_shard_asn i a c).1 (assign-IsStrict i a c v)

-- Systems that no later shard uses can be seen.
abbrev Fresh : List ℕ → List (ℕ × ℕ) → Type 0
Fresh seen l = All (λ e. mem e.1 seen ≡ false) l

Fresh-cons :
    (a : ℕ) (seen : List ℕ) (l : List (ℕ × ℕ))
    → mem a (asns l) ≡ false
    → Fresh seen l
    → Fresh (a ∷ seen) l
Fresh-cons a seen [] h f = tt
Fresh-cons a seen ((j, b) ∷ l) h f = (ground (arith, f.0), Fresh-cons a seen l (ground arith) f.1)

diverse-Distinct :
    (n : ℕ) (seen : List ℕ) (l : List (ℕ × ℕ))
    → Distinct (asns l)
    → Fresh seen l
    → diverse_from n seen l ≡ true
unfolding diverse_from
diverse-Distinct n seen [] d f = refl
diverse-Distinct n seen ((j, b) ∷ l) d f =
    let rest = diverse-Distinct n (b ∷ seen) l d.1 (Fresh-cons b seen l d.0 f.1) in
    ground (arith, f.0, rest)

Fresh-nil : (l : List (ℕ × ℕ)) → Fresh [] l
Fresh-nil [] = tt
Fresh-nil (e ∷ l) = (refl, Fresh-nil l)

-- Under the default constraint, after any sequence of assignments, no two shards are in one
-- autonomous system, and the flight counts as diverse exactly if at least two shards are
-- assigned.
pub is_diverse-assign_all :
    (l : List (ℕ × ℕ))
    → Distinct (asns (assign_all l default).assigned_asns)
      × (is_diverse (assign_all l default)
          ≡ not (ltb (length (assign_all l default).assigned_asns) 2))
unfolding is_diverse
is_diverse-assign_all l =
    let v =
      assign_all-IsStrict l default
        (record { one = unfold default in refl; apart = unfold default in tt }) in
    let d =
      diverse-Distinct (assign_all l default).max_shards_per_asn []
        (assign_all l default).assigned_asns v.apart (Fresh-nil _) in
    (v.apart, ground (arith, d))
