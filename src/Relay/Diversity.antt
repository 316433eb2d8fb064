-- ===== src/Relay/Diversity.antt =====
-- `AsnDiversityConstraint` of src/ghost/net/relay.rs: no two shards of a group in one autonomous system.
pub mod Shards
mod Tests
use vantablack.Prelude.{
  ℕ, suc, max, Bool, true, false, not, ◌&&◌, List, [], ◌∷◌, ◌++◌, ltb, ◌==◌, if◌then◌else◌, length,
  mem,
}

pub record AsnDiversityConstraint : Type 0 where
  pub max_shards_per_asn : ℕ
  pub assigned_asns : List (ℕ × ℕ)

-- `default`
unfoldable pub default : AsnDiversityConstraint
default = record { max_shards_per_asn = 1; assigned_asns = [] }

-- `new`
unfoldable pub new : ℕ → AsnDiversityConstraint
new max_shards_per_asn = record {
  max_shards_per_asn = max max_shards_per_asn 1;
  assigned_asns = [];
}

-- `filter(|(idx, asn)| *idx != shard_index && *asn == candidate_asn).count()`
unfoldable pub count_others : ℕ → ℕ → List (ℕ × ℕ) → ℕ
count_others shard_index candidate_asn [] = 0
count_others shard_index candidate_asn ((idx, asn) ∷ l) =
    if not (idx == shard_index) && (asn == candidate_asn)
    then suc (count_others shard_index candidate_asn l)
    else count_others shard_index candidate_asn l

-- `is_asn_permitted`
unfoldable pub is_asn_permitted : ℕ → ℕ → AsnDiversityConstraint → Bool
unfolding count_others
is_asn_permitted shard_index candidate_asn c =
    ltb (count_others shard_index candidate_asn c.assigned_asns) c.max_shards_per_asn

-- `retain(|(idx, _)| *idx != shard_index)`
unfoldable pub retain_others : ℕ → List (ℕ × ℕ) → List (ℕ × ℕ)
retain_others shard_index [] = []
retain_others shard_index ((idx, asn) ∷ l) =
    if not (idx == shard_index)
    then (idx, asn) ∷ retain_others shard_index l
    else retain_others shard_index l

-- `assign_shard_asn`
unfoldable pub assign_shard_asn : ℕ → ℕ → AsnDiversityConstraint → Bool × AsnDiversityConstraint
unfolding is_asn_permitted retain_others
assign_shard_asn shard_index asn c =
    if is_asn_permitted shard_index asn c
    then (
      true,
      record c {
        assigned_asns = retain_others shard_index c.assigned_asns ++ ((shard_index, asn) ∷ []);
      },
    )
    else (false, c)

-- The loop of `is_diverse` over the set of systems seen so far.
unfoldable pub diverse_from : ℕ → List ℕ → List (ℕ × ℕ) → Bool
diverse_from max_shards seen [] = true
diverse_from max_shards seen ((idx, asn) ∷ l) =
    if mem asn seen && (max_shards == 1) then false else diverse_from max_shards (asn ∷ seen) l

-- `is_diverse`
unfoldable pub is_diverse : AsnDiversityConstraint → Bool
unfolding diverse_from
is_diverse c =
    if ltb (length c.assigned_asns) 2
    then false
    else diverse_from c.max_shards_per_asn [] c.assigned_asns
