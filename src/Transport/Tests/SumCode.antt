-- ===== src/Transport/Tests/SumCode.antt =====
-- An erasure code with two data shards and one parity shard: the sum of the bytes, modulo 256.
use vantablack.Prelude.{
  ℕ, suc, ◌+◌, ◌-◌, ◌%◌, ◌≡◌, refl, ap, ap₂, Option, none, some, [], ◌∷◌, arith, length,
}
use vantablack.Prelude.Bytes.{Bytes}
use vantablack.Transport.Erasure.{Shards, ReedSolomon, IsErasureCode, IsBytes, OfLength}

abbrev pub add_bytes : Bytes → Bytes → Bytes
add_bytes [] bs = []
add_bytes (a ∷ xs) [] = []
add_bytes (a ∷ xs) (b ∷ bs) = (a + b) % 256 ∷ add_bytes xs bs

abbrev pub sub_bytes : Bytes → Bytes → Bytes
sub_bytes [] bs = []
sub_bytes (p ∷ ps) [] = []
sub_bytes (p ∷ ps) (b ∷ bs) = (p + 256 - b) % 256 ∷ sub_bytes ps bs

length-add_bytes : (a b : Bytes) → length a ≡ length b → length (add_bytes a b) ≡ length a
length-add_bytes [] b h = refl
length-add_bytes (x ∷ a) [] h = absurd (omega arith)
length-add_bytes (x ∷ a) (y ∷ b) h = ap suc (length-add_bytes a b (omega arith))

length-sub_bytes : (p b : Bytes) → length p ≡ length b → length (sub_bytes p b) ≡ length p
length-sub_bytes [] b h = refl
length-sub_bytes (x ∷ p) [] h = absurd (omega arith)
length-sub_bytes (x ∷ p) (y ∷ b) h = ap suc (length-sub_bytes p b (omega arith))

sub-add_first :
    (a b : Bytes) → IsBytes a → IsBytes b → length a ≡ length b → sub_bytes (add_bytes a b) b ≡ a
sub-add_first [] b ha hb h = refl
sub-add_first (x ∷ a) [] ha hb h = absurd (omega arith)
sub-add_first (x ∷ a) (y ∷ b) ha hb h =
    ap₂ (λ z c. z ∷ c) (omega arith) (sub-add_first a b ha.1 hb.1 (omega arith))

sub-add_second :
    (a b : Bytes) → IsBytes a → IsBytes b → length a ≡ length b → sub_bytes (add_bytes a b) a ≡ b
sub-add_second [] [] ha hb h = refl
sub-add_second [] (y ∷ b) ha hb h = absurd (omega arith)
sub-add_second (x ∷ a) [] ha hb h = absurd (omega arith)
sub-add_second (x ∷ a) (y ∷ b) ha hb h =
    ap₂ (λ z c. z ∷ c) (omega arith) (sub-add_second a b ha.1 hb.1 (omega arith))

abbrev fill_in : Option Bytes → Option Bytes → Option Bytes → Option Shards
fill_in none none z = none
fill_in none (some b) none = none
fill_in none (some b) (some p) =
    some (record { d0 = some (sub_bytes p b); d1 = some b; p0 = some p })
fill_in (some a) none none = none
fill_in (some a) none (some p) =
    some (record { d0 = some a; d1 = some (sub_bytes p a); p0 = some p })
fill_in (some a) (some b) none =
    some (record { d0 = some a; d1 = some b; p0 = some (add_bytes a b) })
fill_in (some a) (some b) (some p) = some (record { d0 = some a; d1 = some b; p0 = some p })

abbrev pub sum_code : ReedSolomon
sum_code = record { parity = add_bytes; recover = λ s. fill_in s.d0 s.d1 s.p0 }

length-fill_in :
    (n : ℕ) (x y z : Option Bytes) (t : Shards)
    → OfLength n (record { d0 = x; d1 = y; p0 = z })
    → fill_in x y z ≡ some t
    → OfLength n t
length-fill_in n none none z t h e = cc
length-fill_in n none (some b) none t h e = cc
length-fill_in n none (some b) (some p) t h e = let l = length-sub_bytes p b in ground arith
length-fill_in n (some a) none none t h e = cc
length-fill_in n (some a) none (some p) t h e = let l = length-sub_bytes p a in ground arith
length-fill_in n (some a) (some b) none t h e = let l = length-add_bytes a b in ground arith
length-fill_in n (some a) (some b) (some p) t h e = ground arith

pub sum_code-IsErasureCode : IsErasureCode sum_code
sum_code-IsErasureCode = record {
  length-parity = length-add_bytes;
  length-recover = λ n s t h e. length-fill_in n s.d0 s.d1 s.p0 t h e;
  recover_first = λ a b ha hb same pos.
      ap (λ c. some (record { d0 = some c; d1 = some b; p0 = some (add_bytes a b) }))
        (sub-add_first a b ha hb same);
  recover_second = λ a b ha hb same pos.
      ap (λ c. some (record { d0 = some a; d1 = some c; p0 = some (add_bytes a b) }))
        (sub-add_second a b ha hb same);
}
