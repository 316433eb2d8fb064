-- ===== src/Traversal/Stun/Types.antt =====
-- The type field of a STUN message: method and class interleaved, for every word of the width.
use vantablack.Prelude.{ℕ, ◌<◌, ◌≡◌, refl, Bool, true, ◌&&◌, ◌==◌, ==_iff, arith}
use vantablack.Prelude.Tables.{tabulated, tabulated_lem}
use vantablack.Traversal.Stun.{
  Class, request, indication, success_response, error_response, bits, message_type, method, class,
}

bits_inj : (c d : Class) → (bits c == bits d) ≡ true → c ≡ d
bits_inj request request h = refl
bits_inj indication indication h = refl
bits_inj success_response success_response h = refl
bits_inj error_response error_response h = refl
bits_inj c d h = ground arith

abbrev keeps : Class → ℕ → Bool
keeps c m = method (message_type m c) == m && bits (class (message_type m c)) == bits c

table : (c : Class) → tabulated (keeps c) 4096 ≡ true
unfolding tabulated message_type method class
table request = refl
table indication = refl
table success_response = refl
table error_response = refl

both : (a b : Bool) → (a && b) ≡ true → (a ≡ true) × (b ≡ true)
both a b h = ground arith

pub message_type_fields :
    (m : ℕ) (c : Class)
    → m < 4096
    → (method (message_type m c) ≡ m) × (class (message_type m c) ≡ c)
message_type_fields m c h =
    let held =
      both (method (message_type m c) == m) (bits (class (message_type m c)) == bits c)
        (tabulated_lem (keeps c) h (table c)) in
    ((==_iff _ m).0 held.0, bits_inj _ c held.1)

abbrev kept : ℕ → Bool
kept t = message_type (method t) (class t) == t

kept_table : tabulated kept 16384 ≡ true
unfolding tabulated message_type method class
kept_table = refl

-- Every type of 14 bits is the type of its method and class.
pub message_type-method : (t : ℕ) → t < 16384 → message_type (method t) (class t) ≡ t
message_type-method t h = (==_iff _ t).0 (tabulated_lem kept h kept_table)
