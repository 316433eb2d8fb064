-- ===== src/Relay/Policy/Tests.antt =====
-- A concrete exit policy.
use vantablack.Prelude.{◌≡◌, refl, true, false, [], ◌∷◌}
use vantablack.Prelude.Bytes.{codes}
use vantablack.Relay.Policy.{ExitPolicy, new, allows}

abbrev policy : ExitPolicy
policy = new (codes " Example.org" ∷ codes "*.Example.test " ∷ codes " " ∷ [])

below : allows (codes "a.EXAMPLE.test.") policy ≡ true
unfolding allows new
below = refl

-- The suffix itself is not below the suffix.
bare : allows (codes "example.test") policy ≡ false
unfolding allows new
bare = refl
