-- ===== src/Relay/Policy/Hosts.antt =====
-- Which hosts a rule of src/ghost/net/relay.rs lets through.
use vantablack.Prelude.{◌≤◌, ◌≡◌, Bool, false, ◌&&◌, List, [], ◌∷◌, ◌++◌, leb, length, take, ◌⊎◌}
use vantablack.Prelude.Bytes.{codes, equal}
use vantablack.Relay.Policy.{Text}

abbrev is_wildcard : Text → Bool
is_wildcard rule = leb 2 (length rule) && equal (take 2 rule) (codes "*.")

-- What a rule means: the host itself, or for `*.suffix` any host below the suffix.
abbrev pub Serves : Text → Text → Type 0
Serves host rule =
    ((is_wildcard rule ≡ false) × (host ≡ rule))
    ⊎ ((front : Text) × (suffix : Text) × (rule ≡ codes "*." ++ suffix)
        × (1 ≤ length front)
        × (host ≡ front ++ (codes "." ++ suffix)))

-- Some rule of a list serves the host.
abbrev pub Served : Text → List Text → Type 0
Served host [] = ⊥
Served host (rule ∷ rules) = Serves host rule ⊎ Served host rules
