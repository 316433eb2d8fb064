-- ===== src/Relay/Policy.antt =====
-- `ExitPolicy` of src/ghost/net/relay.rs, which says what destinations an exit serves. A text is the
-- list of its characters; a cut at a rule counts characters where the source counts bytes, which
-- comes to the same.
pub mod Hosts
mod Tests
use vantablack.Prelude.{
  ℕ, ◌+◌, ◌-◌, Bool, true, false, ◌&&◌, ◌||◌, List, [], ◌∷◌, ◌++◌, map, ltb, leb, ◌==◌,
  if◌then◌else◌, length, take, drop,
}
use vantablack.Prelude.Bytes.{codes, equal}

abbrev pub Text : Type 0
Text = List ℕ

pub record ExitPolicy : Type 0 where
  pub rules : List Text
  pub allow_any : Bool

-- The Unicode white space.
abbrev is_space : ℕ → Bool
is_space b =
    b == 32
    || (leb 9 b && leb b 13)
    || b == 133
    || b == 160
    || b == 5760
    || (leb 8192 b && leb b 8202)
    || b == 8232
    || b == 8233
    || b == 8239
    || b == 8287
    || b == 12288

abbrev trim_start : Text → Text
trim_start [] = []
trim_start (b ∷ bs) = let rest = trim_start bs in if is_space b then rest else b ∷ bs

-- `trim_end_matches`: the end is cut while its bytes pass the test.
abbrev trim_end_with : (ℕ → Bool) → Text → Text
trim_end_with p [] = []
trim_end_with p (b ∷ bs) = cut (trim_end_with p bs)
  where
    cut : Text → Text
    cut [] = if p b then [] else b ∷ []
    cut (c ∷ cs) = b ∷ c ∷ cs

-- `trim`
unfoldable pub trim : Text → Text
trim bs = trim_end_with is_space (trim_start bs)

-- `to_ascii_lowercase`
unfoldable pub to_ascii_lowercase : Text → Text
to_ascii_lowercase [] = []
to_ascii_lowercase (b ∷ bs) = (if leb 65 b && leb b 90 then b + 32 else b) ∷ to_ascii_lowercase bs

abbrev keep_full : List Text → List Text
keep_full [] = []
keep_full (rule ∷ rules) = if length rule == 0 then keep_full rules else rule ∷ keep_full rules

abbrev pub any_rule : (Text → Bool) → List Text → Bool
any_rule p [] = false
any_rule p (rule ∷ rules) = p rule || any_rule p rules

-- `new`
unfoldable pub new : List Text → ExitPolicy
unfolding trim to_ascii_lowercase
new texts =
    let rules = keep_full (map (λ rule. to_ascii_lowercase (trim rule)) texts) in
    record { rules = rules; allow_any = any_rule (λ rule. equal rule (codes "any")) rules }

-- `ends_with`
abbrev pub ends_with : Text → Text → Bool
ends_with host suffix =
    leb (length suffix) (length host) && equal (drop (length host - length suffix) host) suffix

-- The test of one rule.
unfoldable pub matches : Text → Text → Bool
matches host rule =
    if leb 2 (length rule) && equal (take 2 rule) (codes "*.")
    then (let suffix = drop 2 rule in
        ends_with host (codes "." ++ suffix) && ltb (length suffix + 1) (length host))
    else equal host rule

-- The host as the rules are tried on it.
unfoldable pub host_name : Text → Text
unfolding trim to_ascii_lowercase
host_name host = to_ascii_lowercase (trim_end_with (λ b. b == 46) (trim host))

-- `allows`
unfoldable pub allows : Text → ExitPolicy → Bool
unfolding host_name matches
allows host policy = policy.allow_any || any_rule (matches (host_name host)) policy.rules
