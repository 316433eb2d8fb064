-- ===== src/Session/Guard/Runs.antt =====
-- Histories of one session guard (src/ghost/layers/l6_session.rs).
use vantablack.Prelude.{
  ℕ, Bool, true, false, List, [], ◌∷◌, ◌≡◌, refl, inl, inr, arith, if◌then◌else◌, Bool-cases, mem,
  Distinct,
}
use vantablack.Prelude.Bits.{bit-zero}
use vantablack.Session.Guard.{SessionGuard, new, is_valid, check_and_update}
use vantablack.Session.Guard.Replay.{admits, observe, Refines, mem-le-newest, slide-Agrees}

pub new-Refines : (t₀ t₁ : ℕ) → Refines (new t₀ t₁) []
unfolding new
new-Refines t₀ t₁ = record { highest = refl; bits = λ j hj hc. bit-zero j }

-- A guard that agrees with a list of the counters accepted so far answers, while the session is
-- alive, as the guard that remembers them all does, and goes on agreeing with it; after a timeout
-- it accepts nothing and stays as it was.
pub check_and_update-Refines :
    (now at : ℕ) (g : SessionGuard) (seen : List ℕ) (c : ℕ)
    → Refines g seen
    → let (accepted, g') = check_and_update now at g c in
      (accepted ≡ (if is_valid now g then admits seen c else false))
      × Refines g' (if is_valid now g then observe seen c else seen)
unfolding check_and_update
check_and_update-Refines now at g seen c r = elim (Bool-cases (is_valid now g)) [
  | inl alive ↦ rw (alive, check_and_update) (slide-Agrees at g seen c r)
  | inr over ↦ rw (over, check_and_update) (refl, r)
]

-- One frame: the two readings of the clock and its counter.
pub record Arrival : Type 0 where
  pub now : ℕ
  pub at : ℕ
  pub counter : ℕ

-- The counters that a guard accepts from a list of arrivals, newest first, on top of `seen`.
unfoldable pub accept_all : SessionGuard → List ℕ → List Arrival → List ℕ
accept_all g seen [] = seen
accept_all g seen (a ∷ rest) =
    let (accepted, g') = check_and_update a.now a.at g a.counter in
    accept_all g' (if accepted then a.counter ∷ seen else seen) rest

-- A counter that is admitted was not admitted before.
observe-Distinct :
    (seen : List ℕ) (c : ℕ) → Distinct seen → admits seen c ≡ true → mem c seen ≡ false
observe-Distinct seen c d h = unfold admits in ground (arith, mem-le-newest c seen)

step_cases :
    (seen : List ℕ) (c : ℕ) (g : SessionGuard)
    → Distinct seen
    → (valid accepted : Bool) → accepted ≡ (if valid then admits seen c else false)
    → Refines g (if valid then observe seen c else seen)
    → Refines g (if accepted then c ∷ seen else seen)
      × Distinct (if accepted then c ∷ seen else seen)
unfolding observe
step_cases seen c g d false accepted e r = rw e (r, d)
step_cases seen c g d true accepted e r = elim (Bool-cases (admits seen c)) [
  | inl new' ↦ rw (e, new') (rw (observe, new') at r, (observe-Distinct seen c d new', d))
  | inr old ↦ rw (e, old) (rw (observe, old) at r, d)
]

-- One arrival keeps the accepted counters distinct and the guard in step with them.
check_and_update-Distinct :
    (now at : ℕ) (g : SessionGuard) (seen : List ℕ) (c : ℕ)
    → Refines g seen
    → Distinct seen
    → let (accepted, g') = check_and_update now at g c in
      Refines g' (if accepted then c ∷ seen else seen)
      × Distinct (if accepted then c ∷ seen else seen)
check_and_update-Distinct now at g seen c r d =
    let (e, r') = check_and_update-Refines now at g seen c r in
    step_cases seen c _ d (is_valid now g) _ e r'

accept_all-Distinct :
    (arrivals : List Arrival) (g : SessionGuard) (seen : List ℕ)
    → Refines g seen
    → Distinct seen
    → Distinct (accept_all g seen arrivals)
unfolding accept_all
accept_all-Distinct [] g seen r d = d
accept_all-Distinct (a ∷ rest) g seen r d =
    let step = check_and_update-Distinct a.now a.at g seen a.counter r d in
    accept_all-Distinct rest _ _ step.0 step.1

-- From a new session guard on, over any list of frames and whatever the clock reads, no counter
-- is accepted twice.
pub no_replay :
    (t₀ t₁ : ℕ) (arrivals : List Arrival) → Distinct (accept_all (new t₀ t₁) [] arrivals)
no_replay t₀ t₁ arrivals = accept_all-Distinct arrivals _ [] (new-Refines t₀ t₁) tt
