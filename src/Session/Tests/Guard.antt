-- ===== src/Session/Tests/Guard.antt =====
-- Runs of the session guard.
use vantablack.Prelude.{
  ℕ, false, List, [], ◌∷◌, ◌^◌, ◌+◌, ◌*◌, ◌≡◌, refl, ltb, if◌then◌else◌, Distinct,
}
use vantablack.Session.Guard
use vantablack.Session.Guard.{SessionGuard, u32_max}
use vantablack.Session.Guard.Wide
use vantablack.Session.Guard.Replay.{admits, observe, Refines}
use vantablack.Session.Guard.Wide.{widen, check_and_update_u64-widen}
use vantablack.Session.Guard.Runs.{
  Arrival, accept_all, new-Refines, check_and_update-Refines, no_replay,
}

abbrev fresh : SessionGuard
fresh = record { start_time = 0; last_activity = 0; v_max = 0; bitmask = 0 }

abbrev at_time : ℕ → ℕ → Arrival
at_time now counter = record { now = now; at = now; counter = counter }

-- A repeat, a jump past the window, and a counter that has fallen out of it.
abbrev frames : List Arrival
frames = at_time 1 5 ∷ at_time 2 5 ∷ at_time 3 3 ∷ at_time 4 300 ∷ at_time 5 3 ∷ at_time 6 299 ∷ []

accept_all-frames : accept_all fresh [] frames ≡ 299 ∷ 300 ∷ 3 ∷ 5 ∷ []
unfolding accept_all Guard.check_and_update
accept_all-frames = refl

-- Two minutes without a frame end the session.
idle : Guard.check_and_update (120 * 1_000_000_000) 0 fresh 1 ≡ (false, fresh)
unfolding Guard.check_and_update
idle = refl

no_replay_example : Distinct (accept_all (Guard.new 0 0) [] frames)
no_replay_example = no_replay 0 0 frames

check_and_update-Refines_example :
    let (accepted, g') = Guard.check_and_update 1 2 (Guard.new 0 0) 7 in
    (accepted ≡ (if Guard.is_valid 1 (Guard.new 0 0) then admits [] 7 else false))
    × Refines g' (if Guard.is_valid 1 (Guard.new 0 0) then observe [] 7 else [])
check_and_update-Refines_example =
    check_and_update-Refines 1 2 (Guard.new 0 0) [] 7 (new-Refines 0 0)

check_and_update_u64-widen_example :
    let (accepted, g') = Guard.check_and_update_u64 1 2 fresh (2 ^ 32 + 5) in
    (accepted, widen g') ≡ (
      if ltb u32_max (2 ^ 32 + 5)
      then (false, widen fresh)
      else Wide.check_and_update 1 2 (widen fresh) (2 ^ 32 + 5))
check_and_update_u64-widen_example = check_and_update_u64-widen 1 2 fresh (2 ^ 32 + 5)
