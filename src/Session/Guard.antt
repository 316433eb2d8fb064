-- ===== src/Session/Guard.antt =====
-- The L6 session guard (src/ghost/layers/l6_session.rs): a 128-entry replay window and two timeouts.
-- An `Instant` is a number of nanoseconds; each reading of the clock is an argument, in the order
-- in which the code takes them. `duration_since` saturates at zero, as `-` does.
pub mod Replay
pub mod Runs
pub mod Wide
use vantablack.Prelude.{
  ℕ, ◌-◌, ◌*◌, ◌%◌, ◌^◌, Bool, true, false, not, ◌&&◌, bit_and, bit_or, ltb, leb, ◌==◌,
  if◌then◌else◌,
}

-- `WINDOW_SIZE`
abbrev pub window_size : ℕ
window_size = 128

-- `SESSION_HARD_TIMEOUT`, 24 hours
abbrev pub session_hard_timeout : ℕ
session_hard_timeout = 86400 * 1_000_000_000

-- `SESSION_IDLE_TIMEOUT`, 2 minutes
abbrev pub session_idle_timeout : ℕ
session_idle_timeout = 120 * 1_000_000_000

abbrev pub u32_max : ℕ
u32_max = 2 ^ 32 - 1

pub record SessionGuard : Type 0 where
  pub start_time : ℕ
  pub last_activity : ℕ
  pub v_max : ℕ
  pub bitmask : ℕ

-- `SessionGuard::new` reads the clock twice.
unfoldable pub new : ℕ → ℕ → SessionGuard
new t₀ t₁ = record { start_time = t₀; last_activity = t₁; v_max = 0; bitmask = 0 }

unfoldable pub is_valid : ℕ → SessionGuard → Bool
is_valid now g =
    ltb (now - g.start_time) session_hard_timeout
    && ltb (now - g.last_activity) session_idle_timeout

-- What `check_and_update` does once the session is known to be alive; `at` is the second reading
-- of the clock, taken on acceptance. `bitmask << shift` drops what leaves the 128 bits.
unfoldable pub slide : ℕ → SessionGuard → ℕ → Bool × SessionGuard
slide at g counter =
    if ltb counter (v_max - window_size)
    then (false, g)
    else if ltb v_max counter
    then (
      true,
      record g {
        bitmask =
            if leb window_size (counter - v_max)
            then 1
            else bit_or (bitmask * 2 ^ (counter - v_max) % 2 ^ 128) 1;
        v_max = counter;
        last_activity = at;
      },
    )
    else if leb window_size (v_max - counter)
    then (false, g)
    else if not (bit_and bitmask (2 ^ (v_max - counter)) == 0)
    then (false, g)
    else (true, record g { bitmask = bit_or bitmask (2 ^ (v_max - counter)); last_activity = at })
  where
    open g use {v_max, bitmask}

-- `SessionGuard::check_and_update`
unfoldable pub check_and_update : ℕ → ℕ → SessionGuard → ℕ → Bool × SessionGuard
unfolding is_valid slide
check_and_update now at g counter = if not (is_valid now g) then (false, g) else slide at g counter

-- `SessionGuard::check_and_update_u64`: the counter is cast to 32 bits only if it fits.
unfoldable pub check_and_update_u64 : ℕ → ℕ → SessionGuard → ℕ → Bool × SessionGuard
unfolding check_and_update
check_and_update_u64 now at g counter =
    if ltb u32_max counter then (false, g) else check_and_update now at g (counter % 2 ^ 32)

-- `SessionGuard::reset`
unfoldable pub reset : ℕ → ℕ → SessionGuard → SessionGuard
reset t₀ t₁ g = record g { start_time = t₀; last_activity = t₁; v_max = 0; bitmask = 0 }
