-- ===== src/Session/Guard/Wide.antt =====
-- `SessionGuardU64` of src/ghost/layers/l6_session.rs: the same window over 64-bit counters.
use vantablack.Prelude.{
  ℕ, ◌-◌, ◌*◌, ◌%◌, ◌^◌, Bool, true, false, not, ◌&&◌, bit_and, bit_or, ◌≡◌, arith, ltb, leb, ◌==◌,
  if◌then◌else◌, inl, inr, Bool-cases,
}
use vantablack.Session.Guard
use vantablack.Session.Guard.{SessionGuard, session_hard_timeout, session_idle_timeout, u32_max}

pub record SessionGuardU64 : Type 0 where
  pub start_time : ℕ
  pub last_activity : ℕ
  pub v_max : ℕ
  pub bitmask : ℕ

-- `SessionGuardU64::new`
unfoldable pub new : ℕ → ℕ → SessionGuardU64
new t₀ t₁ = record { start_time = t₀; last_activity = t₁; v_max = 0; bitmask = 0 }

-- `SessionGuardU64::is_valid`
pub is_valid : ℕ → SessionGuardU64 → Bool
is_valid now g =
    ltb (now - g.start_time) session_hard_timeout
    && ltb (now - g.last_activity) session_idle_timeout

-- `SessionGuardU64::check_and_update`
pub check_and_update : ℕ → ℕ → SessionGuardU64 → ℕ → Bool × SessionGuardU64
unfolding is_valid
check_and_update now at g counter =
    if not (is_valid now g)
    then (false, g)
    else if ltb counter (v_max - 128)
    then (false, g)
    else if ltb v_max counter
    then (
      true,
      record g {
        bitmask =
            if leb 128 (counter - v_max)
            then 1
            else bit_or (bitmask * 2 ^ (counter - v_max) % 2 ^ 128) 1;
        v_max = counter;
        last_activity = at;
      },
    )
    else if leb 128 (v_max - counter)
    then (false, g)
    else if not (bit_and bitmask (2 ^ (v_max - counter)) == 0)
    then (false, g)
    else (true, record g { bitmask = bit_or bitmask (2 ^ (v_max - counter)); last_activity = at })
  where
    open g use {v_max, bitmask}

-- `SessionGuardU64::reset`
unfoldable pub reset : ℕ → ℕ → SessionGuardU64 → SessionGuardU64
reset t₀ t₁ g = record g { start_time = t₀; last_activity = t₁; v_max = 0; bitmask = 0 }

abbrev pub widen : SessionGuard → SessionGuardU64
widen g = record {
  start_time = g.start_time;
  last_activity = g.last_activity;
  v_max = g.v_max;
  bitmask = g.bitmask;
}

-- The 64-bit entry of the 32-bit guard refuses a counter that does not fit 32 bits and changes
-- nothing; on any other counter it answers as the 64-bit guard does and leaves the same state.
pub check_and_update_u64-widen :
    (now at : ℕ) (g : SessionGuard) (counter : ℕ)
    → let (accepted, g') = Guard.check_and_update_u64 now at g counter in
      (accepted, widen g') ≡ (
        if ltb u32_max counter then (false, widen g) else check_and_update now at (widen g) counter)
unfolding check_and_update Guard.check_and_update_u64
check_and_update_u64-widen now at g counter = elim (Bool-cases (ltb u32_max counter)) [
  | inl large ↦ ground arith
  | inr fits ↦ let e : counter % 2 ^ 32 ≡ counter = ground arith in ground (arith, e)
]
