-- ===== src/Trial.antt =====
-- Archive.cpp: the test of the trial period when the program begins.
pub mod Start
mod Examples
use sec_pro_gis.Base.{
  ℕ, suc, ◌+◌, ◌-◌, ◌*◌, ◌/◌, ◌≤◌, ◌<◌, Bool, true, false, ltb, leb, ◌==◌, if◌then◌else◌,
}
use sec_pro_gis.Base.{◌≡◌, refl, arith, ◌↔◌, lt→ltb, Bool-cases, inl, inr}

-- What the user sees: an end, a note of the days that are left, or nothing.
pub data Trial : Type 0 where
  over : Trial
  days_left : ℕ → Trial
  running : Trial

-- `endtime_64t`
abbrev pub endtime : ℕ
endtime = 2543507200

-- `span.GetDays()`: whole days; a time past the end counts as none, as every number below 1 does.
pub days : ℕ → ℕ
days now = (endtime - now) / 86400

-- The branches of `InitInstance` on the days.
pub by_days : ℕ → Trial
by_days i_day = if leb i_day 0 then over else if leb i_day 7 then days_left i_day else running

-- The trial period, at the time `now`.
pub trial : ℕ → Trial
trial now = by_days (days now)

pub begins : Trial → Bool
begins over = false
begins (days_left n) = true
begins running = true

-- The program begins exactly when a whole day is left before the end.
pub trial-begins : (now : ℕ) → (begins (trial now) ≡ true) ↔ (now + 86400 ≤ endtime)
unfolding trial by_days days begins
trial-begins now = ground arith
