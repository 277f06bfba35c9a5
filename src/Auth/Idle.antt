-- ===== src/Auth/Idle.antt =====
-- `useIdleTimeout` (web/src/auth/useIdleTimeout.ts): the countdown, and the throttled refresh.
use guardian_cloud.Prelude.{
  ℕ, suc, ◌+◌, ◌-◌, ◌/◌, Bool, false, Option, none, some, List, [], ◌∷◌, leb, ltb, if◌then◌else◌,
}

-- `Math.max(0, Math.round((deadline - now) / 1000))`: a half is rounded up, and a deadline that has
-- passed gives 0, as the subtraction here does.
unfoldable pub seconds_remaining : ℕ → ℕ → ℕ
seconds_remaining deadline now = (deadline - now + 500) / 1000

-- `warning`, where no deadline stands for infinitely many seconds
unfoldable pub warning : Option ℕ → Bool
warning none = false
warning (some seconds) = leb seconds 60

-- One life of the effect that listens to the user's activity; `pings` counts its refreshes.
pub record Activity : Type 0 where
  pub last_ping : ℕ
  pub pings : ℕ

unfoldable pub on_activity : ℕ → Activity → Activity
on_activity now a =
    if ltb (now - a.last_ping) 60000 then a else record { last_ping = now; pings = suc a.pings }

-- the events at a list of times, in order
unfoldable pub activities : List ℕ → Activity → Activity
unfolding on_activity
activities [] a = a
activities (now ∷ later) a = activities later (on_activity now a)
