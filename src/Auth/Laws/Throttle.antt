-- ===== src/Auth/Laws/Throttle.antt =====
-- `useIdleTimeout`: how often it asks, and when it warns.
use guardian_cloud.Prelude.{ℕ, ◌+◌, ◌*◌, ◌≤◌, ◌≡◌, ◌↔◌, true, some, List, [], ◌∷◌, arith}
use guardian_cloud.Auth.Idle.{seconds_remaining, warning, Activity, on_activity, activities}

abbrev pub AllUpTo : ℕ → List ℕ → Type 0
AllUpTo t [] = Unit
AllUpTo t (now ∷ later) = (now ≤ t) × AllUpTo t later

on_activity_rate :
    (t now : ℕ) (a : Activity)
    → now ≤ t
    → a.last_ping ≤ t
    → ((on_activity now a).last_ping ≤ t)
      × ((on_activity now a).pings * 60000 + a.last_ping
          ≤ a.pings * 60000 + (on_activity now a).last_ping)
unfolding on_activity
on_activity_rate t now a w h = ground arith

-- Up to a time that no event and no earlier refresh is after, each refresh has taken a minute: the
-- refreshes since the start, in minutes, fit in the time since the last one before.
pub activities_rate :
    (t : ℕ) (times : List ℕ) (a : Activity)
    → AllUpTo t times
    → a.last_ping ≤ t
    → (activities times a).pings * 60000 + a.last_ping ≤ a.pings * 60000 + t
unfolding activities
activities_rate t [] a w h = omega arith
activities_rate t (now ∷ later) a w h =
    let (below, paid) = on_activity_rate t now a w.0 h in
    let rest = activities_rate t later (on_activity now a) w.1 below in omega arith

-- The warning is on exactly from 60.499 seconds before the deadline on.
pub warning_iff :
    (deadline now : ℕ)
    → (warning (some (seconds_remaining deadline now)) ≡ true) ↔ (deadline ≤ now + 60499)
unfolding warning seconds_remaining
warning_iff deadline now = ground arith
