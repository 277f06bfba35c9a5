-- ===== src/SignIn/Laws/Lockouts.antt =====
-- How a lockout begins and ends on the staff's sign-in page.
use Prim.Native.String.{count}
use guardian_cloud.Prelude.{
  ◌≡◌, refl, ◌∙◌, ap, true, false, Option, none, some, List, [], ◌∷◌, String, ltb, ◌==◌,
  ◌otherwise◌, arith, ℕ, zero, suc, ◌-◌, ◌<◌, includes, trim, if◌then◌else◌,
}
use guardian_cloud.Client.Request.{ApiError, Outcome}
use guardian_cloud.Auth.State.{Environment}
use guardian_cloud.Auth.Provider.{LoginEnd, login, clear_ended_reason}
use guardian_cloud.SignIn.Common.{tick_lockout, is_locked_out}
use guardian_cloud.SignIn.Staff.{StaffState, after_login, submit_staff}
use guardian_cloud.SignIn.StaffActions.{StaffAction, act_staff, run_staff}

-- `k` rounds of the interval
abbrev pub rounds : ℕ → List StaffAction
rounds zero = []
rounds (suc k) = StaffAction.tick ∷ rounds k

-- what is left of `n` seconds after `k` rounds
abbrev pub left_of : ℕ → ℕ → Option ℕ
left_of n k = if ltb k n then some (n - k) else none

run_staff_idle :
    (env : Environment) (r : String) (k : ℕ) (st : StaffState)
    → st.lockout_seconds ≡ none
    → (run_staff env r (rounds k) st).lockout_seconds ≡ none
unfolding run_staff act_staff tick_lockout
run_staff_idle env r zero st e = e
run_staff_idle env r (suc k) st e =
    run_staff_idle env r k (record st { lockout_seconds = tick_lockout st.lockout_seconds })
      (rw e refl)

run_staff_left :
    (env : Environment) (r : String) (k n : ℕ) (st : StaffState)
    → st.lockout_seconds ≡ some (suc n)
    → (run_staff env r (rounds k) st).lockout_seconds ≡ left_of (suc n) k
unfolding run_staff act_staff tick_lockout
run_staff_left env r zero n st e = e ∙ ground arith
run_staff_left env r (suc k) zero st e =
    run_staff_idle env r k (record st { lockout_seconds = tick_lockout st.lockout_seconds })
      (rw e refl)
    ∙ ground arith
run_staff_left env r (suc k) (suc n) st e =
    run_staff_left env r k n (record st { lockout_seconds = tick_lockout st.lockout_seconds })
      (rw e refl)
    ∙ ground arith

locked_while : (x : ℕ) → 0 < x → is_locked_out (some x) ≡ true
locked_while zero h = ground (arith, h)
locked_while (suc x) h = refl

left_while : (n k : ℕ) → ltb k n ≡ true → is_locked_out (left_of n k) ≡ true
left_while n k h = rw h (locked_while (n - k) (ground (arith, h)))

submit_refused :
    (env : Environment) (r : String) (st : StaffState)
    → is_locked_out st.lockout_seconds ≡ true
    → act_staff env r StaffAction.submit st ≡ st
unfolding act_staff
submit_refused env r st e = rw e (ground arith)

-- A submission that the API answers with status 423 begins a lockout of the seconds that it names, or
-- of 60. After `k` rounds of the interval the seconds left are these less `k`, and none once `k` reaches them; until
-- then the button for the sign-in does nothing.
pub submit_staff_lockout :
    (env : Environment) (return_to : String) (st : StaffState) (e : ApiError) (n k : ℕ)
    → includes st.email "@" ≡ true
    → ltb (count st.password) 8 ≡ false
    → (login env (trim st.email) st.password (clear_ended_reason st.auth)).0
      ≡ LoginEnd.threw (Outcome.api_error e)
    → (e.status == 423) ≡ true
    → (e.retry_after_seconds otherwise 60) ≡ suc n
    → let st2 = run_staff env return_to (rounds k) (submit_staff env return_to st) in
      (st2.lockout_seconds ≡ (if ltb k (suc n) then some (suc n - k) else none))
      × (ltb k (suc n) ≡ true → act_staff env return_to StaffAction.submit st2 ≡ st2)
unfolding submit_staff after_login
submit_staff_lockout env r st e n k at_sign long end status seconds =
    let locked : (submit_staff env r st).lockout_seconds ≡ some (suc n) =
      rw at_sign (rw long (rw end (ground (arith, status, seconds)))) in
    let left = run_staff_left env r k n (submit_staff env r st) locked in
    (left, λ h. submit_refused env r _ (ap is_locked_out left ∙ left_while (suc n) k h))
