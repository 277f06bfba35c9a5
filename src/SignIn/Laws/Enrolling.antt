-- ===== src/SignIn/Laws/Enrolling.antt =====
-- The pages that enrol an authenticator.
use guardian_cloud.Prelude.{
  ◌≡◌, ◌≤◌, refl, Bool, true, false, not, ◌&&◌, Option, none, some, List, [], ◌∷◌, String, arith,
  one_if, ◌+◌,
}
use guardian_cloud.Auth.State.{AuthState, Environment}
use guardian_cloud.SignIn.Common.{LocationState, Ended, Enrollment}
use guardian_cloud.SignIn.Enrolment.{
  EnrolTexts, EnrolState, open_enrol, start_enrolment, enrolment_started, has_recovery_codes,
  verify_enrolment, finish_enrolment, type_enrolment_code,
}
use guardian_cloud.SignIn.Laws.Admission.{has_left, no_departure}
use guardian_cloud.SignIn.Laws.Enrolments.{count_starts}

pub data EnrolAction : Type 0 where
  effect press_finish : EnrolAction
  started : Ended Enrollment → EnrolAction
  type_code : String → EnrolAction
  verify : Ended (List String) → EnrolAction

abbrev pub act_enrol : EnrolTexts → Environment → EnrolAction → EnrolState → EnrolState
act_enrol page env EnrolAction.effect = start_enrolment
act_enrol page env EnrolAction.press_finish = finish_enrolment env
act_enrol page env (EnrolAction.started answer) = enrolment_started page answer
act_enrol page env (EnrolAction.type_code t) = type_enrolment_code t
act_enrol page env (EnrolAction.verify answer) = verify_enrolment page answer

abbrev pub run_enrol : EnrolTexts → Environment → List EnrolAction → EnrolState → EnrolState
run_enrol page env [] st = st
run_enrol page env (a ∷ later) st = run_enrol page env later (act_enrol page env a st)

abbrev has_enrollment : Option Enrollment → Bool
has_enrollment none = false
has_enrollment (some _) = true

-- One start at most; the codes only after one was answered, and a departure only after the codes.
abbrev IsOrdered : EnrolState → Type 0
IsOrdered st =
    (count_starts st.requests + one_if (not st.started) ≤ 1)
    × ((has_recovery_codes st && not (has_enrollment st.enrollment)) ≡ false)
    × ((has_left st.departures && not (has_recovery_codes st)) ≡ false)

act_enrol-IsOrdered :
    (page : EnrolTexts) (env : Environment) (a : EnrolAction) (st : EnrolState)
    → IsOrdered st
    → IsOrdered (act_enrol page env a st)
unfolding start_enrolment finish_enrolment enrolment_started verify_enrolment
act_enrol-IsOrdered page env EnrolAction.effect st w = ground (arith, w)
act_enrol-IsOrdered page env EnrolAction.press_finish st w = ground (arith, w)
act_enrol-IsOrdered page env (EnrolAction.started (Ended.answered e)) st w = ground (arith, w)
act_enrol-IsOrdered page env (EnrolAction.started (Ended.threw o)) st w = ground (arith, w)
act_enrol-IsOrdered page env (EnrolAction.type_code t) st w = w
act_enrol-IsOrdered page env (EnrolAction.verify (Ended.answered e)) st w = ground (arith, w)
act_enrol-IsOrdered page env (EnrolAction.verify (Ended.threw o)) st w = ground (arith, w)

run_enrol-IsOrdered :
    (page : EnrolTexts) (env : Environment) (actions : List EnrolAction) (st : EnrolState)
    → IsOrdered st
    → IsOrdered (run_enrol page env actions st)
run_enrol-IsOrdered page env [] st w = w
run_enrol-IsOrdered page env (a ∷ later) st w =
    run_enrol-IsOrdered page env later (act_enrol page env a st)
      (act_enrol-IsOrdered page env a st w)

codes_seen : (left seen : Bool) → (left && not seen) ≡ false → left ≡ true → seen ≡ true
codes_seen left seen h l = ground (arith, h, l)

-- A page of the enrolment, of either plane, starts one enrolment at most, however often its effect
-- runs, and does not leave before it has shown the recovery codes.
pub run_enrol_once :
    (page : EnrolTexts) (env : Environment) (actions : List EnrolAction) (state : LocationState)
    (auth : AuthState)
    → let st = run_enrol page env actions (open_enrol page state auth) in
      (count_starts st.requests ≤ 1) × (has_recovery_codes st ≡ false → st.departures ≡ [])
run_enrol_once page env actions state auth =
    let st = run_enrol page env actions (open_enrol page state auth) in
    let w =
      run_enrol-IsOrdered page env actions (open_enrol page state auth) (omega arith, refl, refl) in
    (
      omega (arith, w.0),
      no_departure st.departures (has_recovery_codes st) (λ l. codes_seen _ _ w.2 l),
    )
