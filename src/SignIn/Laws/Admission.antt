-- ===== src/SignIn/Laws/Admission.antt =====
-- Nobody leaves the staff's sign-in page for the console before the API has let them in.
use Prim.Native.String.{count}
use guardian_cloud.Prelude.{
  if_of_both, if_of_each, ◌≡◌, ◌⊎◌, refl, inl, inr, sym, ap, ◌∙◌, Bool, true, false, not, ◌&&◌,
  ◌||◌, Option, none, some, List, [], ◌∷◌, String, Option-cases, arith, includes, ltb, ◌==◌, trim,
  ℕ, zero, suc,
}
use guardian_cloud.Client.Json.{Json, Body, property}
use guardian_cloud.Auth.State.{AuthState, Environment}
use guardian_cloud.Auth.Provider.{
  LoginEnd, is_text, is_authenticated, sign_in, login, verify_mfa, refresh, clear_ended_reason,
}
use guardian_cloud.Auth.Laws.Signing.{sign_in_user}
use guardian_cloud.SignIn.Common.{Departure, Ended, Enrollment, status_is, is_locked_out}
use guardian_cloud.SignIn.Factors.{is_member, candidates}
use guardian_cloud.SignIn.Staff.{
  StaffState, Told, open_staff, has_codes, has_methods, shows_login, without_session, code_refused,
  go_back, after_login, submit_staff, after_code, on_verify_mfa, enrol_effect, enrol_arrives,
  after_confirm, on_enrol_verify, on_enrol_finish, reset_to_login, choose_factor, user_effect,
}
use guardian_cloud.SignIn.StaffActions.{StaffAction, arrival, choice, act_staff, run_staff}

-- The API has let the person in: a password or a code has ended with `authenticated`, or a code has
-- confirmed an enrolment.
abbrev pub admits : Told → Bool
admits (Told.signed end) = is_authenticated end
admits (Told.confirmed (Ended.answered _)) = true
admits (Told.confirmed (Ended.threw _)) = false

abbrev pub any_admits : List Told → Bool
any_admits [] = false
any_admits (t ∷ ts) = admits t || any_admits ts

abbrev pub has_left : List Departure → Bool
has_left [] = false
has_left (_ ∷ _) = true

abbrev IsHonest : StaffState → Type 0
IsHonest st =
    ((me : Body) → st.auth.user ≡ some me → any_admits st.told ≡ true)
    × (has_codes st.recovery_codes ≡ true → any_admits st.told ≡ true)
    × (has_left st.departures ≡ true → any_admits st.told ≡ true)

-- once let in, a state is honest
admitted : (st : StaffState) → any_admits st.told ≡ true → IsHonest st
admitted st a = (λ _ _. a, λ _. a, λ _. a)

without_session-IsHonest :
    (end : LoginEnd) (st : StaffState) → IsHonest st → IsHonest (without_session end st)
without_session-IsHonest (LoginEnd.result b) st w =
    if_of_both IsHonest (is_text "mfa_required" (property "status" b)) _ _ w
      (if_of_both IsHonest (is_text "mfa_enrollment_required" (property "status" b)) _ _ w w)
without_session-IsHonest (LoginEnd.threw _) st w = w
without_session-IsHonest LoginEnd.type_error st w = w

told_more : (t : Told) (ts : List Told) → any_admits ts ≡ true → any_admits (t ∷ ts) ≡ true
told_more t ts a = ground (arith, a)

-- The state with the end of a sign-in and the provider after it, where the sign-in let no one in.
signed_out-IsHonest :
    (env : Environment) (path : String) (body : Json) (auth : AuthState) (st : StaffState)
    → auth.user ≡ st.auth.user
    → is_authenticated (sign_in env path body auth).0 ≡ false
    → IsHonest st
    → IsHonest (record st {
      auth = (sign_in env path body auth).1;
      told = Told.signed (sign_in env path body auth).0 ∷ st.told;
    })
signed_out-IsHonest env path body auth st same refused w =
    let t = Told.signed (sign_in env path body auth).0 in
    (
      λ me u. told_more t st.told (w.0 me (sym same ∙ kept (sign_in_user env path body auth me u))),
      λ c. told_more t st.told (w.1 c),
      λ d. told_more t st.told (w.2 d),
    )
  where
    kept :
        {me : Body} {X : Type 0}
        → ((is_authenticated (sign_in env path body auth).0 ≡ false) × (auth.user ≡ some me))
          ⊎ ((is_authenticated (sign_in env path body auth).0 ≡ true) × X)
        → auth.user ≡ some me
    kept (inl h) = h.1
    kept (inr h) = ground (arith, refused, h.0)

code_refused-IsHonest :
    (end : LoginEnd) (st : StaffState) → IsHonest st → IsHonest (code_refused end st)
code_refused-IsHonest (LoginEnd.result b) st w = w
code_refused-IsHonest (LoginEnd.threw o) st w =
    if_of_both IsHonest (status_is 410 (LoginEnd.threw o)) _ _ w
      (if_of_both IsHonest (status_is 423 (LoginEnd.threw o)) _ _ w w)
code_refused-IsHonest LoginEnd.type_error st w = w

submit_staff-IsHonest :
    (env : Environment) (return_to : String) (st : StaffState)
    → IsHonest st
    → IsHonest (submit_staff env return_to st)
unfolding submit_staff after_login login clear_ended_reason
submit_staff-IsHonest env return_to st w =
    let (end, auth) = login env (trim st.email) st.password (clear_ended_reason st.auth) in
    let st1 = record st { error = none; auth = auth; told = Told.signed end ∷ st.told } in
    if_of_both IsHonest (not (includes st.email "@")) _ _ w (
      if_of_both IsHonest (ltb (count st.password) 8) _ _ w (
        if_of_each IsHonest (is_authenticated end) (go_back return_to st1) (without_session end st1)
          (λ e. admitted (go_back return_to st1) (ap (λ b. b || any_admits st.told) e))
          (λ e. without_session-IsHonest end st1 (
            signed_out-IsHonest env "/login" _ (clear_ended_reason st.auth)
              (record st { error = none }) refl e w))))

on_verify_mfa-IsHonest :
    (env : Environment) (return_to : String) (st : StaffState)
    → IsHonest st
    → IsHonest (on_verify_mfa env return_to st)
unfolding on_verify_mfa after_code verify_mfa
on_verify_mfa-IsHonest env return_to st w =
    let (end, auth) = verify_mfa env (trim st.mfa_code) st.mfa_factor st.auth in
    let st1 = record st { mfa_error = none; auth = auth; told = Told.signed end ∷ st.told } in
    if_of_each IsHonest (is_authenticated end) (go_back return_to st1) (code_refused end st1)
      (λ e. admitted (go_back return_to st1) (ap (λ b. b || any_admits st.told) e))
      (λ e.
        code_refused-IsHonest end st1 (
          signed_out-IsHonest env "/login/mfa" _ st.auth (record st { mfa_error = none }) refl e w))

after_confirm-IsHonest :
    (answer : Ended (List String)) (st st1 : StaffState)
    → IsHonest st
    → st1.auth ≡ st.auth
    → st1.recovery_codes ≡ st.recovery_codes
    → st1.departures ≡ st.departures
    → st1.told ≡ Told.confirmed answer ∷ st.told
    → IsHonest (after_confirm answer st1)
after_confirm-IsHonest (Ended.answered codes) st st1 w a c d t =
    admitted (after_confirm (Ended.answered codes) st1) (rw t refl)
after_confirm-IsHonest (Ended.threw o) st st1 w a c d t = (
  λ me u. rw t (w.0 me (sym (ap (λ x. x.user) a) ∙ u)),
  λ e. rw t (w.1 (sym (ap has_codes c) ∙ e)),
  λ e. rw t (w.2 (sym (ap has_left d) ∙ e)),
)

on_enrol_verify-IsHonest :
    (answer : Ended (List String)) (st : StaffState)
    → IsHonest st
    → IsHonest (on_enrol_verify answer st)
unfolding on_enrol_verify
on_enrol_verify-IsHonest answer st w = confirmed (Option-cases st.enrollment)
  where
    confirmed :
        (st.enrollment ≡ none) ⊎ ((e : Enrollment) × (st.enrollment ≡ some e))
        → IsHonest (on_enrol_verify answer st)
    confirmed (inl h) = rw h w
    confirmed (inr h) = rw h.1 (after_confirm-IsHonest answer st _ w refl refl refl refl)

arrival-IsHonest :
    (n : ℕ) (answer : Ended Enrollment) (st : StaffState)
    → IsHonest st
    → IsHonest (arrival n answer st)
unfolding enrol_arrives
arrival-IsHonest zero answer st w = w
arrival-IsHonest (suc n) (Ended.answered e) st w = w
arrival-IsHonest (suc n) (Ended.threw _) st w = w

choice-IsHonest : (f : String) (st : StaffState) → IsHonest st → IsHonest (choice f st)
unfolding choose_factor candidates
choice-IsHonest f st w = chosen (Option-cases st.mfa_methods)
  where
    chosen :
        (st.mfa_methods ≡ none) ⊎ ((fs : List String) × (st.mfa_methods ≡ some fs))
        → IsHonest (choice f st)
    chosen (inl h) = rw h w
    chosen (inr h) =
        rw h.1 (if_of_both IsHonest (is_member f (candidates st.mfa_factor h.0)) _ _ w w)

user_effect-IsHonest :
    (return_to : String) (st : StaffState) → IsHonest st → IsHonest (user_effect return_to st)
unfolding user_effect
user_effect-IsHonest return_to st w = seen (Option-cases st.auth.user)
  where
    seen :
        (st.auth.user ≡ none) ⊎ ((me : Body) × (st.auth.user ≡ some me))
        → IsHonest (user_effect return_to st)
    seen (inl h) = rw h (λ me u. ground (arith, u), w.1, w.2)
    seen (inr h) = let a = w.0 h.0 h.1 in rw h.1 (λ _ _. a, λ _. a, λ _. a)

finish-IsHonest :
    (env : Environment) (return_to : String) (st : StaffState)
    → has_codes st.recovery_codes ≡ true
    → IsHonest st
    → IsHonest (on_enrol_finish env return_to st)
unfolding on_enrol_finish refresh
finish-IsHonest env return_to st c w = admitted (on_enrol_finish env return_to st) (w.1 c)

act_staff-IsHonest :
    (env : Environment) (return_to : String) (a : StaffAction) (st : StaffState)
    → IsHonest st
    → IsHonest (act_staff env return_to a st)
unfolding act_staff enrol_effect reset_to_login
act_staff-IsHonest env r (StaffAction.type_email t) st w =
    if_of_both IsHonest (shows_login st) _ _ w w
act_staff-IsHonest env r (StaffAction.type_password t) st w =
    if_of_both IsHonest (shows_login st) _ _ w w
act_staff-IsHonest env r (StaffAction.type_code t) st w =
    if_of_both IsHonest (has_methods st) _ _ w w
act_staff-IsHonest env r (StaffAction.type_enrol_code t) st w =
    if_of_both IsHonest (st.enrol_required && not (has_codes st.recovery_codes)) _ _ w w
act_staff-IsHonest env r (StaffAction.choose f) st w = choice-IsHonest f st w
act_staff-IsHonest env r StaffAction.submit st w =
    if_of_both IsHonest (shows_login st && not (is_locked_out st.lockout_seconds)) _ _
      (submit_staff-IsHonest env r st w) w
act_staff-IsHonest env r StaffAction.verify st w =
    if_of_both IsHonest (has_methods st && not (ltb (count (trim st.mfa_code)) 6)) _ _
      (on_verify_mfa-IsHonest env r st w) w
act_staff-IsHonest env r StaffAction.press_finish st w =
    if_of_each IsHonest (st.enrol_required && has_codes st.recovery_codes) _ _
      (λ e. finish-IsHonest env r st (ground (arith, e)) w) (λ _. w)
act_staff-IsHonest env r StaffAction.reset st w =
    if_of_both IsHonest (has_methods st || st.enrol_required && not (has_codes st.recovery_codes)) _
      _ (w.0, λ e. ground (arith, e), w.2) w
act_staff-IsHonest env r StaffAction.tick st w = w
act_staff-IsHonest env r StaffAction.enrolment_effect st w =
    if_of_both IsHonest (not st.enrol_required || st.enrol_started) _ _ w w
act_staff-IsHonest env r StaffAction.signed_in_effect st w = user_effect-IsHonest r st w
act_staff-IsHonest env r (StaffAction.enrolment_arrives answer) st w =
    arrival-IsHonest st.waiting answer st w
act_staff-IsHonest env r (StaffAction.confirm_code answer) st w =
    if_of_both IsHonest
      (st.enrol_required && not (has_codes st.recovery_codes) && count (trim st.enrol_code) == 6) _
      _ (on_enrol_verify-IsHonest answer st w) w

run_staff-IsHonest :
    (env : Environment) (return_to : String) (actions : List StaffAction) (st : StaffState)
    → IsHonest st
    → IsHonest (run_staff env return_to actions st)
unfolding run_staff
run_staff-IsHonest env r [] st w = w
run_staff-IsHonest env r (a ∷ later) st w =
    run_staff-IsHonest env r later (act_staff env r a st) (act_staff-IsHonest env r a st w)

no_user :
    (u : Option Body) (b : Bool) → ((me : Body) → u ≡ some me → b ≡ true) → b ≡ false → u ≡ none
no_user none b f h = refl
no_user (some me) b f h = ground (arith, f me refl, h)

no_codes : (cs : List String) (b : Bool) → (has_codes cs ≡ true → b ≡ true) → b ≡ false → cs ≡ []
no_codes [] b f h = refl
no_codes (c ∷ cs) b f h = ground (arith, f refl, h)

pub no_departure :
    (ds : List Departure) (b : Bool) → (has_left ds ≡ true → b ≡ true) → b ≡ false → ds ≡ []
no_departure [] b f h = refl
no_departure (d ∷ ds) b f h = ground (arith, f refl, h)

-- On the staff's sign-in page, opened without a user, whatever happens: as long as the API has neither
-- answered `authenticated` to a password or a code nor confirmed an enrolment's code, the provider has
-- no user, the page shows no recovery codes, and it has not left for any other page.
pub run_staff-any_admits :
    (env : Environment) (return_to : String) (actions : List StaffAction) (auth : AuthState)
    → auth.user ≡ none
    → let st = run_staff env return_to actions (open_staff auth) in
      any_admits st.told ≡ false
      → (st.auth.user ≡ none) × (st.recovery_codes ≡ []) × (st.departures ≡ [])
run_staff-any_admits env r actions auth gone refused =
    let st = run_staff env r actions (open_staff auth) in
    let w =
      run_staff-IsHonest env r actions (open_staff auth)
        (λ me u. ground (arith, gone, u), λ e. ground (arith, e), λ e. ground (arith, e)) in
    (no_user _ _ w.0 refused, no_codes _ _ w.1 refused, no_departure _ _ w.2 refused)
