-- ===== src/SignIn/Laws/Privacy.antt =====
-- What the pages let a stranger learn about the accounts.
use guardian_cloud.Prelude.{◌≡◌, refl, false, Option, String, ◌==◌}
use guardian_cloud.Client.Json.{Body}
use guardian_cloud.Client.Request.{ApiError, Outcome}
use guardian_cloud.Auth.Provider.{LoginEnd}
use guardian_cloud.SignIn.Staff.{StaffState, after_login}
use guardian_cloud.SignIn.Customer.{LoginState, login_ended}
use guardian_cloud.SignIn.Registration.{FormState, submit_signup, submit_forgot}

-- an error that is neither a lockout nor a refusal with a text of its own
abbrev pub IsPlain : ApiError → Type 0
IsPlain e = ((e.status == 423) ≡ false) × ((e.status == 403) ≡ false)

-- The page of a forgotten password ends in one state whatever its request ends with, and the
-- registration in one state for every answer without an error. On both sign-in pages, errors whose
-- status is neither 423 nor 403 end in one state.
pub refusals_alike :
    (o o' : Outcome) (b b' : Option Body) (e e' : ApiError) (form : FormState) (page : LoginState)
    (staff : StaffState) (return_to : String)
    → IsPlain e
    → IsPlain e'
    → (submit_forgot o form ≡ submit_forgot o' form)
      × (submit_signup (Outcome.returned b) form ≡ submit_signup (Outcome.returned b') form)
      × (login_ended (LoginEnd.threw (Outcome.api_error e)) page
          ≡ login_ended (LoginEnd.threw (Outcome.api_error e')) page)
      × (after_login return_to (LoginEnd.threw (Outcome.api_error e)) staff
          ≡ after_login return_to (LoginEnd.threw (Outcome.api_error e')) staff)
unfolding submit_forgot submit_signup after_login
refusals_alike o o' b b' e e' form page staff r w w' =
    (refl, refl, rw w.0 (rw w.1 (rw w'.0 (rw w'.1 refl))), rw w.0 (rw w.1 (rw w'.0 (rw w'.1 refl))))
