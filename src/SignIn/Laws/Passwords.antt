-- ===== src/SignIn/Laws/Passwords.antt =====
-- What the pages around the sign-in send, and what they tell.
use Prim.Native.String.{count}
use guardian_cloud.Prelude.{◌≡◌, refl, Bool, true, not, ◌&&◌, List, [], ◌∷◌, String, ltb, arith}
use guardian_cloud.Client.Request.{Outcome}
use guardian_cloud.Auth.State.{AuthState, Environment}
use guardian_cloud.SignIn.Registration.{
  PublicRequest, FormState, open_form, submit_setup, submit_signup, submit_forgot, submit_reset,
  verify_email,
}

-- what happens on one of the pages
pub data FormAction : Type 0 where
  type_name type_email type_password type_confirm : String → FormAction
  setup signup forgot reset verify : Outcome → FormAction

abbrev pub act_form : Environment → FormAction → FormState × AuthState → FormState × AuthState
act_form env (FormAction.type_name t) (st, auth) = (record st { name = t }, auth)
act_form env (FormAction.type_email t) (st, auth) = (record st { email = t }, auth)
act_form env (FormAction.type_password t) (st, auth) = (record st { password = t }, auth)
act_form env (FormAction.type_confirm t) (st, auth) = (record st { confirmation = t }, auth)
act_form env (FormAction.setup o) p = submit_setup env o p
act_form env (FormAction.signup o) (st, auth) = (submit_signup o st, auth)
act_form env (FormAction.forgot o) (st, auth) = (submit_forgot o st, auth)
act_form env (FormAction.reset o) (st, auth) = (submit_reset o st, auth)
act_form env (FormAction.verify o) (st, auth) = (verify_email o st, auth)

abbrev pub run_form : Environment → List FormAction → FormState × AuthState → FormState × AuthState
run_form env [] p = p
run_form env (a ∷ later) p = run_form env later (act_form env a p)

-- a new password has ten characters
abbrev pub is_long : PublicRequest → Bool
is_long (PublicRequest.post_setup _ _ password) = not (ltb (count password) 10)
is_long (PublicRequest.post_signup _ _ password) = not (ltb (count password) 10)
is_long (PublicRequest.post_reset _ password) = not (ltb (count password) 10)
is_long (PublicRequest.post_forgot _) = true
is_long (PublicRequest.post_verify _) = true

abbrev pub all_long : List PublicRequest → Bool
all_long [] = true
all_long (r ∷ rs) = is_long r && all_long rs

abbrev Sends : FormState → Type 0
Sends st = all_long st.requests ≡ true

submit_setup-Sends :
    (env : Environment) (o : Outcome) (st : FormState) (auth : AuthState)
    → Sends st
    → Sends (submit_setup env o (st, auth)).0
unfolding submit_setup
submit_setup-Sends env (Outcome.returned b) st auth w = ground (arith, w)
submit_setup-Sends env (Outcome.api_error e) st auth w = ground (arith, w)
submit_setup-Sends env (Outcome.network_error m t) st auth w = ground (arith, w)
submit_setup-Sends env Outcome.cancelled st auth w = ground (arith, w)

submit_signup-Sends : (o : Outcome) (st : FormState) → Sends st → Sends (submit_signup o st)
unfolding submit_signup
submit_signup-Sends (Outcome.returned b) st w = ground (arith, w)
submit_signup-Sends (Outcome.api_error e) st w = ground (arith, w)
submit_signup-Sends (Outcome.network_error m t) st w = ground (arith, w)
submit_signup-Sends Outcome.cancelled st w = ground (arith, w)

submit_reset-Sends : (o : Outcome) (st : FormState) → Sends st → Sends (submit_reset o st)
unfolding submit_reset
submit_reset-Sends o st w = ground (arith, w)

submit_forgot-Sends : (o : Outcome) (st : FormState) → Sends st → Sends (submit_forgot o st)
unfolding submit_forgot
submit_forgot-Sends o st w = ground (arith, w)

verify_email-Sends : (o : Outcome) (st : FormState) → Sends st → Sends (verify_email o st)
unfolding verify_email
verify_email-Sends (Outcome.returned b) st w = ground (arith, w)
verify_email-Sends (Outcome.api_error e) st w = ground (arith, w)
verify_email-Sends (Outcome.network_error m t) st w = ground (arith, w)
verify_email-Sends Outcome.cancelled st w = ground (arith, w)

act_form-Sends :
    (env : Environment) (a : FormAction) (st : FormState) (auth : AuthState)
    → Sends st
    → Sends (act_form env a (st, auth)).0
act_form-Sends env (FormAction.type_name t) st auth w = w
act_form-Sends env (FormAction.type_email t) st auth w = w
act_form-Sends env (FormAction.type_password t) st auth w = w
act_form-Sends env (FormAction.type_confirm t) st auth w = w
act_form-Sends env (FormAction.setup o) st auth w = submit_setup-Sends env o st auth w
act_form-Sends env (FormAction.signup o) st auth w = submit_signup-Sends o st w
act_form-Sends env (FormAction.forgot o) st auth w = submit_forgot-Sends o st w
act_form-Sends env (FormAction.reset o) st auth w = submit_reset-Sends o st w
act_form-Sends env (FormAction.verify o) st auth w = verify_email-Sends o st w

run_form-Sends :
    (env : Environment) (actions : List FormAction) (p : FormState × AuthState)
    → Sends p.0
    → Sends (run_form env actions p).0
run_form-Sends env [] p w = w
run_form-Sends env (a ∷ later) (st, auth) w =
    run_form-Sends env later (act_form env a (st, auth)) (act_form-Sends env a st auth w)

-- Whatever is typed and pressed on the pages of the set-up, the registration and the recovery of a
-- password, and however their requests end: each new password that is sent has ten characters or more.
pub run_form_long :
    (env : Environment) (actions : List FormAction) (token : String) (auth : AuthState)
    → all_long (run_form env actions (open_form token, auth)).0.requests ≡ true
run_form_long env actions token auth = run_form-Sends env actions (open_form token, auth) refl
