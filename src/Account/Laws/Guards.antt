-- ===== src/Account/Laws/Guards.antt =====
-- The requests that take a password.
use mathlib.Core.List
use Prim.Native.String.{count}
use guardian_cloud.Prelude.{
  ◌≡◌, inl, inr, false, not, ◌&&◌, ◌||◌, ltb, arith, if_of_both, Option, none, some, List, [], ◌∷◌,
  String, str_eq, Bool-cases,
}
use guardian_cloud.Client.Request.{Outcome}
use guardian_cloud.Account.Page.{
  AccountState, AccountRequest, Loaded, requested, take_loaded, load, revoke_session, revoke_others,
  on_changed, remove_method, regenerate_codes, start_enrol, cancel_enrol, complete_enrol,
  ask_removal, cancel_removal, saved_codes, set_password, confirmed_as, has_new_codes, confirm,
  password_sent, change_password, type_passwords,
}
use guardian_cloud.Account.Laws.Errors.{AccountAction, perform, perform_all}

-- a request that changes the second factor has a password
abbrev pub IsGuarded : AccountRequest → Type 0
IsGuarded (AccountRequest.delete_method _ password) = str_eq password "" ≡ false
IsGuarded (AccountRequest.post_recovery_codes password) = str_eq password "" ≡ false
IsGuarded _ = Unit

abbrev pub AllGuarded : List AccountRequest → Type 0
AllGuarded [] = Unit
AllGuarded (r ∷ rs) = IsGuarded r × AllGuarded rs

append-AllGuarded :
    (rs qs : List AccountRequest) → AllGuarded rs → AllGuarded qs → AllGuarded (List.◌++◌ rs qs)
append-AllGuarded [] qs w v = v
append-AllGuarded (r ∷ rs) qs w v = (w.0, append-AllGuarded rs qs w.1 v)

take_loaded-AllGuarded :
    (l : Loaded) (st : AccountState)
    → AllGuarded st.requests
    → AllGuarded (take_loaded l st).requests
take_loaded-AllGuarded none st w = w
take_loaded-AllGuarded (some _) st w = w

load-AllGuarded :
    (l : Loaded) (st : AccountState) → AllGuarded st.requests → AllGuarded (load l st).requests
unfolding load
load-AllGuarded l st w =
    take_loaded-AllGuarded l _ (append-AllGuarded st.requests _ w (tt, (tt, tt)))

on_changed-AllGuarded :
    (l : Loaded) (st : AccountState)
    → AllGuarded st.requests
    → AllGuarded (on_changed l st).requests
unfolding on_changed
on_changed-AllGuarded l st w = append-AllGuarded _ _ (load-AllGuarded l st w) (tt, tt)

-- one more request
one_more :
    (st : AccountState) (r : AccountRequest)
    → IsGuarded r
    → AllGuarded st.requests
    → AllGuarded (requested (r ∷ []) st).requests
one_more st r g w = append-AllGuarded st.requests (r ∷ []) w (g, tt)

remove_method-AllGuarded :
    (id : String) (o : Outcome) (l : Loaded) (st : AccountState)
    → str_eq st.password "" ≡ false
    → AllGuarded st.requests
    → AllGuarded (remove_method id o l st).requests
unfolding remove_method
remove_method-AllGuarded id (Outcome.returned _) l st g w =
    on_changed-AllGuarded l _ (one_more st (AccountRequest.delete_method id st.password) g w)
remove_method-AllGuarded id (Outcome.api_error _) l st g w = one_more st _ g w
remove_method-AllGuarded id (Outcome.network_error _ _) l st g w = one_more st _ g w
remove_method-AllGuarded id Outcome.cancelled l st g w = one_more st _ g w

regenerate_codes-AllGuarded :
    (codes : List String) (o : Outcome) (l : Loaded) (st : AccountState)
    → str_eq st.password "" ≡ false
    → AllGuarded st.requests
    → AllGuarded (regenerate_codes codes o l st).requests
unfolding regenerate_codes
regenerate_codes-AllGuarded codes (Outcome.returned _) l st g w =
    on_changed-AllGuarded l _ (one_more st (AccountRequest.post_recovery_codes st.password) g w)
regenerate_codes-AllGuarded codes (Outcome.api_error _) l st g w = one_more st _ g w
regenerate_codes-AllGuarded codes (Outcome.network_error _ _) l st g w = one_more st _ g w
regenerate_codes-AllGuarded codes Outcome.cancelled l st g w = one_more st _ g w

confirmed_as-AllGuarded :
    (pending : Option String) (codes : List String) (o : Outcome) (l : Loaded) (st : AccountState)
    → str_eq st.password "" ≡ false
    → AllGuarded st.requests
    → AllGuarded (confirmed_as pending codes o l st).requests
confirmed_as-AllGuarded none codes o l st g w = w
confirmed_as-AllGuarded (some id) codes o l st g w = elim (Bool-cases (str_eq id "recovery")) [
  | inl e ↦ rw e (regenerate_codes-AllGuarded codes o l st g w)
  | inr e ↦ rw e (remove_method-AllGuarded id o l st g w)
]

confirm-AllGuarded :
    (codes : List String) (o : Outcome) (l : Loaded) (st : AccountState)
    → AllGuarded st.requests
    → AllGuarded (confirm codes o l st).requests
unfolding confirm
confirm-AllGuarded codes o l st w =
    elim (Bool-cases (not (st.enrolling || has_new_codes st) && not (str_eq st.password ""))) [
      | inl e ↦ rw e (confirmed_as-AllGuarded st.pending_removal codes o l st (ground arith) w)
      | inr e ↦ rw e w
    ]

revoke-AllGuarded :
    (o : Outcome) (l : Loaded) (st : AccountState) (id : String)
    → AllGuarded st.requests
    → AllGuarded (revoke_session id o l st).requests × AllGuarded (revoke_others o l st).requests
unfolding revoke_session revoke_others
revoke-AllGuarded (Outcome.returned _) l st id w = (
  load-AllGuarded l _ (one_more st (AccountRequest.delete_session id) tt w),
  load-AllGuarded l _ (one_more st AccountRequest.delete_sessions tt w),
)
revoke-AllGuarded (Outcome.api_error _) l st id w = (one_more st _ tt w, one_more st _ tt w)
revoke-AllGuarded (Outcome.network_error _ _) l st id w = (one_more st _ tt w, one_more st _ tt w)
revoke-AllGuarded Outcome.cancelled l st id w = (one_more st _ tt w, one_more st _ tt w)

password_sent-AllGuarded :
    (o : Outcome) (st : AccountState)
    → AllGuarded st.requests
    → AllGuarded (password_sent o st).requests
password_sent-AllGuarded (Outcome.returned _) st w = one_more st _ tt w
password_sent-AllGuarded (Outcome.api_error _) st w = one_more st _ tt w
password_sent-AllGuarded (Outcome.network_error _ _) st w = one_more st _ tt w
password_sent-AllGuarded Outcome.cancelled st w = one_more st _ tt w

change_password-AllGuarded :
    (o : Outcome) (st : AccountState)
    → AllGuarded st.requests
    → AllGuarded (change_password o st).requests
unfolding change_password
change_password-AllGuarded o st w =
    if_of_both (λ (st' : AccountState). AllGuarded st'.requests)
      (st.saving || str_eq st.current "" || ltb (count st.next) 10) _ _ w
      (password_sent-AllGuarded o st w)

perform-AllGuarded :
    (a : AccountAction) (st : AccountState)
    → AllGuarded st.requests
    → AllGuarded (perform a st).requests
unfolding start_enrol cancel_enrol complete_enrol ask_removal cancel_removal saved_codes
    set_password type_passwords
perform-AllGuarded (AccountAction.loaded l) st w = load-AllGuarded l st w
perform-AllGuarded (AccountAction.session_revoked id o l) st w = (revoke-AllGuarded o l st id w).0
perform-AllGuarded (AccountAction.others_revoked o l) st w = (revoke-AllGuarded o l st "" w).1
perform-AllGuarded (AccountAction.confirmed codes o l) st w = confirm-AllGuarded codes o l st w
perform-AllGuarded AccountAction.enrol_started st w = w
perform-AllGuarded AccountAction.enrol_cancelled st w = w
perform-AllGuarded AccountAction.removal_cancelled st w = w
perform-AllGuarded AccountAction.codes_saved st w = w
perform-AllGuarded (AccountAction.enrolled l) st w = on_changed-AllGuarded l _ w
perform-AllGuarded (AccountAction.removal_asked id) st w = w
perform-AllGuarded (AccountAction.password_typed t) st w = w
perform-AllGuarded (AccountAction.passwords_typed c n) st w = w
perform-AllGuarded (AccountAction.password_changed o) st w = change_password-AllGuarded o st w

-- Whatever happens on the page, each request to remove a method or to renew the recovery codes that
-- it makes carries a password, and never the empty text.
pub perform_all-AllGuarded :
    (actions : List AccountAction) (st : AccountState)
    → AllGuarded st.requests
    → AllGuarded (perform_all actions st).requests
perform_all-AllGuarded [] st w = w
perform_all-AllGuarded (a ∷ later) st w =
    perform_all-AllGuarded later (perform a st) (perform-AllGuarded a st w)
