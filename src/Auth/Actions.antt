-- ===== src/Auth/Actions.antt =====
-- What can happen on a page that has a provider, as one type of actions.
use guardian_cloud.Prelude.{List, [], ◌∷◌, String}
use guardian_cloud.Client.Request.{RequestOptions}
use guardian_cloud.Auth.State.{AuthState, Environment, call}
use guardian_cloud.Auth.Provider.{
  refresh, bootstrap, refresh_setup_status, login, verify_mfa, logout, clear_ended_reason,
}

-- `other` is a request of another part of the page.
pub data Action : Type 0 where
  start : Action
  probe : Action
  enter_password : String → String → Action
  enter_code : String → String → Action
  sign_out : Action
  reread_setup : Action
  forget_reason : Action
  other : String → RequestOptions → Action

unfoldable pub act : Environment → Action → AuthState → AuthState
unfolding bootstrap refresh login verify_mfa logout refresh_setup_status clear_ended_reason call
act env Action.start st = bootstrap env st
act env Action.probe st = (refresh env st).1
act env (Action.enter_password email password) st = (login env email password st).1
act env (Action.enter_code code method) st = (verify_mfa env code method st).1
act env Action.sign_out st = (logout env st).1
act env Action.reread_setup st = refresh_setup_status env st
act env Action.forget_reason st = clear_ended_reason st
act env (Action.other path o) st = (call env path o st).1

unfoldable pub acts : Environment → List Action → AuthState → AuthState
unfolding act
acts env [] st = st
acts env (a ∷ later) st = acts env later (act env a st)
