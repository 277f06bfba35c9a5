-- ===== src/Auth/Gate.antt =====
-- `AuthBoundary` (web/src/auth/AuthBoundary.tsx) and `RequireAuth` (web/src/auth/RequireAuth.tsx):
-- what a route shows.
use guardian_cloud.Prelude.{none, some, String, if◌then◌else◌, ◌otherwise◌}
use guardian_cloud.Client.Request.{Plane, login_path_for}
use guardian_cloud.Auth.State.{InitState, AuthState}
use guardian_cloud.Auth.Provider.{can}

pub data Screen : Type 0 where
  children : Screen
  splash : Screen
  startup_error : String → Screen
  navigate : String → Screen
  permission_denied : String → Screen

unfoldable pub auth_boundary : AuthState → Screen → Screen
auth_boundary st inner = elim st.init_state [
  | InitState.error ↦
      Screen.startup_error
        (st.init_error otherwise "Something went wrong starting the Guardian console.")
  | InitState.loading ↦ Screen.splash
  | InitState.ready ↦ inner
]

unfoldable pub authenticated_only : Plane → AuthState → Screen → Screen
unfolding login_path_for
authenticated_only plane st inner =
    if st.setup_required
    then Screen.navigate "/super/setup"
    else elim st.user [ none ↦ Screen.navigate (login_path_for plane) | some _ ↦ inner ]

unfoldable pub require_auth : Plane → AuthState → Screen → Screen
unfolding auth_boundary authenticated_only
require_auth plane st inner = auth_boundary st (authenticated_only plane st inner)

-- with the default fallback
unfoldable pub require_permission : AuthState → String → Screen → Screen
unfolding can
require_permission st permission inner =
    if can st permission then inner else Screen.permission_denied permission
