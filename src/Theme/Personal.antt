-- ===== src/Theme/Personal.antt =====
-- `AdminThemeProvider` (web/src/theme/adminTheme.tsx), a user's own theme of the dashboard: what each
-- action does before its request and after its answer.
use mathlib.Core.List
use guardian_cloud.Prelude.{
  ℕ, suc, Bool, true, false, not, ◌&&◌, ◌||◌, Option, none, some, List, [], ◌∷◌, String, str_eq,
  ◌==◌, find, filter, take_chars, if◌then◌else◌, ◌otherwise◌,
}
use guardian_cloud.Theme.Tokens.{
  ColorScheme, ThemeTokens, ThemePack, same_scheme, ◌or_text◌, watchline_defaults,
}
use guardian_cloud.Theme.Colors.{soft_accent}
use guardian_cloud.Theme.Packs.{theme_packs}
use guardian_cloud.Theme.Schemes.{apply_scheme_to_theme_preserve, theme_pack_to_tokens}
use guardian_cloud.Theme.Platform.{Attempt}
use guardian_cloud.Theme.DashboardApi.{
  DashboardThemeMode, DashboardThemeResponse, Reply, brand, is_personal_mode, is_some, first_theme,
  parse_dashboard_response, fetch_dashboard_theme, put_dashboard_theme, delete_dashboard_theme,
}

abbrev is_legacy : String → Bool
is_legacy key =
    str_eq key "guardian-admin-theme" || str_eq (take_chars 21 key) "guardian-admin-theme:"

-- what is left of the browser's storage
unfoldable pub purge_legacy_local_cache : List (String × String) → List (String × String)
unfolding filter take_chars
purge_legacy_local_cache = filter (λ kv. not (is_legacy kv.0))

-- the requests that go out
pub data Sent : Type 0 where
  get delete : Sent
  put : ThemeTokens → Sent

-- `snapshot` is `snapshotRef.current`, what the API confirmed last; `load` counts the runs of the
-- effect that loads, of which only the last is not cancelled.
pub record PersonalState : Type 0 where
  pub admin_theme : Option ThemeTokens
  pub mode : DashboardThemeMode
  pub loading : Bool
  pub saving : Bool
  pub error : Option String
  pub snapshot : DashboardThemeResponse
  pub load : ℕ
  pub storage : List (String × String)
  pub sent : List Sent

unfoldable pub initial_personal : List (String × String) → PersonalState
initial_personal storage = record {
  admin_theme = none;
  mode = DashboardThemeMode.follow_brand;
  loading = true;
  saving = false;
  error = none;
  snapshot = brand;
  load = 0;
  storage = storage;
  sent = [];
}

abbrev pub send : Sent → PersonalState → PersonalState
send request st = record st { sent = List.◌++◌ st.sent (request ∷ []) }

abbrev pub theme_if_personal : DashboardThemeResponse → Option ThemeTokens
theme_if_personal parsed = if is_personal_mode parsed.mode then parsed.theme else none

unfoldable pub apply_response : DashboardThemeResponse → PersonalState → PersonalState
apply_response parsed st =
    let theme = theme_if_personal parsed in
    record st {
      mode = parsed.mode;
      admin_theme = theme;
      snapshot = record { mode = parsed.mode; theme = theme };
    }

unfoldable pub revert_optimistic : PersonalState → PersonalState
revert_optimistic st = record st { mode = st.snapshot.mode; admin_theme = st.snapshot.theme }

unfoldable pub clear_error : PersonalState → PersonalState
clear_error st = record st { error = none }

-- the request of `refresh`, and its answer
unfoldable pub refresh_begin : PersonalState → PersonalState
refresh_begin = send Sent.get

unfoldable pub refresh_end : Reply → PersonalState → PersonalState
unfolding apply_response parse_dashboard_response
refresh_end (Reply.answered json) st = apply_response (parse_dashboard_response json) st
refresh_end (Reply.refused _ _) st = st
refresh_end (Reply.rejected _) st = st

-- The effect that loads the theme of the user who is signed in: it cancels the one before.
unfoldable pub load_begin : PersonalState → PersonalState
unfolding purge_legacy_local_cache
load_begin st = send Sent.get (record st {
  storage = purge_legacy_local_cache st.storage;
  load = suc st.load;
  loading = true;
})

unfoldable pub load_end : ℕ → Reply → PersonalState → PersonalState
unfolding apply_response fetch_dashboard_theme
load_end n reply st =
    if n == st.load
    then record (apply_response (fetch_dashboard_theme reply) st) { loading = false }
    else st

-- `persistPersonal` up to its request
unfoldable pub persist_personal : ThemeTokens → PersonalState → PersonalState
persist_personal t st = send (Sent.put t) (record st {
  saving = true;
  error = none;
  mode = DashboardThemeMode.personal;
  admin_theme = some t;
})

-- The rest of `persistPersonal` and of `setAdminTheme`: an answer is applied and the event sent, which
-- starts a refresh; a failure brings back what was confirmed last.
abbrev pub settle : Attempt DashboardThemeResponse → PersonalState → PersonalState
settle (Attempt.got parsed) st = record (refresh_begin (apply_response parsed st)) {
  saving = false;
}
settle (Attempt.thrown message) st = record (revert_optimistic st) {
  error = some message;
  saving = false;
}

unfoldable pub persist_personal_end : Reply → PersonalState → PersonalState
unfolding put_dashboard_theme apply_response refresh_begin revert_optimistic
persist_personal_end reply st = settle (put_dashboard_theme reply) st

unfoldable pub follow_brand_end : Reply → PersonalState → PersonalState
unfolding delete_dashboard_theme apply_response refresh_begin revert_optimistic
follow_brand_end reply st = settle (delete_dashboard_theme reply) st

unfoldable pub set_admin_theme : Option ThemeTokens → PersonalState → PersonalState
unfolding persist_personal
set_admin_theme none st = send Sent.delete (record st {
  saving = true;
  error = none;
  mode = DashboardThemeMode.follow_brand;
  admin_theme = none;
})
set_admin_theme (some t) st = persist_personal t st

abbrev pub take_pack : Option ThemePack → PersonalState → PersonalState
take_pack none st = st
take_pack (some p) st = persist_personal (theme_pack_to_tokens p) st

unfoldable pub handle_pack : String → PersonalState → PersonalState
unfolding find persist_personal theme_pack_to_tokens
handle_pack id st = take_pack (find (λ p. str_eq p.id id) theme_packs) st

-- the theme that a change starts from
abbrev pub base_theme : PersonalState → ThemeTokens
base_theme st = first_theme st.snapshot.theme st.admin_theme otherwise watchline_defaults

unfoldable pub handle_scheme : ColorScheme → PersonalState → PersonalState
unfolding persist_personal apply_scheme_to_theme_preserve
handle_scheme s st =
    let base = base_theme st in
    if same_scheme s base.color_scheme && is_personal_mode st.mode
    then st
    else persist_personal (apply_scheme_to_theme_preserve base s) st

abbrev pub with_accent : String → Option String → ThemeTokens → ThemeTokens
with_accent accent accent2 base = record base {
  accent = accent;
  accent2 = (accent2 otherwise "") or_text accent;
  signal = accent;
  signal_soft = soft_accent accent base.color_scheme;
}

unfoldable pub handle_accent : String → Option String → PersonalState → PersonalState
unfolding persist_personal soft_accent
handle_accent accent accent2 st = persist_personal (with_accent accent accent2 (base_theme st)) st

unfoldable pub clear : PersonalState → PersonalState
unfolding set_admin_theme
clear = set_admin_theme none

unfoldable pub is_personal : PersonalState → Bool
is_personal st = is_personal_mode st.mode && is_some st.admin_theme
