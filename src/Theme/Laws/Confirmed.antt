-- ===== src/Theme/Laws/Confirmed.antt =====
-- What the dashboard shows while a user's changes of the theme wait for their answers.
use guardian_cloud.Prelude.{
  ℕ, ◌≡◌, refl, inl, inr, Option, none, some, List, [], ◌∷◌, String, str_eq, ◌==◌, Bool-cases,
  arith, find,
}
use guardian_cloud.Client.Json.{Json}
use guardian_cloud.Theme.Tokens.{ColorScheme, ThemeTokens, ThemePack}
use guardian_cloud.Theme.Packs.{theme_packs}
use guardian_cloud.Theme.DashboardApi.{
  Reply, is_personal_mode, is_some, personal_or_brand, parse_dashboard_response, mode_is, members,
  theme_of_answer, fetch_dashboard_theme, put_dashboard_theme, delete_dashboard_theme,
}
use guardian_cloud.Theme.Personal.{
  PersonalState, initial_personal, apply_response, revert_optimistic, clear_error, refresh_begin,
  refresh_end, load_begin, load_end, persist_personal, persist_personal_end, follow_brand_end,
  set_admin_theme, handle_pack, take_pack, handle_scheme, handle_accent, clear, is_personal,
}

-- the changes that a user asks for
pub data Edit : Type 0 where
  set : Option ThemeTokens → Edit
  pack : String → Edit
  scheme : ColorScheme → Edit
  accent : String → Option String → Edit
  follow : Edit

abbrev pub edit : Edit → PersonalState → PersonalState
edit (Edit.set t) = set_admin_theme t
edit (Edit.pack id) = handle_pack id
edit (Edit.scheme s) = handle_scheme s
edit (Edit.accent a a2) = handle_accent a a2
edit Edit.follow = clear

abbrev pub edits : List Edit → PersonalState → PersonalState
edits [] st = st
edits (e ∷ later) st = edits later (edit e st)

-- all that happens to the provider
pub data Event : Type 0 where
  edited : Edit → Event
  saved cleared refreshed : Reply → Event
  loaded : ℕ → Reply → Event
  refreshing loading dismissed : Event

abbrev pub happen : Event → PersonalState → PersonalState
happen (Event.edited e) = edit e
happen (Event.saved r) = persist_personal_end r
happen (Event.cleared r) = follow_brand_end r
happen (Event.refreshed r) = refresh_end r
happen (Event.loaded n r) = load_end n r
happen Event.refreshing = refresh_begin
happen Event.loading = load_begin
happen Event.dismissed = clear_error

abbrev pub events : List Event → PersonalState → PersonalState
events [] st = st
events (e ∷ later) st = events later (happen e st)

-- The mode is the user's own where there is a theme, and only there, on the screen and in what was
-- confirmed.
abbrev pub IsCoherent : PersonalState → Type 0
IsCoherent st =
    (is_personal_mode st.mode ≡ is_some st.admin_theme)
    × (is_personal_mode st.snapshot.mode ≡ is_some st.snapshot.theme)

parse_form :
    (j : Json) → (o : Option ThemeTokens) × (parse_dashboard_response j ≡ personal_or_brand o)
unfolding parse_dashboard_response
parse_form (Json.object f) = elim (Bool-cases (mode_is "follow_brand" (members f))) [
  | inl e ↦ (none, rw e refl)
  | inr e ↦ (theme_of_answer (members f), rw e refl)
]
parse_form Json.null = (none, refl)
parse_form (Json.flag b) = (none, refl)
parse_form (Json.num n) = (none, refl)
parse_form (Json.text t) = (none, refl)
parse_form (Json.array i) = (none, refl)

apply_or_brand :
    (o : Option ThemeTokens) (st : PersonalState)
    → IsCoherent (apply_response (personal_or_brand o) st)
unfolding apply_response
apply_or_brand none st = (refl, refl)
apply_or_brand (some t) st = (refl, refl)

apply-parse :
    (j : Json) (st : PersonalState) → IsCoherent (apply_response (parse_dashboard_response j) st)
apply-parse j st = rw ((parse_form j).1) (apply_or_brand (parse_form j).0 st)

take_pack-IsCoherent :
    (o : Option ThemePack) (st : PersonalState) → IsCoherent st → IsCoherent (take_pack o st)
unfolding persist_personal
take_pack-IsCoherent none st w = w
take_pack-IsCoherent (some p) st w = (refl, w.1)

edit-IsCoherent : (e : Edit) (st : PersonalState) → IsCoherent st → IsCoherent (edit e st)
unfolding set_admin_theme persist_personal handle_pack handle_scheme handle_accent clear
edit-IsCoherent (Edit.set none) st w = (refl, w.1)
edit-IsCoherent (Edit.set (some t)) st w = (refl, w.1)
edit-IsCoherent (Edit.pack id) st w =
    take_pack-IsCoherent (find (λ p. str_eq p.id id) theme_packs) st w
edit-IsCoherent (Edit.scheme s) st w = ground arith
edit-IsCoherent (Edit.accent a a2) st w = (refl, w.1)
edit-IsCoherent Edit.follow st w = (refl, w.1)

apply-fetch :
    (r : Reply) (st : PersonalState) → IsCoherent (apply_response (fetch_dashboard_theme r) st)
unfolding fetch_dashboard_theme
apply-fetch (Reply.answered j) st = apply-parse j st
apply-fetch (Reply.refused _ _) st = apply_or_brand none st
apply-fetch (Reply.rejected _) st = apply_or_brand none st

load_end-IsCoherent :
    (n : ℕ) (r : Reply) (st : PersonalState) → IsCoherent st → IsCoherent (load_end n r st)
unfolding load_end
load_end-IsCoherent n r st w = elim (Bool-cases (n == st.load)) [
  | inl e ↦ rw e (apply-fetch r st)
  | inr e ↦ rw e w
]

happen-IsCoherent : (e : Event) (st : PersonalState) → IsCoherent st → IsCoherent (happen e st)
unfolding persist_personal_end follow_brand_end refresh_end refresh_begin load_begin clear_error
    put_dashboard_theme delete_dashboard_theme revert_optimistic
happen-IsCoherent (Event.edited e) st w = edit-IsCoherent e st w
happen-IsCoherent (Event.saved (Reply.answered j)) st w = apply-parse j st
happen-IsCoherent (Event.saved (Reply.refused _ _)) st w = (w.1, w.1)
happen-IsCoherent (Event.saved (Reply.rejected _)) st w = (w.1, w.1)
happen-IsCoherent (Event.cleared (Reply.answered j)) st w = apply-parse j st
happen-IsCoherent (Event.cleared (Reply.refused _ _)) st w = (w.1, w.1)
happen-IsCoherent (Event.cleared (Reply.rejected _)) st w = (w.1, w.1)
happen-IsCoherent (Event.refreshed (Reply.answered j)) st w = apply-parse j st
happen-IsCoherent (Event.refreshed (Reply.refused _ _)) st w = w
happen-IsCoherent (Event.refreshed (Reply.rejected _)) st w = w
happen-IsCoherent (Event.loaded n r) st w = load_end-IsCoherent n r st w
happen-IsCoherent Event.refreshing st w = w
happen-IsCoherent Event.loading st w = w
happen-IsCoherent Event.dismissed st w = w

events-IsCoherent :
    (es : List Event) (st : PersonalState) → IsCoherent st → IsCoherent (events es st)
events-IsCoherent [] st w = w
events-IsCoherent (e ∷ later) st w =
    events-IsCoherent later (happen e st) (happen-IsCoherent e st w)

-- Whatever happens after the provider is there, edits, loads and answers in any order, the mode is
-- the user's own exactly when there is a theme of the user's own, on the screen and in what was
-- confirmed, and so the user's own theme is on exactly when the mode says so.
pub personal-IsCoherent :
    (es : List Event) (storage : List (String × String))
    → let st = events es (initial_personal storage) in
      IsCoherent st × (is_personal st ≡ is_personal_mode st.mode)
unfolding initial_personal is_personal
personal-IsCoherent es storage =
    let w = events-IsCoherent es (initial_personal storage) (refl, refl) in
    (w, let k = w.0 in ground arith)
