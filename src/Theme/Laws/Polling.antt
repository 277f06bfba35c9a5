-- ===== src/Theme/Laws/Polling.antt =====
-- The polling of the theme: its waits, and what it comes to.
use mathlib.Core.Path.{subst}
use guardian_cloud.Prelude.{
  ℕ, ◌≤◌, ◌≡◌, ◌≢◌, refl, sym, ap, ◌∙◌, none, List, [], ◌∷◌, ◌++◌, length, ◌+◌, ◌*◌, arith,
}
use guardian_cloud.Client.Json.{Body}
use guardian_cloud.Theme.Tokens.{PlatformTheme, watchline_defaults}
use guardian_cloud.Theme.Platform.{Answer, map_theme, fetch_theme}
use guardian_cloud.Theme.Provider.{ThemeState, fall_back, refresh_theme, take_polled, poll, polls}

-- the answers that are no theme
abbrev pub IsFailure : Answer → Type 0
IsFailure (Answer.answered _) = ⊥
IsFailure (Answer.refused _ _) = Unit
IsFailure (Answer.rejected _) = Unit

abbrev pub AllFail : List Answer → Type 0
AllFail [] = Unit
AllFail (a ∷ later) = IsFailure a × AllFail later

-- the answers whose theme has a version
abbrev pub AllOfVersion : ℕ → List Body → Type 0
AllOfVersion v [] = Unit
AllOfVersion v (b ∷ later) = ((map_theme b).version ≡ v) × AllOfVersion v later

-- the wait between two polls stays within its bounds
abbrev pub IsPaced : ThemeState → Type 0
IsPaced st = (15000 ≤ st.delay) × (st.delay ≤ 60000)

-- how long the polls with some answers take, less the requests themselves
unfoldable pub waited : List Answer → ThemeState → ℕ
waited [] st = 0
waited (a ∷ later) st = st.delay + waited later (poll a st)

poll-IsPaced : (a : Answer) (st : ThemeState) → IsPaced (poll a st)
unfolding poll fetch_theme take_polled
poll-IsPaced a st = ground arith

-- A poll that fails leaves the theme.
poll_failure :
    (a : Answer) (st : ThemeState)
    → IsFailure a
    → ((poll a st).theme ≡ st.theme) × ((poll a st).version_ref ≡ st.version_ref)
unfolding poll fetch_theme
poll_failure (Answer.answered b) st f = absurd f
poll_failure (Answer.refused s t) st f = (refl, refl)
poll_failure (Answer.rejected m) st f = (refl, refl)

poll_success :
    (b : Body) (st : ThemeState)
    → (map_theme b).version ≢ st.version_ref
    → let st' = poll (Answer.answered b) st in
      (st'.theme ≡ map_theme b)
      × (st'.version_ref ≡ (map_theme b).version)
      × (st'.delay ≡ 15000)
      × (st'.error ≡ none)
unfolding poll fetch_theme take_polled
poll_success b st new = ground arith

-- However many polls fail, the theme stays as it was; the first poll that is answered with another
-- version shows the theme of the answer, clears the error and sets the pace back. Where the wait
-- before was within 15 and 60 seconds, the polls take a minute each at most.
pub polls_catch_up :
    (failures : List Answer) (b : Body) (st : ThemeState)
    → AllFail failures
    → (map_theme b).version ≢ st.version_ref
    → IsPaced st
    → let st' = polls (failures ++ (Answer.answered b ∷ [])) st in
      ((polls failures st).theme ≡ st.theme)
      × (st'.theme ≡ map_theme b)
      × (st'.delay ≡ 15000)
      × (st'.error ≡ none)
      × (waited (failures ++ (Answer.answered b ∷ [])) st ≤ (length failures + 1) * 60000)
unfolding polls waited
polls_catch_up [] b st w new paced =
    let (t, v, d, e) = poll_success b st new in (refl, t, d, e, omega arith)
polls_catch_up (a ∷ later) b st w new paced =
    let (same, version) = poll_failure a st w.0 in
    let (k, t, d, e, n) =
      polls_catch_up later b (poll a st) w.1 (λ v. new (v ∙ version)) (poll-IsPaced a st) in
    (k ∙ same, t, d, e, omega arith)

-- the polls that are answered
abbrev pub answers : List Body → List Answer
answers [] = []
answers (b ∷ later) = Answer.answered b ∷ answers later

poll_same :
    (b : Body) (st : ThemeState)
    → (map_theme b).version ≡ st.version_ref
    → ((poll (Answer.answered b) st).theme ≡ st.theme)
      × ((poll (Answer.answered b) st).version_ref ≡ st.version_ref)
unfolding poll fetch_theme take_polled
poll_same b st e = ground arith

polls_same :
    (bodies : List Body) (st : ThemeState)
    → AllOfVersion st.version_ref bodies
    → (polls (answers bodies) st).theme ≡ st.theme
unfolding polls
polls_same [] st w = refl
polls_same (b ∷ later) st w =
    let (t, v) = poll_same b st w.0 in
    polls_same later (poll (Answer.answered b) st) (subst (λ n. AllOfVersion n later) (sym v) w.1)
    ∙ t

refresh_failure :
    (a : Answer) (st : ThemeState)
    → IsFailure a
    → ((refresh_theme a st).theme
        ≡ record { tokens = watchline_defaults; version = st.version_ref; updated_at = none })
      × ((refresh_theme a st).version_ref ≡ st.version_ref)
unfolding refresh_theme fetch_theme fall_back
refresh_failure (Answer.answered b) st f = absurd f
refresh_failure (Answer.refused s t) st f = (refl, refl)
refresh_failure (Answer.rejected m) st f = (refl, refl)

-- After a refresh that fails, the default tokens are shown, and they stay however many polls are
-- answered, as long as the theme of the API has the version that was taken last.
pub refresh_theme_stuck :
    (failure : Answer) (bodies : List Body) (st : ThemeState)
    → IsFailure failure
    → AllOfVersion st.version_ref bodies
    → (polls (answers bodies) (refresh_theme failure st)).theme.tokens ≡ watchline_defaults
refresh_theme_stuck failure bodies st f w =
    let (t, v) = refresh_failure failure st f in
    ap (λ (p : PlatformTheme). p.tokens)
      (polls_same bodies (refresh_theme failure st) (subst (λ n. AllOfVersion n bodies) (sym v) w)
        ∙ t)
