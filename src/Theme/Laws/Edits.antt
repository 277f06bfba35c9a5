-- ===== src/Theme/Laws/Edits.antt =====
-- What edits of the dashboard's theme come to, when a save fails and when another edit follows.
use guardian_cloud.Prelude.{
  ◌≡◌, refl, ap, ◌∙◌, sym, Bool, true, false, Option, none, some, List, [], ◌∷◌, String, str_eq,
  arith, find,
}
use guardian_cloud.Theme.Tokens.{ThemeTokens, ThemePack}
use guardian_cloud.Theme.Packs.{theme_packs}
use guardian_cloud.Theme.DashboardApi.{DashboardThemeResponse, Reply, put_dashboard_theme}
use guardian_cloud.Theme.Personal.{
  PersonalState, revert_optimistic, persist_personal, persist_personal_end, set_admin_theme,
  handle_pack, take_pack, handle_scheme, handle_accent, clear, base_theme, with_accent,
}
use guardian_cloud.Theme.Laws.Confirmed.{Edit, edit, edits}

take_pack_snapshot :
    (o : Option ThemePack) (st : PersonalState) → (take_pack o st).snapshot ≡ st.snapshot
unfolding persist_personal
take_pack_snapshot none st = refl
take_pack_snapshot (some p) st = refl

abbrev pub is_some_text : Option String → Bool
is_some_text none = false
is_some_text (some _) = true

-- an edit leaves what was confirmed
edit_snapshot : (e : Edit) (st : PersonalState) → (edit e st).snapshot ≡ st.snapshot
unfolding set_admin_theme persist_personal handle_pack handle_scheme handle_accent clear
edit_snapshot (Edit.set none) st = refl
edit_snapshot (Edit.set (some t)) st = refl
edit_snapshot (Edit.pack id) st = take_pack_snapshot (find (λ p. str_eq p.id id) theme_packs) st
edit_snapshot (Edit.scheme s) st = ground arith
edit_snapshot (Edit.accent a a2) st = refl
edit_snapshot Edit.follow st = refl

edits_snapshot : (es : List Edit) (st : PersonalState) → (edits es st).snapshot ≡ st.snapshot
edits_snapshot [] st = refl
edits_snapshot (e ∷ later) st = edits_snapshot later (edit e st) ∙ edit_snapshot e st

-- the answers to a change that are none, and their messages
abbrev pub IsRefusal : Reply → Type 0
IsRefusal (Reply.answered _) = ⊥
IsRefusal (Reply.refused _ _) = Unit
IsRefusal (Reply.rejected _) = Unit

persist_personal_end_failure :
    (r : Reply) (st : PersonalState)
    → IsRefusal r
    → let st' = persist_personal_end r st in
      (st'.mode ≡ st.snapshot.mode)
      × (st'.admin_theme ≡ st.snapshot.theme)
      × (st'.snapshot ≡ st.snapshot)
      × (is_some_text st'.error ≡ true)
      × (st'.saving ≡ false)
      × (st'.sent ≡ st.sent)
unfolding persist_personal_end put_dashboard_theme revert_optimistic
persist_personal_end_failure (Reply.answered _) st f = absurd f
persist_personal_end_failure (Reply.refused _ _) st f = (refl, refl, refl, refl, refl, refl)
persist_personal_end_failure (Reply.rejected _) st f = (refl, refl, refl, refl, refl, refl)

-- However many edits were made, a save that fails brings back the theme and the mode that were
-- confirmed before the edits, reports an error and ends the saving, and asks the API for nothing.
pub persist_personal_end_reverts :
    (es : List Edit) (r : Reply) (st : PersonalState)
    → IsRefusal r
    → let st' = persist_personal_end r (edits es st) in
      (st'.mode ≡ st.snapshot.mode)
      × (st'.admin_theme ≡ st.snapshot.theme)
      × (st'.snapshot ≡ st.snapshot)
      × (is_some_text st'.error ≡ true)
      × (st'.saving ≡ false)
      × (st'.sent ≡ (edits es st).sent)
persist_personal_end_reverts es r st f =
    let (m, t, s, e, n, q) = persist_personal_end_failure r (edits es st) f in
    let k = edits_snapshot es st in
    (
      m ∙ ap (λ (p : DashboardThemeResponse). p.mode) k,
      t ∙ ap (λ (p : DashboardThemeResponse). p.theme) k,
      s ∙ k,
      e,
      n,
      q,
    )

base_of_snapshot :
    (t : ThemeTokens) (st : PersonalState) → st.snapshot.theme ≡ some t → base_theme st ≡ t
base_of_snapshot t st e = rw e refl

-- Where a theme was confirmed, a change of the accent starts from it, and so does away with every edit
-- since then whose answer is not there yet.
pub handle_accent_forgets :
    (es : List Edit) (a : String) (a2 : Option String) (st : PersonalState) (t : ThemeTokens)
    → st.snapshot.theme ≡ some t
    → ((handle_accent a a2 (edits es st)).admin_theme ≡ (handle_accent a a2 st).admin_theme)
      × ((handle_accent a a2 st).admin_theme ≡ some (with_accent a a2 t))
unfolding handle_accent persist_personal
handle_accent_forgets es a a2 st t e =
    let k = ap (λ (p : DashboardThemeResponse). p.theme) (edits_snapshot es st) ∙ e in
    let b = ap (λ u. some (with_accent a a2 u)) (base_of_snapshot t (edits es st) k) in
    let c = ap (λ u. some (with_accent a a2 u)) (base_of_snapshot t st e) in (b ∙ sym c, c)
