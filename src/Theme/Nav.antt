-- ===== src/Theme/Nav.antt =====
-- `NavPrefsProvider` (web/src/theme/navPrefs.tsx), the preferences of the navigation. `NAV_DB_ONLY` is
-- true, so nothing is kept in the browser's storage.
use mathlib.Core.List
use guardian_cloud.Prelude.{
  ℕ, suc, Bool, true, false, not, ◌&&◌, Option, none, some, List, [], ◌∷◌, String, str_eq, ◌==◌,
  filter, if◌then◌else◌, ◌otherwise◌,
}
use guardian_cloud.Theme.Schemes.{has}
use guardian_cloud.Theme.NavTypes.{
  NavPrefs, NavPatch, NavPresetId, nav_presets, default_prefs, patched, gives_nothing,
  navigation_body, admin_studio_body,
}

-- `prefs` is the state of the provider, `memory_prefs` and `prefs_write_gen` are the variables of the
-- module, and `sent` holds the two bodies of each `write`, the last ones at the end.
pub record NavState : Type 0 where
  pub prefs : NavPrefs
  pub memory_prefs : Option NavPrefs
  pub prefs_write_gen : ℕ
  pub sent : List (NavPatch × NavPatch)

-- The preferences in memory have every field, so the defaults are those of no memory.
unfoldable pub read : NavState → NavPrefs
read st = st.memory_prefs otherwise default_prefs

-- the provider's listener, `setPrefsState(read())`
unfoldable pub on_nav_prefs : NavState → NavState
unfolding read
on_nav_prefs st = record st { prefs = read st }

-- `write`, whose event reaches the listener before the requests go out
unfoldable pub write : NavPrefs → NavState → NavState
unfolding on_nav_prefs
write p st =
    let told =
      on_nav_prefs
        (record st { prefs_write_gen = suc st.prefs_write_gen; memory_prefs = some p }) in
    record told { sent = List.◌++◌ st.sent ((navigation_body p, admin_studio_body p) ∷ []) }

-- The state that a provider begins with; the variables of the module may be there from before.
unfoldable pub mount_nav : Option NavPrefs → ℕ → NavState
mount_nav memory gen = record {
  prefs = memory otherwise default_prefs;
  memory_prefs = memory;
  prefs_write_gen = gen;
  sent = [];
}

-- The object that the API answers a request with: the preferences it gives, and how many members it
-- has besides. A member `favorites` or `hiddenSections` that is no array is one of the latter.
pub record Settings : Type 0 where
  pub given : NavPatch
  pub others : ℕ

-- `res && Object.keys(res).length`, where a request that fails or is refused gives null
abbrev pub has_keys : Option Settings → Bool
has_keys none = false
has_keys (some s) = not (gives_nothing s.given && s.others == 0)

abbrev pub merged : Option Settings → NavPrefs → NavPrefs
merged none base = base
merged (some s) base = patched s.given base

-- The answers of the two requests of a load that began when `prefsWriteGen` was `gen_at_start`.
unfoldable pub load_prefs : ℕ → Option Settings → Option Settings → NavState → NavState
unfolding read gives_nothing patched
load_prefs gen_at_start nav_res admin_res st =
    let base = merged admin_res (merged nav_res (read st)) in
    let loaded = if has_keys nav_res then true else has_keys admin_res in
    if gen_at_start == st.prefs_write_gen
    then (if loaded then record st { memory_prefs = some base; prefs = base } else st)
    else st

abbrev pub store : NavPrefs → NavState → NavState
store next st = record (write next st) { prefs = next }

unfoldable pub set_prefs : NavPatch → NavState → NavState
unfolding read write patched
set_prefs patch st = store (patched patch (read st)) st

unfoldable pub apply_preset : NavPresetId → NavState → NavState
unfolding read write
apply_preset id st =
    let pr = nav_presets id in
    store
      (record (read st) {
        width = pr.width;
        density = pr.density;
        favorites = pr.favorites;
        top_height = pr.top_height;
      })
      st

-- `xs.includes(x) ? xs.filter((y) => y !== x) : [...xs, x]`
unfoldable pub toggled : String → List String → List String
unfolding has filter
toggled x xs = if has x xs then filter (λ y. not (str_eq y x)) xs else List.◌++◌ xs (x ∷ [])

unfoldable pub toggle_favorite : String → NavState → NavState
unfolding read write toggled
toggle_favorite path st =
    let cur = read st in store (record cur { favorites = toggled path cur.favorites }) st

unfoldable pub toggle_section : String → NavState → NavState
unfolding read write toggled
toggle_section id st =
    let cur = read st in store (record cur { hidden_sections = toggled id cur.hidden_sections }) st

unfoldable pub reset : NavState → NavState
unfolding write
reset st = store default_prefs st
