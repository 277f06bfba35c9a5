-- ===== src/Theme/Laws/Preferences.antt =====
-- The preferences of the navigation: what is shown, what is kept and what a late answer may change.
use mathlib.Core.Path.{subst}
use guardian_cloud.Prelude.{
  ℕ, suc, ◌+◌, ◌≡◌, ◌≢◌, refl, inl, inr, ap, ◌∙◌, sym, Option, List, [], ◌∷◌, String, ◌==◌,
  Bool-cases, arith, length,
}
use guardian_cloud.Theme.NavTypes.{NavPrefs, NavPatch, NavPresetId}
use guardian_cloud.Theme.Nav.{
  NavState, Settings, has_keys, read, on_nav_prefs, write, mount_nav, load_prefs, store, set_prefs,
  apply_preset, toggle_favorite, toggle_section, reset,
}

-- what the user does
pub data Choice : Type 0 where
  patch : NavPatch → Choice
  preset : NavPresetId → Choice
  favorite section : String → Choice
  defaults : Choice

abbrev pub choose : Choice → NavState → NavState
choose (Choice.patch p) = set_prefs p
choose (Choice.preset id) = apply_preset id
choose (Choice.favorite path) = toggle_favorite path
choose (Choice.section id) = toggle_section id
choose Choice.defaults = reset

abbrev pub choices : List Choice → NavState → NavState
choices [] st = st
choices (c ∷ later) st = choices later (choose c st)

-- every choice puts preferences into the store
pub choose-store : (c : Choice) (st : NavState) → (p : NavPrefs) × (choose c st ≡ store p st)
unfolding set_prefs apply_preset toggle_favorite toggle_section reset
choose-store (Choice.patch p) st = (_, refl)
choose-store (Choice.preset id) st = (_, refl)
choose-store (Choice.favorite path) st = (_, refl)
choose-store (Choice.section id) st = (_, refl)
choose-store Choice.defaults st = (_, refl)

store_gen : (p : NavPrefs) (st : NavState) → (store p st).prefs_write_gen ≡ suc st.prefs_write_gen
unfolding write on_nav_prefs
store_gen p st = refl

choose_gen : (c : Choice) (st : NavState) → (choose c st).prefs_write_gen ≡ suc st.prefs_write_gen
choose_gen c st =
    let (p, e) = choose-store c st in ap (λ (s : NavState). s.prefs_write_gen) e ∙ store_gen p st

choices_gen :
    (cs : List Choice) (st : NavState)
    → (choices cs st).prefs_write_gen ≡ length cs + st.prefs_write_gen
choices_gen [] st = omega arith
choices_gen (c ∷ later) st =
    let n = choices_gen later (choose c st) in let m = choose_gen c st in omega arith

load_prefs_other :
    (n : ℕ) (nav_res admin_res : Option Settings) (st : NavState)
    → n ≢ st.prefs_write_gen
    → load_prefs n nav_res admin_res st ≡ st
unfolding load_prefs
load_prefs_other n nav_res admin_res st other = ground arith

-- A load whose answers come after the user has chosen anything changes nothing, whatever the answers
-- are.
pub load_prefs_late :
    (c : Choice) (cs : List Choice) (nav_res admin_res : Option Settings) (st : NavState)
    → load_prefs st.prefs_write_gen nav_res admin_res (choices (c ∷ cs) st) ≡ choices (c ∷ cs) st
load_prefs_late c cs nav_res admin_res st =
    let n = choices_gen (c ∷ cs) st in
    load_prefs_other st.prefs_write_gen nav_res admin_res (choices (c ∷ cs) st) (λ e. omega arith)

-- What is shown is what is kept, or the defaults where nothing is.
abbrev pub IsShown : NavState → Type 0
IsShown st = st.prefs ≡ read st

store-IsShown : (p : NavPrefs) (st : NavState) → IsShown (store p st)
unfolding write on_nav_prefs read
store-IsShown p st = refl

choose-IsShown : (c : Choice) (st : NavState) → IsShown (choose c st)
choose-IsShown c st = let (p, e) = choose-store c st in subst IsShown (sym e) (store-IsShown p st)

load_prefs-IsShown :
    (n : ℕ) (nav_res admin_res : Option Settings) (st : NavState)
    → IsShown st
    → IsShown (load_prefs n nav_res admin_res st)
unfolding load_prefs read
load_prefs-IsShown n nav_res admin_res st w = elim (Bool-cases (n == st.prefs_write_gen)) [
  | inl e ↦ elim (Bool-cases (has_keys nav_res)) [
    | inl f ↦ rw e (rw f refl)
    | inr f ↦ elim (Bool-cases (has_keys admin_res)) [
      | inl g ↦ rw e (rw f (rw g refl))
      | inr g ↦ rw e (rw f (rw g w))
    ]
  ]
  | inr e ↦ rw e w
]

-- what happens to the provider
pub data NavEvent : Type 0 where
  chosen : Choice → NavEvent
  loaded : ℕ → Option Settings → Option Settings → NavEvent
  told : NavEvent

abbrev pub nav_events : List NavEvent → NavState → NavState
nav_events [] st = st
nav_events (NavEvent.chosen c ∷ later) st = nav_events later (choose c st)
nav_events (NavEvent.loaded n a b ∷ later) st = nav_events later (load_prefs n a b st)
nav_events (NavEvent.told ∷ later) st = nav_events later (on_nav_prefs st)

on_nav_prefs-IsShown : (st : NavState) → IsShown (on_nav_prefs st)
unfolding on_nav_prefs read
on_nav_prefs-IsShown st = refl

nav_events-IsShown : (es : List NavEvent) (st : NavState) → IsShown st → IsShown (nav_events es st)
nav_events-IsShown [] st w = w
nav_events-IsShown (NavEvent.chosen c ∷ later) st w =
    nav_events-IsShown later (choose c st) (choose-IsShown c st)
nav_events-IsShown (NavEvent.loaded n a b ∷ later) st w =
    nav_events-IsShown later (load_prefs n a b st) (load_prefs-IsShown n a b st w)
nav_events-IsShown (NavEvent.told ∷ later) st w =
    nav_events-IsShown later (on_nav_prefs st) (on_nav_prefs-IsShown st)

mount_nav-IsShown : (m : Option NavPrefs) (g : ℕ) → IsShown (mount_nav m g)
unfolding mount_nav read
mount_nav-IsShown m g = refl

-- Whatever happens after the provider is there, choices and answers of loads in any order, the
-- preferences on the screen are the ones that the next choice starts from.
pub nav_events_shown :
    (es : List NavEvent) (m : Option NavPrefs) (g : ℕ)
    → let st = nav_events es (mount_nav m g) in st.prefs ≡ read st
nav_events_shown es m g = nav_events-IsShown es (mount_nav m g) (mount_nav-IsShown m g)
