-- ===== src/Theme/Laws/Saved.antt =====
-- The preferences that are sent to the API and come back.
use mathlib.Core.Path.{subst}
use guardian_cloud.Prelude.{
  ℕ, ◌≡◌, refl, sym, true, Option, none, some, List, [], ◌∷◌, ◌++◌, ◌==◌, arith,
}
use guardian_cloud.Theme.NavTypes.{
  NavPrefs, NavPatch, patched, gives_nothing, navigation_body, admin_studio_body,
}
use guardian_cloud.Theme.Nav.{
  NavState, Settings, merged, on_nav_prefs, write, mount_nav, load_prefs, store,
}
use guardian_cloud.Theme.Laws.Preferences.{Choice, choose, choose-store}

-- The bodies that were saved give the preferences back, whatever was there before.
merged_bodies :
    (p base : NavPrefs)
    → merged
        (some (record { given = admin_studio_body p; others = 0 }))
        (merged (some (record { given = navigation_body p; others = 0 })) base)
      ≡ p
unfolding patched navigation_body admin_studio_body
merged_bodies p base = refl

-- the last bodies that were sent, where there are any
abbrev pub latest :
    List (NavPatch × NavPatch) → Option (NavPatch × NavPatch) → Option (NavPatch × NavPatch)
latest [] o = o
latest (b ∷ bs) o = latest bs (some b)

latest-append :
    (bs : List (NavPatch × NavPatch)) (b : NavPatch × NavPatch) (o : Option (NavPatch × NavPatch))
    → latest (bs ++ (b ∷ [])) o ≡ some b
latest-append [] b o = refl
latest-append (_ ∷ bs) b o = latest-append bs b _

abbrev pub answer_of : NavPatch → Option Settings
answer_of given = some (record { given = given; others = 0 })

abbrev pub bodies_of : NavPrefs → NavPatch × NavPatch
bodies_of p = (navigation_body p, admin_studio_body p)

store_sent :
    (p : NavPrefs) (st : NavState)
    → latest (store p st).sent none ≡ some (bodies_of (store p st).prefs)
unfolding write on_nav_prefs
store_sent p st = latest-append st.sent (bodies_of p) none

choose_sent :
    (c : Choice) (st : NavState)
    → latest (choose c st).sent none ≡ some (bodies_of (choose c st).prefs)
choose_sent c st =
    let (p, e) = choose-store c st in
    subst (λ (s : NavState). latest s.sent none ≡ some (bodies_of s.prefs)) (sym e)
      (store_sent p st)

load_bodies :
    (p : NavPrefs) (m : Option NavPrefs) (g : ℕ)
    → (load_prefs g
        (answer_of (navigation_body p))
        (answer_of (admin_studio_body p))
        (mount_nav m g)).prefs
      ≡ p
unfolding load_prefs mount_nav navigation_body admin_studio_body gives_nothing patched
load_bodies p m g = let same : (g == g) ≡ true = ground arith in rw same refl

-- After the user has chosen anything, the two bodies that were sent last are those of the preferences
-- on the screen, and a provider that gets them back in its load shows the same preferences, whatever
-- it had in memory.
pub choose-load_prefs :
    (c : Choice) (st : NavState) (m : Option NavPrefs) (g : ℕ)
    → let p = (choose c st).prefs in
      (latest (choose c st).sent none ≡ some (navigation_body p, admin_studio_body p))
      × ((load_prefs g
            (answer_of (navigation_body p))
            (answer_of (admin_studio_body p))
            (mount_nav m g)).prefs
          ≡ p)
choose-load_prefs c st m g = (choose_sent c st, load_bodies (choose c st).prefs m g)
