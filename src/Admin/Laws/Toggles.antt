-- ===== src/Admin/Laws/Toggles.antt =====
-- The two switches of the platform pages (`toggleFeatureFlag` and `toggleAgentMinSupported` of
-- web/src/repositories/adminStore.ts).
use mathlib.Core.Option
use guardian_cloud.Prelude.{
  ◌≡◌, refl, Bool, not, Option, String, arith, if◌then◌else◌, find, str_eq,
}
use guardian_cloud.Admin.State.{Host, AdminStore}
use guardian_cloud.Admin.Store.Platform.{
  toggled_release, toggle_agent_min_supported, toggled_flag, toggle_feature_flag,
}
use guardian_cloud.Admin.Laws.Lookup.{by_id-find_and_set}

-- what the views show of a flag and of a release
abbrev pub flag_enabled : String → AdminStore → Option Bool
flag_enabled id s = Option.map (λ f. f.enabled) (find (λ f. str_eq f.id id) s.feature_flags)

abbrev pub min_supported : String → AdminStore → Option Bool
min_supported id s =
    Option.map (λ r. r.is_min_supported) (find (λ r. str_eq r.id id) s.agent_releases)

flag_enabled-toggle_feature_flag :
    (h : Host) (id j : String) (s : AdminStore)
    → flag_enabled j (toggle_feature_flag h id s).1
      ≡ (if str_eq id j then Option.map not (flag_enabled j s) else flag_enabled j s)
unfolding toggle_feature_flag
flag_enabled-toggle_feature_flag h id j s =
    ground (arith, by_id-find_and_set (λ x. x.id) j id (toggled_flag h) s.feature_flags (λ x. refl))

min_supported-toggle_agent_min_supported :
    (h : Host) (id j : String) (s : AdminStore)
    → min_supported j (toggle_agent_min_supported h id s).1
      ≡ (if str_eq id j then Option.map not (min_supported j s) else min_supported j s)
unfolding toggle_agent_min_supported
min_supported-toggle_agent_min_supported h id j s =
    ground (arith, by_id-find_and_set (λ x. x.id) j id toggled_release s.agent_releases (λ x. refl))

not_twice :
    (b : Bool) (o o1 o2 : Option Bool)
    → o1 ≡ (if b then Option.map not o else o)
    → o2 ≡ (if b then Option.map not o1 else o1)
    → o2 ≡ o
not_twice b o o1 o2 e f = ground arith

-- A switch turns over the flag with its id and no other, and a second use of the switch brings
-- every flag back; so it is with the releases' minimum support.
pub toggle_twice :
    (h h' : Host) (id j : String) (s : AdminStore)
    → let s1 = (toggle_feature_flag h id s).1 in
      let s2 = (toggle_feature_flag h' id s1).1 in
      let t1 = (toggle_agent_min_supported h id s).1 in
      let t2 = (toggle_agent_min_supported h' id t1).1 in
      (flag_enabled j s1
        ≡ (if str_eq id j then Option.map not (flag_enabled j s) else flag_enabled j s))
      × (flag_enabled j s2 ≡ flag_enabled j s)
      × (min_supported j t1
          ≡ (if str_eq id j then Option.map not (min_supported j s) else min_supported j s))
      × (min_supported j t2 ≡ min_supported j s)
toggle_twice h h' id j s =
    let s1 = (toggle_feature_flag h id s).1 in
    let t1 = (toggle_agent_min_supported h id s).1 in
    let a = flag_enabled-toggle_feature_flag h id j s in
    let b = flag_enabled-toggle_feature_flag h' id j s1 in
    let c = min_supported-toggle_agent_min_supported h id j s in
    let d = min_supported-toggle_agent_min_supported h' id j t1 in
    (
      a,
      not_twice (str_eq id j) (flag_enabled j s) _ _ a b,
      c,
      not_twice (str_eq id j) (min_supported j s) _ _ c d,
    )
