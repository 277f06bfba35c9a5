-- ===== src/Admin/Tests/Lookups.antt =====
-- Look-ups, settings and switches at concrete inputs.
use mathlib.Core.Option
use guardian_cloud.Prelude.{◌≡◌, refl, some, [], ◌∷◌}
use guardian_cloud.Admin.Types.Security.{Value}
use guardian_cloud.Admin.Types.Spread.{spread_organization}
use guardian_cloud.Admin.Store.Organizations
use guardian_cloud.Admin.Store.Settings
use guardian_cloud.Admin.Store.Settings.{SettingsSection}
use guardian_cloud.Admin.Seed.Initial.{initial_store}
use guardian_cloud.Admin.Laws.Lookup.{get_organization_by_id-update_organization}
use guardian_cloud.Admin.Laws.Merging.{update_settings_reads_back}
use guardian_cloud.Admin.Tests.Inputs.{host, renamed}

get_organization_by_id-update_organization_example :
    let (r, s') = Organizations.update_organization host "org-101" renamed initial_store in
    (r
      ≡ Option.map
          (λ o. spread_organization o renamed)
          (Organizations.get_organization_by_id "org-101" initial_store))
    × (Organizations.get_organization_by_id "org-102" s'
        ≡ Organizations.get_organization_by_id "org-102" initial_store)
get_organization_by_id-update_organization_example =
    get_organization_by_id-update_organization host "org-101" renamed "org-102" initial_store refl

update_settings_reads_back_example :
    let (reply, s') =
      Settings.update_settings host SettingsSection.security
        (("maxFailedLogins", Value.num 3) ∷ [])
        initial_store in
    (Settings.member "maxFailedLogins" (Settings.section_of SettingsSection.security reply)
      ≡ some (Value.num 3))
    × (Settings.section_of SettingsSection.general s'.settings
        ≡ Settings.section_of SettingsSection.general initial_store.settings)
unfolding initial_store Settings.section_of
update_settings_reads_back_example =
    update_settings_reads_back host SettingsSection.security SettingsSection.general
      (("maxFailedLogins", Value.num 3) ∷ []) "maxFailedLogins" initial_store refl refl (λ e. cc)
