-- ===== src/Admin/Store/Settings.antt =====
-- The settings of `AdminStore`: `getSettings` and `updateSettings`.
use guardian_cloud.Prelude.{
  Bool, true, false, Option, none, some, List, [], ◌∷◌, String, if◌then◌else◌, filter, str_eq,
}
use guardian_cloud.Admin.Types.Security.{Value}
use guardian_cloud.Admin.Types.Platform.{Detail, PlatformSettings}
use guardian_cloud.Admin.State.{Host, AdminStore, notify, log_action}

-- the keys of `PlatformSettings`
pub data SettingsSection : Type 0 where
  general security authentication notifications storage retention integrations defaults :
      SettingsSection

abbrev pub section_text : SettingsSection → String
section_text SettingsSection.general = "general"
section_text SettingsSection.security = "security"
section_text SettingsSection.authentication = "authentication"
section_text SettingsSection.notifications = "notifications"
section_text SettingsSection.storage = "storage"
section_text SettingsSection.retention = "retention"
section_text SettingsSection.integrations = "integrations"
section_text SettingsSection.defaults = "defaults"

-- `settings[section]`
unfoldable pub section_of : SettingsSection → PlatformSettings → List (String × Value)
section_of SettingsSection.general p = p.general
section_of SettingsSection.security p = p.security
section_of SettingsSection.authentication p = p.authentication
section_of SettingsSection.notifications p = p.notifications
section_of SettingsSection.storage p = p.storage
section_of SettingsSection.retention p = p.retention
section_of SettingsSection.integrations p = p.integrations
section_of SettingsSection.defaults p = p.defaults

-- `{ ...settings, [section]: fields }`
unfoldable pub with_section :
    SettingsSection → List (String × Value) → PlatformSettings → PlatformSettings
with_section SettingsSection.general fields p = record p { general = fields }
with_section SettingsSection.security fields p = record p { security = fields }
with_section SettingsSection.authentication fields p = record p { authentication = fields }
with_section SettingsSection.notifications fields p = record p { notifications = fields }
with_section SettingsSection.storage fields p = record p { storage = fields }
with_section SettingsSection.retention fields p = record p { retention = fields }
with_section SettingsSection.integrations fields p = record p { integrations = fields }
with_section SettingsSection.defaults fields p = record p { defaults = fields }

-- the member of an object with a key
unfoldable pub member : String → List (String × Value) → Option Value
member k [] = none
member k ((j, v) ∷ fields) = if str_eq j k then some v else member k fields

-- `fields[key] = value`: a member that is there keeps its place.
unfoldable pub assign : String → Value → List (String × Value) → List (String × Value)
assign k v [] = (k, v) ∷ []
assign k v ((j, w) ∷ fields) = if str_eq j k then (j, v) ∷ fields else (j, w) ∷ assign k v fields

-- `{ ...fields, ...updates }`
unfoldable pub merge : List (String × Value) → List (String × Value) → List (String × Value)
merge fields [] = fields
merge fields ((k, v) ∷ updates) = merge (assign k v fields) updates

abbrev is_value : Value → Bool
is_value Value.undefined = false
is_value _ = true

abbrev pub is_defined : String × Value → Bool
is_defined (_, v) = is_value v

-- `JSON.parse(JSON.stringify(fields))`: a member that is undefined is left out.
unfoldable pub json_clone : List (String × Value) → List (String × Value)
unfolding filter
json_clone fields = filter is_defined fields

unfoldable pub get_settings : AdminStore → PlatformSettings
unfolding json_clone
get_settings s = record {
  general = json_clone s.settings.general;
  security = json_clone s.settings.security;
  authentication = json_clone s.settings.authentication;
  notifications = json_clone s.settings.notifications;
  storage = json_clone s.settings.storage;
  retention = json_clone s.settings.retention;
  integrations = json_clone s.settings.integrations;
  defaults = json_clone s.settings.defaults;
}

unfoldable pub update_settings :
    Host → SettingsSection → List (String × Value) → AdminStore → PlatformSettings × AdminStore
unfolding notify log_action
update_settings h section updates s =
    let merged = merge (section_of section s.settings) updates in
    let details = some (("updates", Detail.section_updates updates) ∷ []) in
    let s' = notify (
      log_action h 0 "PLATFORM_SETTINGS_UPDATED" "PlatformSettings" (section_text section) details
        (record s { settings = with_section section merged s.settings })) in
    (get_settings s', s')
