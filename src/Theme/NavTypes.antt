-- ===== src/Theme/NavTypes.antt =====
-- The preferences of the navigation (web/src/theme/navPrefs.tsx): types, presets and defaults.
use guardian_cloud.Prelude.{
  Bool, true, false, ◌&&◌, Option, none, some, List, [], ◌∷◌, String, ◌otherwise◌,
}

pub data NavWidth : Type 0 where
  px220 px240 px270 px300 px320 : NavWidth

pub data NavCollapsedWidth : Type 0 where
  px56 px68 px80 : NavCollapsedWidth

pub data NavDensity : Type 0 where
  dense cozy compact : NavDensity

pub data TopHeight : Type 0 where
  px56 px64 : TopHeight

pub data TopBlur : Type 0 where
  no_blur md xl : TopBlur

pub data TopOpacity : Type 0 where
  percent70 percent75 percent90 : TopOpacity

pub data MessageDensity : Type 0 where
  cozy compact : MessageDensity

pub data MessageStyle : Type 0 where
  bubble flat : MessageStyle

pub record NavPrefs : Type 0 where
  pub width : NavWidth
  pub collapsed_width : NavCollapsedWidth
  pub density : NavDensity
  pub show_subtitles : Bool
  pub show_section_icons : Bool
  pub show_section_dots : Bool
  pub show_footer_user : Bool
  pub favorites : List String
  pub hidden_sections : List String
  pub top_height : TopHeight
  pub top_opacity : TopOpacity
  pub top_blur : TopBlur
  pub show_breadcrumbs : Bool
  pub show_search : Bool
  pub show_demo_badge : Bool
  pub show_notifications : Bool
  pub show_theme_toggle : Bool
  pub sync_with_sidebar : Bool
  pub admin_radius : String
  pub admin_radius_sm : String
  pub admin_radius_lg : String
  pub message_density : MessageDensity
  pub message_style : MessageStyle

pub data NavPresetId : Type 0 where
  full minimal ops billing dense executive : NavPresetId

pub record NavPreset : Type 0 where
  pub label : String
  pub desc : String
  pub favorites : List String
  pub width : NavWidth
  pub density : NavDensity
  pub top_height : TopHeight

abbrev pub nav_presets : NavPresetId → NavPreset
nav_presets NavPresetId.full = record {
  label = "Full";
  desc = "All 3 services";
  favorites = [];
  width = NavWidth.px270;
  density = NavDensity.cozy;
  top_height = TopHeight.px64;
}
nav_presets NavPresetId.minimal = record {
  label = "Minimal";
  desc = "Overview + Platform only";
  favorites = "/admin" ∷ "/admin/platform" ∷ [];
  width = NavWidth.px240;
  density = NavDensity.compact;
  top_height = TopHeight.px56;
}
nav_presets NavPresetId.ops = record {
  label = "Ops Focus";
  desc = "Security + Platform + Audit";
  favorites = "/admin/security" ∷ "/admin/platform" ∷ "/admin/audit" ∷ [];
  width = NavWidth.px270;
  density = NavDensity.cozy;
  top_height = TopHeight.px64;
}
nav_presets NavPresetId.billing = record {
  label = "Billing Focus";
  desc = "Enterprise + User Billing";
  favorites = "/admin/organizations" ∷ "/admin/users" ∷ "/admin/plans" ∷ [];
  width = NavWidth.px300;
  density = NavDensity.cozy;
  top_height = TopHeight.px64;
}
nav_presets NavPresetId.dense = record {
  label = "Dense Ops";
  desc = "Compact + icon search";
  favorites = "/admin/security" ∷ "/admin/platform" ∷ [];
  width = NavWidth.px240;
  density = NavDensity.dense;
  top_height = TopHeight.px56;
}
nav_presets NavPresetId.executive = record {
  label = "Executive";
  desc = "Spacious + breadcrumbs";
  favorites = [];
  width = NavWidth.px320;
  density = NavDensity.cozy;
  top_height = TopHeight.px64;
}

-- `DEFAULTS`
abbrev pub default_prefs : NavPrefs
default_prefs = record {
  width = NavWidth.px270;
  collapsed_width = NavCollapsedWidth.px68;
  density = NavDensity.cozy;
  show_subtitles = true;
  show_section_icons = true;
  show_section_dots = true;
  show_footer_user = true;
  favorites = [];
  hidden_sections = [];
  top_height = TopHeight.px56;
  top_opacity = TopOpacity.percent75;
  top_blur = TopBlur.xl;
  show_breadcrumbs = true;
  show_search = true;
  show_demo_badge = true;
  show_notifications = true;
  show_theme_toggle = true;
  sync_with_sidebar = true;
  admin_radius = "14px";
  admin_radius_sm = "10px";
  admin_radius_lg = "22px";
  message_density = MessageDensity.cozy;
  message_style = MessageStyle.bubble;
}

-- `Partial<NavPrefs>`
pub record NavPatch : Type 0 where
  pub width : Option NavWidth
  pub collapsed_width : Option NavCollapsedWidth
  pub density : Option NavDensity
  pub show_subtitles : Option Bool
  pub show_section_icons : Option Bool
  pub show_section_dots : Option Bool
  pub show_footer_user : Option Bool
  pub favorites : Option (List String)
  pub hidden_sections : Option (List String)
  pub top_height : Option TopHeight
  pub top_opacity : Option TopOpacity
  pub top_blur : Option TopBlur
  pub show_breadcrumbs : Option Bool
  pub show_search : Option Bool
  pub show_demo_badge : Option Bool
  pub show_notifications : Option Bool
  pub show_theme_toggle : Option Bool
  pub sync_with_sidebar : Option Bool
  pub admin_radius : Option String
  pub admin_radius_sm : Option String
  pub admin_radius_lg : Option String
  pub message_density : Option MessageDensity
  pub message_style : Option MessageStyle

-- `{ ...base, ...patch }`
unfoldable pub patched : NavPatch → NavPrefs → NavPrefs
patched patch base = record {
  width = patch.width otherwise base.width;
  collapsed_width = patch.collapsed_width otherwise base.collapsed_width;
  density = patch.density otherwise base.density;
  show_subtitles = patch.show_subtitles otherwise base.show_subtitles;
  show_section_icons = patch.show_section_icons otherwise base.show_section_icons;
  show_section_dots = patch.show_section_dots otherwise base.show_section_dots;
  show_footer_user = patch.show_footer_user otherwise base.show_footer_user;
  favorites = patch.favorites otherwise base.favorites;
  hidden_sections = patch.hidden_sections otherwise base.hidden_sections;
  top_height = patch.top_height otherwise base.top_height;
  top_opacity = patch.top_opacity otherwise base.top_opacity;
  top_blur = patch.top_blur otherwise base.top_blur;
  show_breadcrumbs = patch.show_breadcrumbs otherwise base.show_breadcrumbs;
  show_search = patch.show_search otherwise base.show_search;
  show_demo_badge = patch.show_demo_badge otherwise base.show_demo_badge;
  show_notifications = patch.show_notifications otherwise base.show_notifications;
  show_theme_toggle = patch.show_theme_toggle otherwise base.show_theme_toggle;
  sync_with_sidebar = patch.sync_with_sidebar otherwise base.sync_with_sidebar;
  admin_radius = patch.admin_radius otherwise base.admin_radius;
  admin_radius_sm = patch.admin_radius_sm otherwise base.admin_radius_sm;
  admin_radius_lg = patch.admin_radius_lg otherwise base.admin_radius_lg;
  message_density = patch.message_density otherwise base.message_density;
  message_style = patch.message_style otherwise base.message_style;
}

abbrev is_absent : {A : Type 0} → Option A → Bool
is_absent none = true
is_absent (some _) = false

-- no member is given
unfoldable pub gives_nothing : NavPatch → Bool
gives_nothing patch =
    is_absent patch.width
    && is_absent patch.collapsed_width
    && is_absent patch.density
    && is_absent patch.show_subtitles
    && is_absent patch.show_section_icons
    && is_absent patch.show_section_dots
    && is_absent patch.show_footer_user
    && is_absent patch.favorites
    && is_absent patch.hidden_sections
    && is_absent patch.top_height
    && is_absent patch.top_opacity
    && is_absent patch.top_blur
    && is_absent patch.show_breadcrumbs
    && is_absent patch.show_search
    && is_absent patch.show_demo_badge
    && is_absent patch.show_notifications
    && is_absent patch.show_theme_toggle
    && is_absent patch.sync_with_sidebar
    && is_absent patch.admin_radius
    && is_absent patch.admin_radius_sm
    && is_absent patch.admin_radius_lg
    && is_absent patch.message_density
    && is_absent patch.message_style

-- the body `navigation` that `write` sends
unfoldable pub navigation_body : NavPrefs → NavPatch
navigation_body p = record {
  width = some p.width;
  collapsed_width = some p.collapsed_width;
  density = some p.density;
  show_subtitles = some p.show_subtitles;
  show_section_icons = some p.show_section_icons;
  show_section_dots = some p.show_section_dots;
  show_footer_user = some p.show_footer_user;
  favorites = some p.favorites;
  hidden_sections = some p.hidden_sections;
  top_height = some p.top_height;
  top_opacity = some p.top_opacity;
  top_blur = some p.top_blur;
  show_breadcrumbs = some p.show_breadcrumbs;
  show_search = some p.show_search;
  show_demo_badge = some p.show_demo_badge;
  show_notifications = some p.show_notifications;
  show_theme_toggle = some p.show_theme_toggle;
  sync_with_sidebar = some p.sync_with_sidebar;
  admin_radius = none;
  admin_radius_sm = none;
  admin_radius_lg = none;
  message_density = none;
  message_style = none;
}

-- the body `adminStudio` that `write` sends
unfoldable pub admin_studio_body : NavPrefs → NavPatch
admin_studio_body p = record {
  width = none;
  collapsed_width = none;
  density = none;
  show_subtitles = none;
  show_section_icons = none;
  show_section_dots = none;
  show_footer_user = none;
  favorites = none;
  hidden_sections = none;
  top_height = none;
  top_opacity = none;
  top_blur = none;
  show_breadcrumbs = none;
  show_search = none;
  show_demo_badge = none;
  show_notifications = none;
  show_theme_toggle = none;
  sync_with_sidebar = none;
  admin_radius = some p.admin_radius;
  admin_radius_sm = some p.admin_radius_sm;
  admin_radius_lg = some p.admin_radius_lg;
  message_density = some p.message_density;
  message_style = some p.message_style;
}
