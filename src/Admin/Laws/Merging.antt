-- ===== src/Admin/Laws/Merging.antt =====
-- The settings: what `updateSettings` writes is what `getSettings` reads
-- (web/src/repositories/adminStore.ts).
use guardian_cloud.Prelude.{
  ◌≡◌, refl, ◌≢◌, ap, ◌∙◌, Bool, true, ◌&&◌, Option, some, List, [], ◌∷◌, String, arith,
  if◌then◌else◌, eq_iff, str_eq,
}
use guardian_cloud.Admin.Types.Security.{Value}
use guardian_cloud.Admin.Types.Platform.{PlatformSettings}
use guardian_cloud.Admin.State.{Host, AdminStore}
use guardian_cloud.Admin.Store.Settings.{
  SettingsSection, section_of, with_section, member, assign, merge, is_defined, json_clone,
  get_settings, update_settings,
}

member-assign :
    (k j : String) (v : Value) (fields : List (String × Value))
    → member j (assign k v fields) ≡ (if str_eq k j then some v else member j fields)
unfolding member assign
member-assign k j v [] = refl
member-assign k j v ((i, w) ∷ fields) =
    ground (arith, eq_iff k j, eq_iff i k, eq_iff i j, member-assign k j v fields)

-- the value that the updates leave at a key: that of the last member with the key, or the old one
abbrev pub final : String → List (String × Value) → Option Value → Option Value
final k [] old = old
final k ((j, v) ∷ updates) old = final k updates (if str_eq j k then some v else old)

member-merge :
    (k : String) (fields updates : List (String × Value))
    → member k (merge fields updates) ≡ final k updates (member k fields)
unfolding merge
member-merge k fields [] = refl
member-merge k fields ((j, v) ∷ updates) =
    member-merge k (assign j v fields) updates
    ∙ ap (λ o. final k updates o) (member-assign j k v fields)

section_of-with_section :
    (q r : SettingsSection) (fields : List (String × Value)) (p : PlatformSettings)
    → (section_of q (with_section q fields p) ≡ fields)
      × (r ≢ q → section_of r (with_section q fields p) ≡ section_of r p)
unfolding section_of with_section
section_of-with_section SettingsSection.general r fields p = (refl, λ ne. ground arith)
section_of-with_section q r fields p = (refl, λ ne. ground arith)

-- Every member of the object has a value that JSON keeps.
abbrev pub all_defined : List (String × Value) → Bool
all_defined [] = true
all_defined (f ∷ fields) = is_defined f && all_defined fields

json_clone_of_all_defined :
    (fields : List (String × Value)) → all_defined fields ≡ true → json_clone fields ≡ fields
unfolding json_clone
json_clone_of_all_defined [] e = refl
json_clone_of_all_defined (f ∷ fields) e = ground (arith, json_clone_of_all_defined fields)

all_defined-assign :
    (k : String) (v : Value) (fields : List (String × Value))
    → is_defined (k, v) ≡ true
    → all_defined fields ≡ true
    → all_defined (assign k v fields) ≡ true
unfolding assign
all_defined-assign k v [] d e = ground arith
all_defined-assign k v ((j, w) ∷ fields) d e = ground (arith, all_defined-assign k v fields d)

all_defined-merge :
    (fields updates : List (String × Value))
    → all_defined fields ≡ true
    → all_defined updates ≡ true
    → all_defined (merge fields updates) ≡ true
unfolding merge
all_defined-merge fields [] e u = e
all_defined-merge fields ((k, v) ∷ updates) e u =
    all_defined-merge (assign k v fields) updates (all_defined-assign k v fields (ground arith) e)
      (ground arith)

section_of-get_settings :
    (q : SettingsSection) (s : AdminStore)
    → section_of q (get_settings s) ≡ json_clone (section_of q s.settings)
unfolding section_of get_settings
section_of-get_settings SettingsSection.general s = refl
section_of-get_settings _ s = refl

-- An update of a section whose members and updates are all defined is read back at once: a key
-- that is updated has its new value, every other key of the section its old one, and every other
-- section stays as it was.
pub update_settings_reads_back :
    (h : Host) (section other : SettingsSection) (updates : List (String × Value)) (k : String)
    (s : AdminStore)
    → all_defined (section_of section s.settings) ≡ true
    → all_defined updates ≡ true
    → other ≢ section
    → let (reply, s') = update_settings h section updates s in
      (member k (section_of section reply)
        ≡ final k updates (member k (section_of section s.settings)))
      × (section_of other s'.settings ≡ section_of other s.settings)
unfolding update_settings
update_settings_reads_back h section other updates k s d u ne =
    let old = section_of section s.settings in
    let new = merge old updates in
    let held = section_of-with_section section other new s.settings in
    (
      rw section_of-get_settings (
          rw (held.0, json_clone_of_all_defined new (all_defined-merge old updates d u))
            (member-merge k old updates)),
      held.1 ne,
    )
