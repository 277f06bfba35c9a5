-- ===== src/Admin/Laws/Lookup.antt =====
-- The store as maps from ids to objects: what a look-up by id finds after a change
-- (web/src/repositories/adminStore.ts).
use mathlib.Core.Option
use guardian_cloud.Prelude.{
  ◌≡◌, sym, ap, inl, inr, true, false, Option, none, some, List, String, arith, Bool-cases,
  if◌then◌else◌, find, find_and_set, eq_iff, str_eq,
}
use guardian_cloud.Admin.Types.Enums.{TenantStatus, IncidentStatus}
use guardian_cloud.Admin.Types.Partial.{PartialOrganization, PartialIndividualUser, PartialPlan}
use guardian_cloud.Admin.Types.Spread.{spread_organization, spread_user, spread_plan}
use guardian_cloud.Admin.State.{Host, AdminStore}
use guardian_cloud.Admin.Store.Organizations.{
  get_organization_by_id, update_organization, set_organization_status, with_tenant_status,
}
use guardian_cloud.Admin.Store.Users.{get_user_by_id, update_user}
use guardian_cloud.Admin.Store.Plans.{get_plan_by_id, update_plan}
use guardian_cloud.Admin.Store.Security.{
  get_incident_by_id, update_incident_status, with_incident_status,
}
use guardian_cloud.Admin.Store.Iam.{
  get_admin_by_id, remove_admin, get_role_by_id, update_role_permissions, with_permissions,
}
use guardian_cloud.Prelude.Search.{
  find_and_set_lem, items_or, items_or-find_and_set, find-update_first_self, find-update_first_ne,
  find-filter-not, find-filter_ne,
}

module _ {ℓ} {A : Type ℓ} (id : A → String) where
  abbrev pub by_id : String → List A → Option A
  by_id k xs = find (λ x. str_eq (id x) k) xs

  other_id :
      (j k : String)
      → str_eq k j ≡ false
      → (x : A) → str_eq (id x) k ≡ true
      → str_eq (id x) j ≡ false
  other_id j k ne x e = ground (arith, eq_iff (id x) k, eq_iff (id x) j, eq_iff k j)

  -- A change of the object with the id `k` that keeps the id is a change of the map at `k`.
  pub by_id-find_and_set :
      (j k : String) (f : A → A) (xs : List A)
      → ((x : A) → id (f x) ≡ id x)
      → by_id j (items_or xs (find_and_set (λ x. str_eq (id x) k) f xs))
        ≡ (if str_eq k j then Option.map f (by_id j xs) else by_id j xs)
  by_id-find_and_set j k f xs keep = elim (Bool-cases (str_eq k j)) [
    | inl e ↦
        let p : j ≡ k = sym ((eq_iff k j).0 e) in
        rw (items_or-find_and_set (λ x. str_eq (id x) k) f xs, e, p)
          (find-update_first_self (λ x. str_eq (id x) k) f xs (λ x. ap (λ t. str_eq t k) (keep x)))
    | inr ne ↦
        rw (items_or-find_and_set (λ x. str_eq (id x) k) f xs, ne)
          (find-update_first_ne (λ x. str_eq (id x) j) (λ x. str_eq (id x) k) f xs
            (λ x. ap (λ t. str_eq t j) (keep x)) (other_id j k ne))
  ]

-- An update that gives no id merges its fields into the organization with the given id, returns
-- the result, and changes the look-up at that id alone; without such an organization it returns
-- nothing and no look-up changes.
pub get_organization_by_id-update_organization :
    (h : Host) (id : String) (updates : PartialOrganization) (j : String) (s : AdminStore)
    → updates.id ≡ none
    → let (r, s') = update_organization h id updates s in
      (r ≡ Option.map (λ o. spread_organization o updates) (get_organization_by_id id s))
      × (get_organization_by_id j s' ≡ (
          if str_eq id j
          then Option.map (λ o. spread_organization o updates) (get_organization_by_id j s)
          else get_organization_by_id j s))
unfolding update_organization get_organization_by_id spread_organization
get_organization_by_id-update_organization h id updates j s e = ground (
  arith,
  find_and_set_lem (λ x. str_eq x.id id) (λ o. spread_organization o updates) s.organizations,
  by_id-find_and_set (λ x. x.id) j id (λ o. spread_organization o updates) s.organizations
      (λ x. ground arith),
)

-- A change of status sets the status of the organization with the given id, returns the result,
-- and changes the look-up at that id alone; without such an organization it returns nothing and no
-- look-up changes.
pub get_organization_by_id-set_organization_status :
    (h : Host) (id : String) (status : TenantStatus) (reason : Option String) (j : String)
    (s : AdminStore)
    → let (r, s') = set_organization_status h id status reason s in
      (r ≡ Option.map (with_tenant_status status) (get_organization_by_id id s))
      × (get_organization_by_id j s' ≡ (
          if str_eq id j
          then Option.map (with_tenant_status status) (get_organization_by_id j s)
          else get_organization_by_id j s))
unfolding set_organization_status get_organization_by_id
get_organization_by_id-set_organization_status h id status reason j s = ground (
  arith,
  find_and_set_lem (λ x. str_eq x.id id) (with_tenant_status status) s.organizations,
  by_id-find_and_set (λ x. x.id) j id (with_tenant_status status) s.organizations
      (λ x. ground arith),
)

-- An update that gives no id changes the user with the given id, returns it changed, and changes the look-up
-- at that id alone; without such a user it returns nothing and no look-up changes.
pub get_user_by_id-update_user :
    (h : Host) (id : String) (updates : PartialIndividualUser) (j : String) (s : AdminStore)
    → updates.id ≡ none
    → let (r, s') = update_user h id updates s in
      (r ≡ Option.map (λ o. spread_user o updates) (get_user_by_id id s))
      × (get_user_by_id j s' ≡ (
          if str_eq id j
          then Option.map (λ o. spread_user o updates) (get_user_by_id j s)
          else get_user_by_id j s))
unfolding update_user get_user_by_id spread_user
get_user_by_id-update_user h id updates j s e = ground (
  arith,
  find_and_set_lem (λ x. str_eq x.id id) (λ o. spread_user o updates) s.users,
  by_id-find_and_set (λ x. x.id) j id (λ o. spread_user o updates) s.users (λ x. ground arith),
)

-- An update that gives no id changes the plan with the given id, returns it changed, and changes the look-up
-- at that id alone; without such a plan it returns nothing and no look-up changes.
pub get_plan_by_id-update_plan :
    (h : Host) (id : String) (updates : PartialPlan) (j : String) (s : AdminStore)
    → updates.id ≡ none
    → let (r, s') = update_plan h id updates s in
      (r ≡ Option.map (λ o. spread_plan o updates) (get_plan_by_id id s))
      × (get_plan_by_id j s' ≡ (
          if str_eq id j
          then Option.map (λ o. spread_plan o updates) (get_plan_by_id j s)
          else get_plan_by_id j s))
unfolding update_plan get_plan_by_id spread_plan
get_plan_by_id-update_plan h id updates j s e = ground (
  arith,
  find_and_set_lem (λ x. str_eq x.id id) (λ o. spread_plan o updates) s.plans,
  by_id-find_and_set (λ x. x.id) j id (λ o. spread_plan o updates) s.plans (λ x. ground arith),
)

-- A change of status changes the incident with the given id, returns it changed, and changes the look-up
-- at that id alone; without such a incident it returns nothing and no look-up changes.
pub get_incident_by_id-update_incident_status :
    (h : Host) (id : String) (status : IncidentStatus) (notes : Option String) (j : String)
    (s : AdminStore)
    → let (r, s') = update_incident_status h id status notes s in
      (r ≡ Option.map (with_incident_status h status notes) (get_incident_by_id id s))
      × (get_incident_by_id j s' ≡ (
          if str_eq id j
          then Option.map (with_incident_status h status notes) (get_incident_by_id j s)
          else get_incident_by_id j s))
unfolding update_incident_status get_incident_by_id with_incident_status
get_incident_by_id-update_incident_status h id status notes j s = ground (
  arith,
  find_and_set_lem (λ x. str_eq x.id id) (with_incident_status h status notes) s.incidents,
  by_id-find_and_set (λ x. x.id) j id (with_incident_status h status notes) s.incidents
      (λ x. ground arith),
)

-- A change of permissions changes the role with the given id, returns it changed, and changes the look-up
-- at that id alone; without such a role it returns nothing and no look-up changes.
pub get_role_by_id-update_role_permissions :
    (h : Host) (id : String) (permissions : List String) (j : String) (s : AdminStore)
    → let (r, s') = update_role_permissions h id permissions s in
      (r ≡ Option.map (with_permissions h permissions) (get_role_by_id id s))
      × (get_role_by_id j s' ≡ (
          if str_eq id j
          then Option.map (with_permissions h permissions) (get_role_by_id j s)
          else get_role_by_id j s))
unfolding update_role_permissions get_role_by_id
get_role_by_id-update_role_permissions h id permissions j s = ground (
  arith,
  find_and_set_lem (λ x. str_eq x.id id) (with_permissions h permissions) s.roles,
  by_id-find_and_set (λ x. x.id) j id (with_permissions h permissions) s.roles (λ x. ground arith),
)

-- Removing an administrator reports whether one had the id; afterwards none has it, and every other
-- id finds what it found.
pub get_admin_by_id-remove_admin :
    (h : Host) (id j : String) (s : AdminStore)
    → let (r, s') = remove_admin h id s in
      (r ≡ (elim (get_admin_by_id id s) [ none ↦ false | some _ ↦ true ]))
      × (get_admin_by_id j s' ≡ (if str_eq id j then none else get_admin_by_id j s))
unfolding remove_admin get_admin_by_id
get_admin_by_id-remove_admin h id j s = elim (Bool-cases (str_eq id j)) [
  | inl e ↦ ground (arith, (eq_iff id j).0 e, find-filter-not (λ x. str_eq x.id id) s.admins)
  | inr ne ↦ ground (
    arith,
    find-filter_ne (λ x. str_eq x.id j) (λ x. str_eq x.id id) s.admins
        (other_id (λ x. x.id) j id ne),
  )
]
