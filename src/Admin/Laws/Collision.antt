-- ===== src/Admin/Laws/Collision.antt =====
-- Ids that two creations share: an id keeps the last digits of the clock (`createOrganization`,
-- `createPlan` and `createIncident` of web/src/repositories/adminStore.ts).
use guardian_cloud.Prelude.{
  ◌%◌, ◌≤◌, ◌≡◌, ap, Option, none, some, ◌∷◌, find_and_set, find_index, String, arith, find, eq_iff,
  str_eq,
}
use Prim.Native.String.{◌++◌}
use guardian_cloud.Prelude.Search.{find-append}
use guardian_cloud.Prelude.Digits.{slice_last_four, slice_last_three}
use guardian_cloud.Admin.State.{Host, AdminStore}
use guardian_cloud.Admin.Types.Partial.{PartialOrganization, PartialPlan, PartialSecurityIncident}
use guardian_cloud.Admin.Store.Organizations.{
  new_organization, create_organization, get_organization_by_id,
}
use guardian_cloud.Admin.Store.Security.{
  new_incident, create_incident, update_incident_status, with_incident_status,
}
use guardian_cloud.Admin.Types.Enums.{IncidentStatus}
use guardian_cloud.Admin.Store.Plans.{new_plan, create_plan, get_plan_by_id}

new_organization-id :
    (h h' : Host) (input input' : PartialOrganization)
    → 10000 ≤ h.now 0
    → 10000 ≤ h'.now 0
    → h.now 0 % 10000 ≡ h'.now 0 % 10000
    → (new_organization h input).id ≡ (new_organization h' input').id
unfolding new_organization
new_organization-id h h' input input' big big' e =
    ap (λ t. "org-" ++ t) (slice_last_four (h.now 0) (h'.now 0) big big' e)

-- Two organizations that are created at times which agree modulo ten seconds get one id, and the
-- look-up by that id finds only the second: the first can no longer be reached.
pub create_organization_collision :
    (h h' : Host) (input input' : PartialOrganization) (s : AdminStore)
    → 10000 ≤ h.now 0
    → 10000 ≤ h'.now 0
    → h.now 0 % 10000 ≡ h'.now 0 % 10000
    → let (first, s1) = create_organization h input s in
      let (second, s2) = create_organization h' input' s1 in
      (second.id ≡ first.id) × (get_organization_by_id first.id s2 ≡ some second)
unfolding create_organization get_organization_by_id find
create_organization_collision h h' input input' s big big' e = ground (
  arith,
  new_organization-id h h' input input' big big' e,
  eq_iff (new_organization h' input').id (new_organization h input).id,
)

new_incident-id :
    (h h' : Host) (input input' : PartialSecurityIncident)
    → 1000 ≤ h.now 0
    → 1000 ≤ h'.now 0
    → h.now 0 % 1000 ≡ h'.now 0 % 1000
    → (new_incident h input).id ≡ (new_incident h' input').id
unfolding new_incident
new_incident-id h h' input input' big big' e =
    ap (λ t. "inc-" ++ t) (slice_last_three (h.now 0) (h'.now 0) big big' e)

-- An incident keeps three digits, so two that are created at times which agree modulo one second
-- get one id, and a change of status by the first one's id goes to the second.
pub create_incident_collision :
    (h h' k : Host) (input input' : PartialSecurityIncident) (status : IncidentStatus)
    (notes : Option String) (s : AdminStore)
    → 1000 ≤ h.now 0
    → 1000 ≤ h'.now 0
    → h.now 0 % 1000 ≡ h'.now 0 % 1000
    → let (first, s1) = create_incident h input s in
      let (second, s2) = create_incident h' input' s1 in
      let (changed, s3) = update_incident_status k first.id status notes s2 in
      (changed ≡ some (with_incident_status k status notes second))
      × (s3.incidents ≡ with_incident_status k status notes second ∷ first ∷ s.incidents)
unfolding create_incident update_incident_status find_and_set find_index
create_incident_collision h h' k input input' status notes s big big' e = ground (
  arith,
  new_incident-id h h' input input' big big' e,
  eq_iff (new_incident h' input').id (new_incident h input).id,
)

-- A new plan stands behind the old ones: the look-up by its id finds it if the id was not in use,
-- and else finds the plan that had the id before.
pub get_plan_by_id-create_plan :
    (h : Host) (input : PartialPlan) (s : AdminStore)
    → let (p, s') = create_plan h input s in
      get_plan_by_id p.id s' ≡ elim (get_plan_by_id p.id s) [ some old ↦ some old | none ↦ some p ]
unfolding create_plan get_plan_by_id
get_plan_by_id-create_plan h input s = ground (
  arith,
  find-append (λ p. str_eq p.id (new_plan h input).id) s.plans (new_plan h input),
  eq_iff (new_plan h input).id (new_plan h input).id,
)
