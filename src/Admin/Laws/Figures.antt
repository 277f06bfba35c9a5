-- ===== src/Admin/Laws/Figures.antt =====
-- The figures of `getMetrics` (web/src/repositories/adminStore.ts).
use guardian_cloud.Prelude.{
  ℕ, ◌+◌, ◌≤◌, ◌≡◌, refl, ◌∙◌, Bool, true, false, ◌&&◌, Option, some, List, [], ◌∷◌, String, arith,
  if◌then◌else◌, length, count, one_if, str_eq,
}
use guardian_cloud.Prelude.Search.{
  count-le-length, count-update_first, length-update_first, find_and_set_lem, count-cons,
}
use guardian_cloud.Admin.Types.Enums.{TenantStatus, RiskLevel}
use guardian_cloud.Admin.Types.Tenant.{Organization, ManagedDevice, Subscription}
use guardian_cloud.Admin.Types.Partial.{PartialOrganization}
use guardian_cloud.Admin.Types.Platform.{RiskBreakdown}
use guardian_cloud.Admin.State.{Host, AdminStore}
use guardian_cloud.Admin.Store.Organizations.{
  get_organization_by_id, set_organization_status, with_tenant_status, new_organization,
  new_subscription, create_organization,
}
use guardian_cloud.Admin.Store.Devices.{
  DeviceCommand, get_device_by_id, as_offline, simulate_device_command,
}
use guardian_cloud.Admin.Store.Metrics.{
  is_active_tenant, is_critical, is_online, is_active_subscription, mrr_from, no_risk, tally,
  breakdown_from, get_metrics,
}

abbrev is_low : RiskLevel → Bool
is_low RiskLevel.low = true
is_low _ = false

abbrev is_medium : RiskLevel → Bool
is_medium RiskLevel.medium = true
is_medium _ = false

abbrev is_high : RiskLevel → Bool
is_high RiskLevel.high = true
is_high _ = false

-- what one organization adds to each figure
tally_fields :
    (l : RiskLevel) (b : RiskBreakdown)
    → ((tally l b).healthy ≡ b.healthy + one_if (is_low l))
      × ((tally l b).warning ≡ b.warning + one_if (is_medium l))
      × ((tally l b).high_risk ≡ b.high_risk + one_if (is_high l))
      × ((tally l b).critical ≡ b.critical + one_if (is_critical l))
unfolding tally
tally_fields l b = ground arith

breakdown_from-count :
    (b : RiskBreakdown) (os : List Organization)
    → let r = breakdown_from b os in
      (r.healthy ≡ b.healthy + count (λ o. is_low o.risk_level) os)
      × (r.warning ≡ b.warning + count (λ o. is_medium o.risk_level) os)
      × (r.high_risk ≡ b.high_risk + count (λ o. is_high o.risk_level) os)
      × (r.critical ≡ b.critical + count (λ o. is_critical o.risk_level) os)
unfolding breakdown_from count
breakdown_from-count b [] = omega arith
breakdown_from-count b (o ∷ os) = omega (
  arith,
  breakdown_from-count (tally o.risk_level b) os,
  tally_fields o.risk_level b,
  count-cons (λ x. is_low x.risk_level) o os,
  count-cons (λ x. is_medium x.risk_level) o os,
  count-cons (λ x. is_high x.risk_level) o os,
  count-cons (λ x. is_critical x.risk_level) o os,
)

one_level :
    (l : RiskLevel)
    → one_if (is_low l) + one_if (is_medium l) + one_if (is_high l) + one_if (is_critical l) ≡ 1
one_level l = ground arith

levels_cover :
    (os : List Organization)
    → count (λ o. is_low o.risk_level) os
        + count (λ o. is_medium o.risk_level) os
        + count (λ o. is_high o.risk_level) os
        + count (λ o. is_critical o.risk_level) os
      ≡ length os
unfolding count
levels_cover [] = omega arith
levels_cover (o ∷ os) = omega (
  arith,
  levels_cover os,
  one_level o.risk_level,
  count-cons (λ x. is_low x.risk_level) o os,
  count-cons (λ x. is_medium x.risk_level) o os,
  count-cons (λ x. is_high x.risk_level) o os,
  count-cons (λ x. is_critical x.risk_level) o os,
)

-- an independent reading of the revenue: the sum over the subscriptions that are active
abbrev pub active_mrr : List Subscription → ℕ
active_mrr [] = 0
active_mrr (x ∷ xs) =
    if is_active_subscription x.status then x.mrr + active_mrr xs else active_mrr xs

mrr_from-active_mrr : (acc : ℕ) (xs : List Subscription) → mrr_from acc xs ≡ acc + active_mrr xs
unfolding mrr_from
mrr_from-active_mrr acc [] = omega arith
mrr_from-active_mrr acc (x ∷ xs) =
    ground
      (arith, mrr_from-active_mrr (acc + (if is_active_subscription x.status then x.mrr else 0)) xs)

-- Every organization is counted at exactly one risk level, the critical figure is the number of
-- organizations at that level, the revenue is the sum over the active subscriptions, and no count of
-- a part is above the count of the whole.
pub get_metrics_consistent :
    (s : AdminStore)
    → let m = get_metrics s in
      (m.risk_breakdown.healthy + m.risk_breakdown.warning + m.risk_breakdown.high_risk
          + m.risk_breakdown.critical
        ≡ m.total_organizations)
      × (m.risk_breakdown.critical ≡ count (λ o. is_critical o.risk_level) s.organizations)
      × (m.mrr ≡ active_mrr s.subscriptions)
      × (m.active_organizations ≤ m.total_organizations)
      × (m.active_agents ≤ m.managed_devices)
      × (m.active_subscriptions ≤ length s.subscriptions)
      × (m.open_incidents ≤ length s.incidents)
      × (m.critical_alerts ≤ length s.alerts)
unfolding get_metrics
get_metrics_consistent s = (
  omega (arith, breakdown_from-count no_risk s.organizations, levels_cover s.organizations),
  omega (arith, breakdown_from-count no_risk s.organizations),
  mrr_from-active_mrr 0 s.subscriptions ∙ omega arith,
  count-le-length _ s.organizations,
  count-le-length _ s.devices,
  count-le-length _ s.subscriptions,
  count-le-length _ s.incidents,
  count-le-length _ s.alerts,
)

-- A change of an organization's status leaves the number of organizations, and moves the number
-- of active ones by one exactly when it makes an inactive one active or an active one inactive.
pub get_metrics-set_organization_status :
    (h : Host) (id : String) (status : TenantStatus) (reason : Option String) (s : AdminStore)
    (o : Organization)
    → get_organization_by_id id s ≡ some o
    → let m = get_metrics s in
      let m' = get_metrics (set_organization_status h id status reason s).1 in
      (m'.total_organizations ≡ m.total_organizations)
      × (m'.active_organizations + one_if (is_active_tenant o.status)
          ≡ m.active_organizations + one_if (is_active_tenant status))
unfolding get_metrics get_organization_by_id set_organization_status
get_metrics-set_organization_status h id status reason s o e = ground (
  arith,
  find_and_set_lem (λ x. str_eq x.id id) (with_tenant_status status) s.organizations,
  length-update_first (λ x. str_eq x.id id) (with_tenant_status status) s.organizations,
  count-update_first (λ x. is_active_tenant x.status) (λ x. str_eq x.id id)
      (with_tenant_status status) s.organizations o e,
)

abbrev pub isolates : DeviceCommand → Bool
isolates DeviceCommand.isolate = true
isolates _ = false

-- A command to a known device leaves the number of devices, and takes one off the number of active
-- agents exactly when it isolates a device that was online.
pub get_metrics-simulate_device_command :
    (h : Host) (id : String) (command : DeviceCommand) (reason : String) (s : AdminStore)
    (d : ManagedDevice)
    → get_device_by_id id s ≡ some d
    → let m = get_metrics s in
      let m' = get_metrics (simulate_device_command h id command reason s).1 in
      (m'.managed_devices ≡ m.managed_devices)
      × (m'.active_agents + one_if (isolates command && is_online d.status) ≡ m.active_agents)
unfolding get_metrics simulate_device_command
get_metrics-simulate_device_command h id DeviceCommand.isolate reason s d e = ground (
  arith,
  find_and_set_lem (λ x. str_eq x.id id) as_offline s.devices,
  length-update_first (λ x. str_eq x.id id) as_offline s.devices,
  count-update_first (λ x. is_online x.status) (λ x. str_eq x.id id) as_offline s.devices d e,
)
get_metrics-simulate_device_command h id _ reason s d e = ground arith

-- A new organization comes with an active subscription for it, whose seats and devices cover what
-- is in use, and adds one to the organizations, the active organizations, the active subscriptions
-- and the healthy ones, and its price to the revenue.
pub get_metrics-create_organization :
    (h : Host) (input : PartialOrganization) (s : AdminStore)
    → let (o, s') = create_organization h input s in
      let x = new_subscription h o in
      let m = get_metrics s in
      let m' = get_metrics s' in
      (s'.subscriptions ≡ x ∷ s.subscriptions)
      × (x.tenant_id ≡ o.id)
      × (x.seats_used ≤ x.seats_allocated)
      × (x.devices_used ≤ x.devices_allocated)
      × (m'.total_organizations ≡ m.total_organizations + 1)
      × (m'.active_organizations ≡ m.active_organizations + 1)
      × (m'.active_subscriptions ≡ m.active_subscriptions + 1)
      × (m'.risk_breakdown.healthy ≡ m.risk_breakdown.healthy + 1)
      × (m'.mrr ≡ m.mrr + o.mrr)
unfolding get_metrics create_organization new_organization new_subscription
get_metrics-create_organization h input s = (
  refl,
  refl,
  omega arith,
  omega arith,
  omega arith,
  omega (
    arith,
    count-cons (λ o. is_active_tenant o.status) (new_organization h input) s.organizations,
  ),
  omega (
    arith,
    count-cons (λ x. is_active_subscription x.status)
        (new_subscription h (new_organization h input)) s.subscriptions,
  ),
  omega (
    arith,
    breakdown_from-count no_risk s.organizations,
    breakdown_from-count no_risk (new_organization h input ∷ s.organizations),
    count-cons (λ x. is_low x.risk_level) (new_organization h input) s.organizations,
  ),
  mrr_from-active_mrr 0 (new_subscription h (new_organization h input) ∷ s.subscriptions)
      ∙ omega (arith, mrr_from-active_mrr 0 s.subscriptions),
)
