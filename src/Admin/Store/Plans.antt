-- ===== src/Admin/Store/Plans.antt =====
-- The plans and subscriptions of `AdminStore`: `getPlans` to `getSubscriptionById`.
use Prim.Native.String.{◌++◌}
use guardian_cloud.Prelude.{
  Option, none, some, List, [], ◌∷◌, String, ◌otherwise◌, find, find_and_set, to_string, slice_last,
  str_eq,
}
use mathlib.Core.List
use guardian_cloud.Admin.Types.Enums.{PlanTier, PlanStatus, TenantType}
use guardian_cloud.Admin.Types.Tenant.{Plan, Subscription}
use guardian_cloud.Admin.Types.Partial.{PartialPlan}
use guardian_cloud.Admin.Types.Platform.{Detail}
use guardian_cloud.Admin.Types.Spread.{spread_plan}
use guardian_cloud.Admin.State.{Host, AdminStore, notify, log_action, plain_text}

unfoldable pub get_plans : AdminStore → List Plan
get_plans s = s.plans

unfoldable pub get_plan_by_id : String → AdminStore → Option Plan
get_plan_by_id id s = find (λ p. str_eq p.id id) s.plans

-- the object that `createPlan` puts into the list
unfoldable pub new_plan : Host → PartialPlan → Plan
new_plan h input = record {
  id = "plan-" ++ slice_last 4 (to_string (h.now 0));
  name = input.name otherwise "Custom Plan";
  tier = input.tier otherwise PlanTier.business;
  target_type = input.target_type otherwise TenantType.organization;
  price_monthly = input.price_monthly otherwise 2500;
  price_annual = input.price_annual otherwise 25000;
  device_limit = input.device_limit otherwise 100;
  employee_limit = input.employee_limit otherwise 50;
  status = PlanStatus.active;
  subscriber_count = 0;
  features = input.features otherwise ("Core Protection" ∷ "Email Support" ∷ []);
  description = input.description otherwise "Custom security plan tier.";
}

-- A new plan goes to the end of the list.
unfoldable pub create_plan : Host → PartialPlan → AdminStore → Plan × AdminStore
unfolding notify log_action
create_plan h input s =
    let p = new_plan h input in
    let details = some (("name", plain_text p.name) ∷ []) in
    let added = record s { plans = List.◌++◌ s.plans (p ∷ []) } in
    (p, notify (log_action h 1 "PLAN_CREATED" "Plan" p.id details added))

unfoldable pub update_plan : Host → String → PartialPlan → AdminStore → Option Plan × AdminStore
unfolding notify log_action
update_plan h id updates s =
    elim (find_and_set (λ p. str_eq p.id id) (λ p. spread_plan p updates) s.plans) [
      | none ↦ (none, s)
      | some c ↦
          let details = some (("updates", Detail.plan_updates updates) ∷ []) in
          (
            some c.after,
            notify (log_action h 0 "PLAN_UPDATED" "Plan" id details (record s { plans = c.items })),
          )
    ]

unfoldable pub get_subscriptions : AdminStore → List Subscription
get_subscriptions s = s.subscriptions

unfoldable pub get_subscription_by_id : String → AdminStore → Option Subscription
get_subscription_by_id id s = find (λ x. str_eq x.id id) s.subscriptions
