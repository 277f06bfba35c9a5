-- ===== src/Admin/Store/Users.antt =====
-- The personal users of `AdminStore`: `getUsers` to `setUserStatus`.
use Prim.Native.String.{◌++◌}
use guardian_cloud.Prelude.{
  Bool, true, false, Option, none, some, List, [], ◌∷◌, String, ◌otherwise◌, if◌then◌else◌, find,
  find_and_set, to_string, slice_last, str_eq,
}
use guardian_cloud.Admin.Types.Enums.{UserStatus, RiskLevel, PlanTier, SubscriptionStatus}
use guardian_cloud.Admin.Types.Tenant.{IndividualUser}
use guardian_cloud.Admin.Types.Partial.{PartialIndividualUser}
use guardian_cloud.Admin.Types.Platform.{Detail}
use guardian_cloud.Admin.Types.Spread.{spread_user}
use guardian_cloud.Admin.State.{
  Host, iso_now, AdminStore, notify, log_action, optional_text, plain_text,
}

-- the literal of a status
abbrev pub user_status_text : UserStatus → String
user_status_text UserStatus.active = "ACTIVE"
user_status_text UserStatus.suspended = "SUSPENDED"
user_status_text UserStatus.trial = "TRIAL"
user_status_text UserStatus.archived = "ARCHIVED"

unfoldable pub get_users : AdminStore → List IndividualUser
get_users s = s.users

unfoldable pub get_user_by_id : String → AdminStore → Option IndividualUser
get_user_by_id id s = find (λ u. str_eq u.id id) s.users

-- `data.planTier === 'FREE'`
abbrev is_free : Option PlanTier → Bool
is_free (some PlanTier.free) = true
is_free _ = false

-- the object that `createUser` puts into the list
unfoldable pub new_user : Host → PartialIndividualUser → IndividualUser
new_user h input = record {
  id = "usr-" ++ slice_last 4 (to_string (h.now 0));
  name = input.name otherwise "New User";
  email = input.email otherwise "user@example.com";
  avatar_url = none;
  status = input.status otherwise UserStatus.active;
  risk_score = 15;
  risk_level = RiskLevel.low;
  security_score = 92;
  plan_tier = input.plan_tier otherwise PlanTier.personal;
  plan_name = if is_free input.plan_tier then "Guardian Free" else "Guardian Personal";
  device_count = 0;
  subscription_status = SubscriptionStatus.active;
  mfa_enabled = true;
  mfa_method = some "TOTP";
  last_active_at = iso_now h 1;
  created_at = iso_now h 2;
}

unfoldable pub create_user : Host → PartialIndividualUser → AdminStore → IndividualUser × AdminStore
unfolding notify log_action
create_user h input s =
    let u = new_user h input in
    let details = some (("email", plain_text u.email) ∷ []) in
    (
      u,
      notify (log_action h 3 "USER_CREATED" "User" u.id details (record s { users = u ∷ s.users })),
    )

unfoldable pub update_user :
    Host → String → PartialIndividualUser → AdminStore → Option IndividualUser × AdminStore
unfolding notify log_action
update_user h id updates s =
    elim (find_and_set (λ u. str_eq u.id id) (λ u. spread_user u updates) s.users) [
      | none ↦ (none, s)
      | some c ↦
          let details = some (("updates", Detail.user_updates updates) ∷ []) in
          (
            some c.after,
            notify (log_action h 0 "USER_UPDATED" "User" id details (record s { users = c.items })),
          )
    ]

abbrev pub with_user_status : UserStatus → IndividualUser → IndividualUser
with_user_status status u = record u { status = status }

unfoldable pub set_user_status :
    Host → String → UserStatus → Option String → AdminStore → Option IndividualUser × AdminStore
unfolding notify log_action
set_user_status h id status reason s =
    elim (find_and_set (λ u. str_eq u.id id) (with_user_status status) s.users) [
      | none ↦ (none, s)
      | some c ↦
          let details = some (("reason", optional_text reason) ∷ []) in
          (
            some c.after,
            notify (
                log_action h 0 ("USER_STATUS_" ++ user_status_text status) "User" id details
                  (record s { users = c.items })),
          )
    ]
