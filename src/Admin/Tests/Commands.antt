-- ===== src/Admin/Tests/Commands.antt =====
-- Commands, ids and histories at concrete inputs.
use guardian_cloud.Prelude.{
  ◌+◌, ◌≡◌, refl, false, none, some, List, [], ◌∷◌, arith, length, count, to_string, slice_last,
  find_and_set, find_index,
}
use guardian_cloud.Admin.Types.Enums.{IncidentStatus}
use guardian_cloud.Admin.Types.Security.{SecurityIncident}
use guardian_cloud.Prelude.Search.{distinct}
use guardian_cloud.Admin.State.{Host, log_action, notify}
use guardian_cloud.Admin.Types.Spread.{spread_organization}
use guardian_cloud.Admin.Store.Organizations
use guardian_cloud.Admin.Store.Devices.{DeviceCommand}
use guardian_cloud.Admin.Store.Plans
use guardian_cloud.Admin.Store.Security
use guardian_cloud.Admin.Store.Metrics.{get_metrics}
use guardian_cloud.Admin.Service.{Command, dispatch, succeeded}
use guardian_cloud.Admin.Seed.Initial.{initial_store}
use guardian_cloud.Admin.Laws.Trail.{Accounted, dispatch-Accounted}
use guardian_cloud.Admin.Laws.Frame.{Part, Same, dispatch-Same}
use guardian_cloud.Admin.Laws.Ids.{ids}
use guardian_cloud.Admin.Laws.Unique.{HasDistinctIds, Reach, Reach-HasDistinctIds}
use guardian_cloud.Admin.Laws.Collision.{create_organization_collision}
use guardian_cloud.Admin.Laws.Timeline.{StatusChange, Extends, run, run_history}
use guardian_cloud.Admin.Tests.Inputs.{
  host, later_host, no_organization, no_plan, no_incident, renamed,
}

new_id : (Organizations.new_organization host no_organization).id ≡ "org-2345"
unfolding Organizations.new_organization to_string slice_last
new_id = refl

initial_metrics :
    let m = get_metrics initial_store in
    (m.total_organizations ≡ 8) × (m.active_organizations ≡ 5) × (m.managed_devices ≡ 6)
unfolding get_metrics initial_store count
initial_metrics = (refl, refl, refl)

dispatch-Accounted_example :
    let (r, s') = dispatch host (Command.remove_admin "adm-006") initial_store in
    Accounted initial_store "adm-006" (succeeded r, s')
dispatch-Accounted_example = dispatch-Accounted host (Command.remove_admin "adm-006") initial_store

dispatch-Same_example :
    Same Part.users initial_store
      (dispatch host
        (Command.simulate_device_command "dev-501" DeviceCommand.isolate "theft")
        initial_store).1
dispatch-Same_example =
    dispatch-Same host (Command.simulate_device_command "dev-501" DeviceCommand.isolate "theft")
      Part.users initial_store refl

Reach-HasDistinctIds_example :
    HasDistinctIds (dispatch host (Command.create_plan no_plan) initial_store).1
unfolding initial_store Plans.new_plan to_string slice_last
Reach-HasDistinctIds_example =
    Reach-HasDistinctIds (Reach.command host (Command.create_plan no_plan) refl Reach.start)

-- An update that gives an id can give one that is in use.
update_organization_takes_id :
    let (r, s) =
      Organizations.update_organization host "org-101"
        (record renamed { id = some "org-102" })
        initial_store in
    distinct (ids Part.organizations s) ≡ false
unfolding Organizations.update_organization spread_organization initial_store log_action notify
    find_and_set find_index
update_organization_takes_id = refl

create_organization_collision_example :
    let (first, s1) = Organizations.create_organization host no_organization initial_store in
    let (second, s2) = Organizations.create_organization later_host renamed s1 in
    (second.id ≡ first.id) × (Organizations.get_organization_by_id first.id s2 ≡ some second)
create_organization_collision_example =
    create_organization_collision host later_host no_organization renamed initial_store
      (omega arith) (omega arith) refl

abbrev changes : List StatusChange
changes =
    record { host = host; status = IncidentStatus.investigating; notes = none }
    ∷ record { host = later_host; status = IncidentStatus.resolved; notes = some "contained" }
    ∷ []

abbrev opened : SecurityIncident
opened = Security.new_incident host no_incident

abbrev session : List (Host × Command)
session =
    (host, Command.toggle_feature_flag "ff-1")
    ∷ (later_host, Command.create_plan no_plan)
    ∷ (later_host, Command.revoke_session "none")
    ∷ []

run_history_example :
    let (n, s') = run session initial_store in
    Extends initial_store.audit_logs s'.audit_logs
    × (length s'.audit_logs ≡ length initial_store.audit_logs + n)
run_history_example = run_history session initial_store
