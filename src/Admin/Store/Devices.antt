-- ===== src/Admin/Store/Devices.antt =====
-- The devices of `AdminStore`: `getDevices` to `simulateDeviceCommand`.
use Prim.Native.String.{◌++◌}
use guardian_cloud.Prelude.{
  Bool, true, false, Option, none, some, List, [], ◌∷◌, String, find, find_and_set, str_eq,
}
use guardian_cloud.Admin.Types.Enums.{DeviceStatus}
use guardian_cloud.Admin.Types.Tenant.{ManagedDevice}
use guardian_cloud.Admin.Types.Security.{Value}
use guardian_cloud.Admin.Types.Platform.{Detail}
use guardian_cloud.Admin.State.{Host, AdminStore, notify, log_action, plain_text}

pub data DeviceCommand : Type 0 where
  lock wipe isolate sync : DeviceCommand

-- the literal of a command
abbrev pub device_command_text : DeviceCommand → String
device_command_text DeviceCommand.lock = "LOCK"
device_command_text DeviceCommand.wipe = "WIPE"
device_command_text DeviceCommand.isolate = "ISOLATE"
device_command_text DeviceCommand.sync = "SYNC"

pub record CommandResult : Type 0 where
  pub success : Bool
  pub message : String

unfoldable pub get_devices : AdminStore → List ManagedDevice
get_devices s = s.devices

unfoldable pub get_device_by_id : String → AdminStore → Option ManagedDevice
get_device_by_id id s = find (λ d. str_eq d.id id) s.devices

abbrev pub as_offline : ManagedDevice → ManagedDevice
as_offline d = record d { status = DeviceStatus.offline }

-- Only ISOLATE writes to the list.
unfoldable pub devices_after : DeviceCommand → String → List ManagedDevice → List ManagedDevice
devices_after DeviceCommand.isolate id devices =
    elim (find_and_set (λ d. str_eq d.id id) as_offline devices) [
      | none ↦ devices
      | some c ↦ c.items
    ]
devices_after _ id devices = devices

unfoldable pub simulate_device_command :
    Host → String → DeviceCommand → String → AdminStore → CommandResult × AdminStore
unfolding notify log_action get_device_by_id devices_after
simulate_device_command h device_id command reason s = elim (get_device_by_id device_id s) [
  | none ↦ (record { success = false; message = "Device not found" }, s)
  | some dev ↦
      let details = some (
        ("hostname", plain_text dev.hostname)
        ∷ ("simulated", Detail.value (Value.flag true))
        ∷ ("reason", plain_text reason)
        ∷ []) in
      let text = device_command_text command in
      (
        record {
          success = true;
          message =
              "[SIMULATED] Command " ++ text ++ " dispatched to " ++ dev.hostname
              ++ ". No hardware was affected in Demo Mode.";
        },
        notify (
            log_action h 0 ("SIMULATED_DEVICE_" ++ text) "Device" device_id details
              (record s { devices = devices_after command device_id s.devices })),
      )
]
