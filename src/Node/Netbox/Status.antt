-- ===== src/Node/Netbox/Status.antt =====
-- The status that netbox is told at the end of a run: `update`, `SetStatus` and their helpers.
pub mod Keeping
pub mod Report
use ironic_temper.Base.{
  ℕ, String, ◌<>◌, Bool, true, false, Option, none, some, List, [], ◌∷◌, ◌=ₛ◌, if◌then◌else◌,
}
use ironic_temper.Go.{
  Exec, Error, message, Reply, reply, refused, ◌>>=◌, ◌>>◌, pure, fail, inspect, deref, drop_error,
  branch,
}
use ironic_temper.Node.{Task, Method, this}
use ironic_temper.Node.Remote.{IpAddress, NetboxInterface}
use ironic_temper.Node.Inspection.{NodeInterface}
use ironic_temper.Base.Dict.{Dict, lookup}
use ironic_temper.Node.Netbox.{
  NetboxApi, DeviceUpdate, empty_update, netbox, update_node_info, get_interfaces,
}
use ironic_temper.Text.{is_empty, join}

-- The messages of the tasks that hold an error.
unfoldable pub task_errors : List Task → List String
task_errors [] = []
task_errors (t ∷ ts) =
    let rest = task_errors ts in
    if is_empty t.error
    then rest
    else (t.service <> ("." <> (t.task <> (" failed: " <> t.error)))) ∷ rest

abbrev pub staged_update : DeviceUpdate
staged_update = record empty_update { status = "staged"; comments = "temper successful" }

abbrev pub failed_update : String → DeviceUpdate
failed_update comments = record empty_update {
  status = "failed";
  comments = "temper failed: " <> comments;
}

abbrev pub local_context_update : List Task → DeviceUpdate
local_context_update tasks = record empty_update { local_context_tasks = some tasks }

abbrev error_of : {A : Type 0} → Reply A → Option Error
error_of (reply a) = none
error_of (refused e) = some e

abbrev or_error : {S : Type 0} → Option Error → Exec S (Unit {0})
or_error none = pure tt
or_error (some e) = fail e

-- Reading a nil map finds nothing.
abbrev pub or_empty : Option (Dict NodeInterface) → Dict NodeInterface
or_empty none = []
or_empty (some m) = m

abbrev the_only_one : {S : Type 0} → String → List IpAddress → Exec S (Option ℕ)
the_only_one address (ip ∷ []) = pure (some ip.id)
the_only_one address [] = fail (message ("could not find ip " <> address))
the_only_one address (ip ∷ ip' ∷ ips) = fail (message ("could not find ip " <> address))

module _ {W : Type 0} (api : NetboxApi W) where
  -- `setStatusStaged`: an error, or another status in netbox than the one sent, is only logged.
  unfoldable pub set_status_staged : Method W (Unit {0})
  set_status_staged = drop_error (do update_node_info api staged_update; pure tt)

  failed_status : Reply String → Method W (Unit {0})
  failed_status (refused e) = pure tt
  failed_status (reply status) =
      branch (status =ₛ "failed") (pure tt) (fail (message "cannot update node status in netbox"))

  -- `setStatusFailed`
  unfoldable pub set_status_failed : String → Method W (Unit {0})
  unfolding failed_status
  set_status_failed comments = do
    r ← inspect (update_node_info api (failed_update comments))
    failed_status r

  -- `writeLocalContextData`
  unfoldable pub write_local_context_data : Method W (Unit {0})
  write_local_context_data = do
    n ← this
    update_node_info api (local_context_update n.tasks)
    pure tt

  report : List String → Method W (Unit {0})
  report [] = do set_status_staged; write_local_context_data
  report (e ∷ es) = set_status_failed (join " " (e ∷ es))

  -- `SetStatus`
  unfoldable pub set_status : Method W (Unit {0})
  unfolding report
  set_status = do n ← this; report (task_errors n.tasks)

  send_interface : NodeInterface → NetboxInterface → Method W (Option Error)
  send_interface own i = do
    r ← inspect (
        netbox api (
          api.interface_update i.id (record {
            mac_address = own.mac;
            name = i.name;
            type_value = i.type_value;
            device = i.device_id;
          })))
    pure (error_of r)

  update_interface : Option NodeInterface → NetboxInterface → Option Error → Method W (Option Error)
  unfolding send_interface
  update_interface none i e = pure e
  update_interface (some own) i e = send_interface own i

  -- The loop of `updateNodeInterfaces`; `e` is the value of `err`, which each update overwrites.
  update_interfaces :
      Dict NodeInterface → List NetboxInterface → Option Error → Method W (Option Error)
  unfolding update_interface
  update_interfaces known [] e = pure e
  update_interfaces known (i ∷ is) e = do
    name ← deref i.name
    e' ← update_interface (lookup name known) i e
    update_interfaces known is e'

  -- `updateNodeInterfaces`
  unfoldable pub update_node_interfaces : Method W (Unit {0})
  unfolding update_interfaces
  update_node_interfaces = do
    found ← get_interfaces api
    n ← this
    e ← update_interfaces (or_empty n.interfaces) found none
    or_error e

  -- The address of the node in netbox, if netbox names no primary address for the device yet.
  primary_ip_param : Bool → Method W (Option ℕ)
  primary_ip_param true = pure none
  primary_ip_param false = do
    n ← this
    ips ← netbox api (api.ip_addresses_by_address n.primary_ip)
    the_only_one n.primary_ip ips

  -- `update`: all its errors are logged and dropped.
  unfoldable pub update : Method W (Unit {0})
  unfolding primary_ip_param
  update = drop_error (do
    n ← this
    device ← deref n.device_config
    ip ← primary_ip_param device.has_primary_ip
    update_node_info api (record empty_update {
      serial = n.inspection.inventory.system_vendor.serial_number;
      primary_ip4 = ip;
    })
    update_node_interfaces)
