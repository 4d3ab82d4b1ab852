-- ===== src/Node/Baremetal/Create/Keeping.antt =====
-- Which calls that create, find and delete an ironic node write neither the status of the node nor
-- its tasks.
use ironic_temper.Base.{◌≡◌, String, Option, none, some, List}
use ironic_temper.Go.{Reply, reply, refused}
use ironic_temper.Node.{Node}
use ironic_temper.Node.Keeps.{Keeps, keeps_rules}
use ironic_temper.Clients.Keeping.{get_service_client-Keeps}
use ironic_temper.Node.Baremetal.{BaremetalApi, IronicNode}
use ironic_temper.Node.Baremetal.Create.{
  or_panic, delete_node, delete_by_uuid, found_created, check_created, unknown_uuid, take_uuid,
  search_uuid, get_uuid,
}

or_panic-Keeps : {W A : Type 0} (r : Reply A) → Keeps {W = W} (or_panic r)
or_panic-Keeps (reply a) = search keeps_rules depth 20
or_panic-Keeps (refused e) = search keeps_rules depth 20

module _ {W : Type 0} (api : BaremetalApi W) where
  delete_by_uuid-Keeps : (uuid : String) → Keeps (delete_by_uuid api uuid)
  unfolding delete_by_uuid
  delete_by_uuid-Keeps uuid = search (keeps_rules, get_service_client-Keeps) depth 20

  pub delete_node-Keeps : Keeps (delete_node api)
  unfolding delete_node
  delete_node-Keeps = search (keeps_rules, delete_by_uuid-Keeps) depth 20

  found_created-Keeps : (uuid : String) (r : Reply IronicNode) → Keeps (found_created api uuid r)
  unfolding found_created
  found_created-Keeps uuid (reply r) = search keeps_rules depth 20
  found_created-Keeps uuid (refused e) = search keeps_rules depth 20

  pub check_created-Keeps : Keeps (check_created api)
  unfolding check_created
  check_created-Keeps = search (keeps_rules, get_service_client-Keeps, found_created-Keeps) depth 20

  take_uuid-Keeps : (name : String) (o : Option String) → Keeps (take_uuid api name o)
  unfolding take_uuid unknown_uuid
  take_uuid-Keeps name none = search keeps_rules depth 20
  take_uuid-Keeps name (some uuid) = search keeps_rules depth 20

  search_uuid-Keeps :
      (name : String) (r : Reply (Reply (List IronicNode))) → Keeps (search_uuid api name r)
  unfolding search_uuid unknown_uuid
  search_uuid-Keeps name (refused e) = search keeps_rules depth 20
  search_uuid-Keeps name (reply pages) = search (keeps_rules, take_uuid-Keeps) depth 20

  pub get_uuid-Keeps : Keeps (get_uuid api)
  unfolding get_uuid
  get_uuid-Keeps = search (keeps_rules, get_service_client-Keeps, search_uuid-Keeps) depth 20

-- The answer of the inspector names neither the status of the node nor its tasks.
pub record IsQuiet {W : Type 0} (api : BaremetalApi W) : Type 0 where
  pub status :
      (body : String) (n m : Node) → api.unmarshal_node body n ≡ reply m → m.status ≡ n.status
  pub tasks : (body : String) (n m : Node) → api.unmarshal_node body n ≡ reply m → m.tasks ≡ n.tasks
