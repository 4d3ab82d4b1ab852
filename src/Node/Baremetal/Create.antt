-- ===== src/Node/Baremetal/Create.antt =====
-- Creating, checking, looking up and deleting an ironic node.
pub mod Keeping
pub mod Quiet
use ironic_temper.Base.{
  String, ◌<>◌, Bool, true, Option, none, some, List, [], ◌∷◌, ◌==◌, ◌=ₛ◌, if◌then◌else◌,
}
use ironic_temper.Go.{
  already_exists, not_found, error_text, Reply, reply, refused, Exec, Call, ◌>>=◌, ◌>>◌, pure, fail,
  panic, inspect, of_reply, branch,
}
use ironic_temper.Node.{Node, Method, call, this, write}
use ironic_temper.Node.Inspection.{Interface}
use ironic_temper.Clients.{get_service_client}
use ironic_temper.Node.Baremetal.{BaremetalApi, IronicNode}
use ironic_temper.Text.{is_empty, contains}

abbrev could_not : String
could_not = "could not create ironic node: "

abbrev or_panic : {S A : Type 0} → Reply A → Exec S A
or_panic (reply a) = pure a
or_panic (refused e) = panic (could_not <> error_text e)

abbrev pub true_if_done : {A : Type 0} → Reply A → Reply Bool
true_if_done (reply a) = reply true
true_if_done (refused e) = refused e

-- `for _, no := range nodes { if no.Name == n.Name { … break } }`
unfoldable pub uuid_by_name : String → List IronicNode → Option String
uuid_by_name name [] = none
uuid_by_name name (node ∷ rest) =
    if node.name =ₛ name then some node.uuid else uuid_by_name name rest

module _ {W : Type 0} (api : BaremetalApi W) where
  -- What the inspector says of a node that it did not create.
  creation_error : Reply String → Method W (Unit {0})
  creation_error (refused e) = panic (could_not <> error_text e)
  creation_error (reply text) =
      branch (contains text "already exists, uuid") (fail already_exists)
        (panic (could_not <> text))

  -- `json.Unmarshal(bodyBytes, n)` writes the fields that the answer names.
  take_node : Reply Node → Method W (Unit {0})
  take_node (refused e) = panic (could_not <> error_text e)
  take_node (reply n) = write (λ _. n)

  post_inspection : Method W (Unit {0})
  unfolding creation_error take_node
  post_inspection = do
    n ← this
    r ← inspect (call (api.inspector_continue n.cfg.inspector_host n.inspection))
    res ← or_panic r
    branch (res.status_code == 200) (take_node (api.unmarshal_node res.body n))
        (creation_error (api.unmarshal_inspector_error res.body))

  with_interfaces : List Interface → Method W (Unit {0})
  unfolding post_inspection
  with_interfaces [] = panic "no interfaces with linkStatus up found. cannot create ironic node"
  with_interfaces (i ∷ is) = post_inspection

  -- `create`
  unfoldable pub create : Method W (Unit {0})
  unfolding with_interfaces
  create = do n ← this; with_interfaces n.inspection.inventory.interfaces

  -- The condition that is polled: the first error ends the poll.
  unfoldable pub try_delete : String → Call W Bool
  try_delete uuid w = let (r, w') = api.node_delete uuid w in (true_if_done r, w')

  delete_by_uuid : String → Method W (Unit {0})
  delete_by_uuid uuid = do
    get_service_client api.openstack "baremetal"
    call (api.poll 5 30 (try_delete uuid))

  -- `DeleteNode`
  unfoldable pub delete_node : Method W (Unit {0})
  unfolding delete_by_uuid
  delete_node = do n ← this; branch (is_empty n.uuid) (pure tt) (delete_by_uuid n.uuid)

  found_created : String → Reply IronicNode → Method W (Unit {0})
  found_created uuid (refused e) = fail (not_found ("could not find node " <> uuid))
  found_created uuid (reply r) = write (λ n. record n { resource_class = r.resource_class })

  -- `checkCreated`
  unfoldable pub check_created : Method W (Unit {0})
  unfolding found_created
  check_created = do
    n ← this
    branch (is_empty n.uuid) (pure tt) (do
      get_service_client api.openstack "baremetal"
      r ← inspect (call (api.node_get n.uuid))
      found_created n.uuid r)

  unknown_uuid : String → Method W (Unit {0})
  unknown_uuid name = fail (not_found ("could not find node " <> (name <> " uuid")))

  -- The test behind the loop: a node found under an empty uuid is not found.
  take_uuid : String → Option String → Method W (Unit {0})
  unfolding unknown_uuid
  take_uuid name none = unknown_uuid name
  take_uuid name (some uuid) = do
    write (λ n. record n { uuid = uuid })
    branch (is_empty uuid) (unknown_uuid name) (pure tt)

  search_uuid : String → Reply (Reply (List IronicNode)) → Method W (Unit {0})
  unfolding unknown_uuid take_uuid
  search_uuid name (refused e) = unknown_uuid name
  search_uuid name (reply pages) = do
    nodes ← of_reply pages
    take_uuid name (uuid_by_name name nodes)

  -- `getUUID`
  unfoldable pub get_uuid : Method W (Unit {0})
  unfolding search_uuid
  get_uuid = do
    n ← this
    branch (is_empty n.uuid)
        (do
          get_service_client api.openstack "baremetal"
          pages ← inspect (call api.nodes_all_pages)
          search_uuid n.name pages)
        (pure tt)
