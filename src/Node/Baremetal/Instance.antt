-- ===== src/Node/Baremetal/Instance.antt =====
-- The test instance: `deployTestInstance`, `DeleteTestInstance`; and `createPortGroup`.
pub mod Keeping
use ironic_temper.Base.{String, ◌<>◌, Bool, true, false, [], ◌∷◌, ◌=ₛ◌}
use ironic_temper.Go.{
  message, error_text, Reply, reply, refused, ◌>>=◌, ◌>>◌, pure, fail, inspect, branch, at_index,
  panic,
}
use ironic_temper.Node.{Method, call, this, write}
use ironic_temper.Clients.{get_service_client, new_provider_client}
use ironic_temper.Clients.Paging.{
  get_image_id, get_flavor_id, get_conductor_zone, get_network, create_port_group_call,
}
use ironic_temper.Node.Baremetal.{BaremetalApi, Server, ServerOpts}
use ironic_temper.Text.{is_empty}

-- Waiting for the state "ERROR" is good news only if it times out.
abbrev pub is_timeout : Reply (Unit {0}) → Bool
is_timeout (reply u) = false
is_timeout (refused e) = error_text e =ₛ "A timeout occurred"

module _ {W : Type 0} (api : BaremetalApi W) where
  -- From the created server on.
  unfoldable pub watch_instance : Server → Method W (Unit {0})
  watch_instance server = do
    write (λ n. record n { instance_uuid = server.id })
    r ← inspect (call (api.server_wait_for_status server.id "ERROR" 60))
    branch (is_timeout r) (pure tt)
        (fail (message ("create test instance " <> (server.id <> " failed"))))
    call (api.server_wait_for_status server.id "ACTIVE" 1200)
    write (λ n. record n { instance_ipv4 = server.access_ipv4 })
    call (api.new_pinger server.access_ipv4)
    call (api.run_pinger server.access_ipv4)

  -- The request for the server, by the second compute client: where that could not be made, its error
  -- is overwritten and the request reads through a nil pointer.
  request : Reply (Unit {0}) → ServerOpts → Method W Server
  request (reply u) r = call (api.server_create r)
  request (refused e) r = panic "nil pointer dereference"

  -- `deployTestInstance`
  unfoldable pub deploy_test_instance : Method W (Unit {0})
  unfolding request
  deploy_test_instance = do
    get_service_client api.openstack "compute"
    n ← this
    let d = n.cfg.deployment
    image ← get_image_id api.openstack d.image
    zone ← get_conductor_zone api.openstack d.conductor_zone
    flavor ← get_flavor_id api.openstack d.flavor
    net ← get_network api.openstack d.network
    new_provider_client api.openstack d.openstack
    client ← inspect (call (api.openstack.new_client "compute" n.cfg.region))
    now ← call api.timestamp
    m ← this
    server ← request client (record {
      name = now <> "_node_test";
      flavor_ref = flavor;
      image_ref = image;
      availability_zone = zone <> ("::" <> m.uuid);
      networks = net ∷ net ∷ net ∷ [];
    })
    watch_instance server

  -- `DeleteTestInstance`
  unfoldable pub delete_test_instance : Method W (Unit {0})
  delete_test_instance = do
    get_service_client api.openstack "compute"
    n ← this
    call (api.server_force_delete n.instance_uuid)
    call (api.server_wait_for_status n.instance_uuid "DELETED" 60)

  new_port_group : String → Method W String
  new_port_group name = do
    n ← this
    first ← at_index n.inspection.inventory.interfaces 0
    id ← create_port_group_call api.openstack (record {
      node_uuid = n.uuid;
      name = name;
      address = first.mac_address;
      standalone_ports_supported = true;
      mode = "802.3ad";
      miimon = 100;
    })
    write (λ n. record n { port_group_uuid = id })
    pure id

  -- `createPortGroup` makes one port group for a node, and returns it again afterwards.
  unfoldable pub create_port_group : String → Method W String
  unfolding new_port_group
  create_port_group name = do
    n ← this
    branch (is_empty n.port_group_uuid) (new_port_group name) (pure n.port_group_uuid)
