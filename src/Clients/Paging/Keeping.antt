-- ===== src/Clients/Paging/Keeping.antt =====
-- The lookups in listings write neither the status of a node nor its tasks.
use ironic_temper.Base.{String}
use ironic_temper.Go.{Reply, reply, refused}
use ironic_temper.Node.Keeps.{Keeps, keeps_rules}
use ironic_temper.Clients.{PortGroup, OpenstackApi}
use ironic_temper.Clients.Paging.{
  found, get_image_id, get_flavor_id, get_conductor_zone, get_network, create_port_group_call,
}
use ironic_temper.Clients.Keeping.{
  cached_client-Keeps, new_provider_client-Keeps, get_service_client-Keeps,
}

found-Keeps : {W : Type 0} (r : Reply (Unit {0}) × String) → Keeps {W = W} (found r)
found-Keeps (reply u, id) = search keeps_rules depth 20
found-Keeps (refused e, id) = search keeps_rules depth 20

module _ {W : Type 0} (api : OpenstackApi W) where
  pub get_image_id-Keeps : (name : String) → Keeps (get_image_id api name)
  unfolding get_image_id
  get_image_id-Keeps name = search (keeps_rules, get_service_client-Keeps, found-Keeps) depth 20

  pub get_flavor_id-Keeps : (name : String) → Keeps (get_flavor_id api name)
  unfolding get_flavor_id
  get_flavor_id-Keeps name = search (keeps_rules, get_service_client-Keeps, found-Keeps) depth 20

  pub get_conductor_zone-Keeps : (name : String) → Keeps (get_conductor_zone api name)
  unfolding get_conductor_zone
  get_conductor_zone-Keeps name =
      search (keeps_rules, get_service_client-Keeps, found-Keeps) depth 20

  pub get_network-Keeps : (name : String) → Keeps (get_network api name)
  unfolding get_network
  get_network-Keeps name = search (keeps_rules, new_provider_client-Keeps) depth 20

  pub create_port_group_call-Keeps : (pg : PortGroup) → Keeps (create_port_group_call api pg)
  unfolding create_port_group_call
  create_port_group_call-Keeps pg = search (keeps_rules, cached_client-Keeps) depth 20
