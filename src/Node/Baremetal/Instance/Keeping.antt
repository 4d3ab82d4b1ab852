-- ===== src/Node/Baremetal/Instance/Keeping.antt =====
-- Deploying and deleting the test instance writes neither the status of the node nor its tasks.
use ironic_temper.Go.{Reply, reply, refused}
use ironic_temper.Node.Keeps.{Keeps, keeps_rules}
use ironic_temper.Clients.Keeping.{get_service_client-Keeps, new_provider_client-Keeps}
use ironic_temper.Clients.Paging.Keeping.{
  get_image_id-Keeps, get_flavor_id-Keeps, get_conductor_zone-Keeps, get_network-Keeps,
}
use ironic_temper.Node.Baremetal.{BaremetalApi, Server, ServerOpts}
use ironic_temper.Node.Baremetal.Instance.{
  request, watch_instance, deploy_test_instance, delete_test_instance,
}

module _ {W : Type 0} (api : BaremetalApi W) where
  pub delete_test_instance-Keeps : Keeps (delete_test_instance api)
  unfolding delete_test_instance
  delete_test_instance-Keeps = search (keeps_rules, get_service_client-Keeps) depth 20

  watch_instance-Keeps : (server : Server) → Keeps (watch_instance api server)
  unfolding watch_instance
  watch_instance-Keeps server = search keeps_rules depth 30

  request-Keeps : (r : Reply (Unit {0})) (q : ServerOpts) → Keeps (request api r q)
  unfolding request
  request-Keeps (reply u) q = search keeps_rules depth 20
  request-Keeps (refused e) q = search keeps_rules depth 20

  pub deploy_test_instance-Keeps : Keeps (deploy_test_instance api)
  unfolding deploy_test_instance
  deploy_test_instance-Keeps =
      search
        (
          keeps_rules, get_service_client-Keeps, new_provider_client-Keeps, get_image_id-Keeps,
          get_flavor_id-Keeps, get_conductor_zone-Keeps, get_network-Keeps, watch_instance-Keeps,
          request-Keeps,
        )
        depth 40
