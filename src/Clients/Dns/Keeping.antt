-- ===== src/Clients/Dns/Keeping.antt =====
-- Writing dns records writes neither the status of a node nor its tasks.
use ironic_temper.Base.{String, List, [], ◌∷◌}
use ironic_temper.Go.{already_exists, not_found, conflict, message, Reply, reply, refused}
use ironic_temper.Node.Keeps.{Keeps, keeps_rules}
use ironic_temper.Clients.{Zone, OpenstackApi}
use ironic_temper.Clients.Dns.{zone_or_new, create_arpa_zone, exists_or, create_dns_record}
use ironic_temper.Clients.Keeping.{cached_client-Keeps}

module _ {W : Type 0} (api : OpenstackApi W) where
  zone_or_new-Keeps : (name : String) (zs : List Zone) → Keeps (zone_or_new api name zs)
  unfolding zone_or_new
  zone_or_new-Keeps name [] = search keeps_rules depth 20
  zone_or_new-Keeps name (z ∷ zs) = search keeps_rules depth 20

  pub create_arpa_zone-Keeps : (ip : String) → Keeps (create_arpa_zone api ip)
  unfolding create_arpa_zone
  create_arpa_zone-Keeps ip = search (keeps_rules, zone_or_new-Keeps, cached_client-Keeps) depth 20

  exists_or-Keeps : (r : Reply (Unit {0})) → Keeps (exists_or api r)
  unfolding exists_or
  exists_or-Keeps (reply u) = search keeps_rules depth 20
  exists_or-Keeps (refused (conflict m)) = search keeps_rules depth 20
  exists_or-Keeps (refused already_exists) = search keeps_rules depth 20
  exists_or-Keeps (refused (not_found m)) = search keeps_rules depth 20
  exists_or-Keeps (refused (message m)) = search keeps_rules depth 20

  pub create_dns_record-Keeps :
      (ip zone name type : String) → Keeps (create_dns_record api ip zone name type)
  unfolding create_dns_record
  create_dns_record-Keeps ip zone name type =
      search (keeps_rules, exists_or-Keeps, cached_client-Keeps) depth 20
