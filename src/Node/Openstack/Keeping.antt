-- ===== src/Node/Openstack/Keeping.antt =====
-- Creating the dns records of a node writes neither its status nor its tasks.
use ironic_temper.Base.{String, List, [], ◌∷◌}
use ironic_temper.Go.{Reply, reply, refused}
use ironic_temper.Node.Keeps.{Keeps, keeps_rules}
use ironic_temper.Node.Remote.{IpAddress}
use ironic_temper.Clients.{Zone, OpenstackApi}
use ironic_temper.Clients.Dns.Keeping.{create_arpa_zone-Keeps, create_dns_record-Keeps}
use ironic_temper.Clients.Keeping.{get_service_client-Keeps}
use ironic_temper.Node.Openstack.{
  ip_of, first_zone, create_a_record, create_ptr_record, create_dns_records,
}

module _ {W : Type 0} (api : OpenstackApi W) (parse_cidr : String → Reply String) where
  ip_of-Keeps : (a : IpAddress) → Keeps (ip_of api parse_cidr a)
  unfolding ip_of
  ip_of-Keeps a = search keeps_rules depth 20

  first_zone-Keeps : (r : Reply (List Zone)) → Keeps (first_zone api parse_cidr r)
  unfolding first_zone
  first_zone-Keeps (reply (z ∷ zs)) = search keeps_rules depth 20
  first_zone-Keeps (reply []) = search keeps_rules depth 20
  first_zone-Keeps (refused e) = search keeps_rules depth 20

  create_a_record-Keeps : (z : Zone) (a : IpAddress) → Keeps (create_a_record api parse_cidr z a)
  unfolding create_a_record
  create_a_record-Keeps z a = search (keeps_rules, ip_of-Keeps, create_dns_record-Keeps) depth 20

  create_ptr_record-Keeps : (a : IpAddress) → Keeps (create_ptr_record api parse_cidr a)
  unfolding create_ptr_record
  create_ptr_record-Keeps a =
      search (keeps_rules, ip_of-Keeps, create_arpa_zone-Keeps, create_dns_record-Keeps) depth 20

  pub create_dns_records-Keeps : Keeps (create_dns_records api parse_cidr)
  unfolding create_dns_records
  create_dns_records-Keeps =
      search
        (
          keeps_rules, get_service_client-Keeps, first_zone-Keeps, create_a_record-Keeps,
          create_ptr_record-Keeps,
        )
        depth 20
