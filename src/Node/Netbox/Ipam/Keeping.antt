-- ===== src/Node/Netbox/Ipam/Keeping.antt =====
-- Loading the addresses of the node writes neither its status nor its tasks.
use ironic_temper.Base.{String, List, [], ◌∷◌}
use ironic_temper.Node.Keeps.{Keeps, keeps_rules}
use ironic_temper.Node.Remote.{IpAddress}
use ironic_temper.Node.Netbox.{NetboxApi}
use ironic_temper.Node.Netbox.Keeping.{netbox-Keeps}
use ironic_temper.Node.Netbox.Ipam.{address_of, load_address, load_addresses, load_ipam_addresses}

module _ {W : Type 0} (api : NetboxApi W) where
  load_address-Keeps : (name short : String) (a : IpAddress) → Keeps (load_address api name short a)
  unfolding load_address address_of
  load_address-Keeps name short a = search keeps_rules depth 20

  load_addresses-Keeps :
      (name : String) (parts : List String) → Keeps (load_addresses api name parts)
  unfolding load_addresses
  load_addresses-Keeps name [] = search keeps_rules depth 20
  load_addresses-Keeps name (p ∷ []) = search keeps_rules depth 20
  load_addresses-Keeps name (p ∷ q ∷ ps) =
      search (keeps_rules, netbox-Keeps, load_address-Keeps) depth 20

  pub load_ipam_addresses-Keeps : Keeps (load_ipam_addresses api)
  unfolding load_ipam_addresses
  load_ipam_addresses-Keeps = search (keeps_rules, load_addresses-Keeps) depth 20
