-- ===== src/Node/Netbox/Ipam.antt =====
-- `loadIpamAddresses`: the addresses of a node's block, and those of the node and of its board.
pub mod Keeping
use ironic_temper.Base.{String, ◌<>◌, List, [], ◌∷◌, ◌++◌}
use ironic_temper.Go.{message, ◌>>=◌, ◌>>◌, pure, fail, of_reply, deref, branch, for_each}
use ironic_temper.Node.{Node, Method, this, write}
use ironic_temper.Node.Remote.{IpAddress}
use ironic_temper.Node.Netbox.{NetboxApi, netbox}
use ironic_temper.Text.{contains, split}

abbrev pub with_bmc_address : String → Node → Node
with_bmc_address dns n = record n {
  inspection = record n.inspection {
    inventory = record n.inspection.inventory { bmc_address = dns };
  };
}

module _ {W : Type 0} (api : NetboxApi W) where
  -- `ip, _, err := net.ParseCIDR(*a.Address)`
  address_of : IpAddress → Method W String
  address_of a = do c ← deref a.address; of_reply (api.parse_cidr c)

  -- One round of the loop, for a node whose name begins with `short`.
  unfoldable pub load_address : String → String → IpAddress → Method W (Unit {0})
  unfolding address_of
  load_address name short a = do
    branch (contains a.dns_name name)
        (do ip ← address_of a; write (λ n. record n { primary_ip = ip })) (pure tt)
    branch (contains a.dns_name (short <> "r"))
        (do
          ip ← address_of a
          write (λ n. with_bmc_address a.dns_name (record n { remote_ip = ip })))
        (pure tt)
    branch (contains a.dns_name short)
        (write (λ n. record n { ipam_addresses = n.ipam_addresses ++ (a ∷ []) })) (pure tt)

  load_addresses : String → List String → Method W (Unit {0})
  load_addresses name (short ∷ block ∷ parts) = do
    found ← netbox api (api.ip_addresses_by_query block 200)
    for_each found (load_address name short)
  load_addresses name _ = fail (message "wrong node name format: node[001]-[block_name]")

  -- `loadIpamAddresses`
  unfoldable pub load_ipam_addresses : Method W (Unit {0})
  unfolding load_addresses
  load_ipam_addresses = do n ← this; load_addresses n.name (split b'-' n.name)
