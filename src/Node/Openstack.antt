-- ===== src/Node/Openstack.antt =====
-- pkg/node/openstack.go: the dns records of a node, its root device and the flavor that fits it.
-- Go's float64 is a parameter; `getRules` is in Node.Rules.
pub mod Sizes
pub mod Keeping
pub mod Recorded
use ironic_temper.Base.{
  ℕ, ◌+◌, ◌-◌, ◌*◌, ◌/◌, String, ◌<>◌, Bool, true, false, ◌&&◌, Option, none, some, List, [], ◌∷◌,
  leb, ◌==◌, if◌then◌else◌,
}
use ironic_temper.Go.{
  Error, message, Reply, reply, refused, Result, Call, ◌>>=◌, ◌>>◌, pure, fail, branch, of_reply,
  deref, for_each,
}
use ironic_temper.Node.{Node, St, Method, call, this, write}
use ironic_temper.Node.Remote.{IpAddress}
use ironic_temper.Clients.{Zone, OpenstackApi, EachPage, get_service_client}
use ironic_temper.Clients.Dns.{reverse_addr, create_arpa_zone, create_dns_record}
use ironic_temper.Text.{byte_len, decimal, is_empty}

-- `flavors.Flavor`
pub record Flavor : Type 0 where
  pub name : String
  pub ram : ℕ
  pub disk : ℕ
  pub vcpus : ℕ

-- `float64`, as far as `getMatchingFlavorFor` computes with it.
pub record Floats (F : Type 0) : Type 0 where
  pub of_int : ℕ → F
  pub div : F → F → F
  pub le : F → F → Bool
  pub tenth : F
  pub fifth : F

-- What the handler of the listing keeps.
pub record Match (F : Type 0) : Type 0 where
  pub mem : F
  pub disk : F
  pub cpu : F
  pub name : String
  pub flavor : Flavor

-- The flavors on each page of the listing, and `EachPage` over them.
pub record FlavorApi (W F : Type 0) : Type 0 where
  pub floats : Floats F
  pub flavors : Call W (List (Reply (List Flavor)))
  pub each_page : EachPage (Reply (List Flavor)) (Match F)

abbrev pub gib : ℕ → ℕ
gib bytes = bytes / 1024 / 1024 / 1024

-- The rounding of `getRootDeviceSize`, by the number of decimal digits.
unfoldable pub rounded : ℕ → ℕ
rounded size =
    let l = byte_len (decimal size) in
    if l == 3
    then 100 * ((size + 90) / 100)
    else if l == 4
    then 1000 * ((size + 900) / 1000)
    else size

-- `getRootDeviceSize`
unfoldable pub get_root_device_size : Node → ℕ
get_root_device_size n = rounded (gib n.inspection.root_disk.size)

-- |a - b|
abbrev distance : ℕ → ℕ → ℕ
distance a b = if leb b a then a - b else b - a

-- What a node must offer: memory in MB, disk in GB and processors.
pub record Needs : Type 0 where
  pub mem : ℕ
  pub disk : ℕ
  pub cpu : ℕ

abbrev pub needs_of : Node → Needs
needs_of n = record {
  mem = n.inspection.inventory.physical_mb;
  disk = gib n.inspection.root_disk.size;
  cpu = n.inspection.inventory.cpu.count;
}

module _ {F : Type 0} (x : Floats F) where
  -- `calcDelta`
  unfoldable pub calc_delta : ℕ → ℕ → F
  calc_delta a b = x.div (x.of_int (distance a b)) (x.of_int b)

  -- One round over the flavors of a page.
  unfoldable pub consider : Needs → Flavor → Match F → Match F
  consider needs f m =
      let mem = calc_delta f.ram needs.mem in
      let disk = calc_delta f.disk needs.disk in
      let cpu = calc_delta f.vcpus needs.cpu in
      if (x.le mem m.mem && x.le disk m.disk) && x.le cpu m.cpu
      then record { mem = mem; disk = disk; cpu = cpu; name = f.name; flavor = f }
      else m

  unfoldable pub consider_all : Needs → List Flavor → Match F → Match F
  consider_all needs [] m = m
  consider_all needs (f ∷ fs) m = consider_all needs fs (consider needs f m)

  unfoldable pub flavor_page : Needs → Reply (List Flavor) → Match F → Reply Bool × Match F
  flavor_page needs (refused e) m = (refused e, m)
  flavor_page needs (reply fs) m = (reply true, consider_all needs fs m)

  abbrev pub no_match : Match F
  no_match = record {
    mem = x.tenth;
    disk = x.fifth;
    cpu = x.tenth;
    name = "";
    flavor = record { name = ""; ram = 0; disk = 0; vcpus = 0 };
  }

-- The inspection data takes the numbers of the flavor; the disk's, in GB, stands for its bytes.
abbrev pub with_flavor : Flavor → Node → Node
with_flavor f n = record n {
  inspection = record n.inspection {
    root_disk = record n.inspection.root_disk { size = f.disk };
    inventory = record n.inspection.inventory {
      physical_mb = f.ram;
      cpu = record n.inspection.inventory.cpu { count = f.vcpus };
    };
  };
}

module _ {W F : Type 0} (api : OpenstackApi W) (fl : FlavorApi W F) where
  take_flavor : Reply (Unit {0}) × Match F → Method W String
  take_flavor (r, m) =
      branch (is_empty m.name) (fail (message "no matching flavor found for node"))
        (do write (with_flavor m.flavor); of_reply r; pure m.name)

  -- `getMatchingFlavorFor`. The operations that it collects for ironic are not sent.
  unfoldable pub get_matching_flavor_for : Method W String
  unfolding take_flavor
  get_matching_flavor_for = do
    get_service_client api "compute"
    n ← this
    pages ← call fl.flavors
    take_flavor (fl.each_page pages (flavor_page fl.floats (needs_of n)) (no_match fl.floats))

module _ {W : Type 0} (api : OpenstackApi W) (parse_cidr : String → Reply String) where
  ip_of : IpAddress → Method W String
  ip_of a = do c ← deref a.address; of_reply (parse_cidr c)

  first_zone : Reply (List Zone) → Method W Zone
  first_zone (reply (z ∷ zs)) = pure z
  first_zone (reply []) = fail (message "wrong dns zone")
  first_zone (refused e) = fail (message "wrong dns zone")

  -- A round of the first loop, and one of the second.
  unfoldable pub create_a_record : Zone → IpAddress → Method W (Unit {0})
  unfolding ip_of
  create_a_record z a = do ip ← ip_of a; create_dns_record api ip z.id (a.dns_name <> ".") "A"

  unfoldable pub create_ptr_record : IpAddress → Method W (Unit {0})
  unfolding ip_of
  create_ptr_record a = do
    ip ← ip_of a
    arpa ← of_reply (reverse_addr api ip)
    zone ← create_arpa_zone api ip
    create_dns_record api (a.dns_name <> ".") zone arpa "PTR"

  -- `createDNSRecords`
  unfoldable pub create_dns_records : Method W (Unit {0})
  unfolding first_zone
  create_dns_records = do
    get_service_client api "dns"
    n ← this
    zones ← call (api.zones_by_name (n.cfg.domain <> "."))
    zone ← first_zone zones
    for_each n.ipam_addresses (create_a_record zone)
    for_each n.ipam_addresses create_ptr_record
