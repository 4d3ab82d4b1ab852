-- ===== src/Node/Redfish/Inventory.antt =====
-- `loadInventory` of pkg/node/redfish.go, with `setMemory`, `setDisks` and `setCPUs`.
pub mod Keeping
pub mod Disks
use ironic_temper.Base.{
  ℕ, ◌+◌, ◌/◌, String, Char, code, Bool, true, false, not, ◌&&◌, ◌||◌, none, List, [], ◌∷◌, ◌++◌,
  leb, ◌==◌, if◌then◌else◌,
}
use ironic_temper.Go.{Reply, reply, refused, ◌>>=◌, ◌>>◌, pure, inspect, of_reply}
use ironic_temper.Node.{Node, Method, write}
use ironic_temper.Node.Inspection.{Inventory, RootDisk, Disk, SystemVendor}
use ironic_temper.Node.Remote.{Chassis, ComputerSystem, Drive}
use ironic_temper.Node.Redfish.{RedfishApi, connect, redfish}
use ironic_temper.Node.Redfish.Network.{set_network_devices_data}
use ironic_temper.Text.{contains, to_lower, has_prefix}

abbrev pub with_inventory : (Inventory → Inventory) → Node → Node
with_inventory f n = record n {
  inspection = record n.inspection { inventory = f n.inspection.inventory };
}

-- `calcTotalMemory`
unfoldable pub calc_total_memory : List ℕ → ℕ
calc_total_memory [] = 0
calc_total_memory (m ∷ ms) = m + calc_total_memory ms

is_digit : Char → Bool
is_digit c = leb b'0' (code c) && leb (code c) b'9'

is_space : Char → Bool
is_space c = code c == 32 || (code c == 9 || (code c == 10 || (code c == 12 || code c == 13)))

all_digits : String → Bool
unfolding is_digit
all_digits String.[] = true
all_digits (String.◌∷◌ c s) = is_digit c && all_digits s

-- `\s*(\d+)$`
number_at_end : String → Bool
unfolding all_digits is_space is_digit
number_at_end String.[] = false
number_at_end (String.◌∷◌ c s) =
    let rest = number_at_end s in if is_space c then rest else is_digit c && all_digits s

after_three : String → String
after_three (String.◌∷◌ a (String.◌∷◌ b (String.◌∷◌ c s))) = s
after_three _ = ""

-- The expression `^(?i)(ssd|hdd)\s*(\d+)$`, such as "SSD 1" or "HDD 2".
unfoldable pub is_root_disk_name : String → Bool
unfolding number_at_end after_three
is_root_disk_name s =
    (has_prefix (to_lower s) "ssd" || has_prefix (to_lower s) "hdd")
    && number_at_end (after_three s)

-- A drive as a disk of the inventory; `scaled` is the program's floating-point conversion.
unfoldable pub disk_of : (ℕ → ℕ) → Drive → Disk
disk_of scaled d = record {
  rotational = not (d.rotation_speed_rpm == 0);
  vendor = d.manufacturer;
  name = d.name;
  hctl = none;
  wwn_vendor_extension = none;
  wwn_with_extension = none;
  model = d.model;
  wwn = none;
  serial = none;
  size = scaled d.capacity_bytes;
}

-- `setDisks` sets `Rotational` of the root disk only where the drive does not rotate.
unfoldable pub root_disk_of : (ℕ → ℕ) → RootDisk → Drive → RootDisk
root_disk_of scaled root d =
    if is_root_disk_name d.name
    then record root {
      size = scaled d.capacity_bytes;
      name = d.name;
      model = d.model;
      vendor = d.manufacturer;
      rotational = if d.rotation_speed_rpm == 0 then false else root.rotational;
    }
    else root

abbrev pub no_root_disk : RootDisk
no_root_disk = record {
  rotational = true;
  vendor = "";
  name = "";
  model = "";
  serial = "";
  size = 0;
}

-- The inner loop: the disks and the root disk so far, and the drives of one storage.
unfoldable pub add_drives : (ℕ → ℕ) → List Drive → List Disk × RootDisk → List Disk × RootDisk
unfolding disk_of
add_drives scaled [] acc = acc
add_drives scaled (d ∷ ds) (disks, root) =
    add_drives scaled ds (disks ++ (disk_of scaled d ∷ []), root_disk_of scaled root d)

-- `strings.Replace(s, "-", "_", 1)`
replace_first_dash : String → String
replace_first_dash String.[] = ""
replace_first_dash (String.◌∷◌ c s) =
    let rest = replace_first_dash s in
    if code c == b'-' then String.◌∷◌ "_" s else String.◌∷◌ c rest

abbrev kept : Reply (List Drive) → List Drive
kept (reply ds) = ds
kept (refused e) = []

module _ {W : Type 0} (api : RedfishApi W) where
  -- `setMemory`
  unfoldable pub set_memory : Method W (Unit {0})
  set_memory = do
    mem ← redfish api api.memory
    write (with_inventory (λ i. record i { physical_mb = calc_total_memory mem }))

  -- A storage whose drives cannot be read is passed over.
  read_drives : List ℕ → List Disk × RootDisk → Method W (List Disk × RootDisk)
  read_drives [] acc = pure acc
  read_drives (s ∷ ss) acc = do
    ds ← inspect (redfish api (api.drives s))
    read_drives ss (add_drives api.scaled (kept ds) acc)

  storages_of : Reply (List ℕ) → List ℕ
  storages_of (reply ss) = ss
  storages_of (refused e) = []

  -- `setDisks`: an error of the storages is returned after the disks have been written.
  unfoldable pub set_disks : Method W (Unit {0})
  unfolding read_drives storages_of
  set_disks = do
    st ← inspect (redfish api api.storages)
    write (with_inventory (λ i. record i { disks = [] }))
    (disks, root) ← read_drives (storages_of st) ([], no_root_disk)
    write (with_inventory (λ i. record i { disks = disks }))
    write (λ n. record n { inspection = record n.inspection { root_disk = root } })
    ss ← of_reply st
    pure tt

  with_cpus : ComputerSystem → List String → Method W (Unit {0})
  unfolding replace_first_dash
  with_cpus s [] = pure tt
  with_cpus s (architecture ∷ cpus) = write (
      with_inventory (λ i. record i {
        cpu = record i.cpu {
          count = s.logical_processor_count / 2;
          architecture = replace_first_dash architecture;
        };
      }))

  -- `setCPUs`
  unfoldable pub set_cpus : ComputerSystem → Method W (Unit {0})
  unfolding with_cpus
  set_cpus s = do cpus ← redfish api api.processors; with_cpus s cpus

  abbrev vendor_of : Chassis → ComputerSystem → SystemVendor
  vendor_of c s = record {
    serial_number = if contains (to_lower c.manufacturer) "dell" then c.sku else c.serial_number;
    product_name = c.model;
    manufacturer = c.manufacturer;
    model = s.model;
  }

  read_system : Chassis → List ComputerSystem → Method W (Unit {0})
  read_system c [] = pure tt
  read_system c (s ∷ ss) = do
    write (with_inventory (λ i. record i { system_vendor = vendor_of c s }))
    set_memory
    set_disks
    set_cpus s
    set_network_devices_data api

  read_chassis : List Chassis → Method W (Unit {0})
  unfolding read_system
  read_chassis [] = pure tt
  read_chassis (c ∷ cs) = do systems ← redfish api api.systems; read_system c systems

  -- `defer n.Clients.Redfish.Logout()`: it runs however the body ends.
  abbrev pub with_logout : Method W (Unit {0}) → Method W (Unit {0})
  with_logout body s =
      let (r, s') = body s in let (_, w) = api.logout s'.world in (r, record s' { world = w })

  -- `loadInventory`. Without a chassis or a system it returns early, with no error.
  unfoldable pub load_inventory : Method W (Unit {0})
  unfolding read_chassis
  load_inventory = do
    connect api
    with_logout (do chassis ← redfish api api.chassis; read_chassis chassis)
