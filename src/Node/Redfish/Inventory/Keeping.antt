-- ===== src/Node/Redfish/Inventory/Keeping.antt =====
-- Reading the inventory of a server writes neither the status of the node nor its tasks.
use ironic_temper.Base.{ℕ, String, List, [], ◌∷◌, arith}
use ironic_temper.Node.{Method}
use ironic_temper.Node.Keeps.{Keeps, keeps_rules}
use ironic_temper.Node.Inspection.{Disk, RootDisk}
use ironic_temper.Node.Remote.{Chassis, ComputerSystem}
use ironic_temper.Node.Redfish.{RedfishApi}
use ironic_temper.Node.Redfish.Keeping.{redfish-Keeps, connect-Keeps}
use ironic_temper.Node.Redfish.Network.Keeping.{set_network_devices_data-Keeps}
use ironic_temper.Node.Redfish.Inventory.{
  set_memory, read_drives, set_disks, with_cpus, set_cpus, read_system, read_chassis, with_logout,
  load_inventory,
}

module _ {W : Type 0} (api : RedfishApi W) where
  set_memory-Keeps : Keeps (set_memory api)
  unfolding set_memory
  set_memory-Keeps = search (keeps_rules, redfish-Keeps) depth 20

  read_drives-Keeps : (ss : List ℕ) (acc : List Disk × RootDisk) → Keeps (read_drives api ss acc)
  unfolding read_drives
  read_drives-Keeps [] acc = search keeps_rules depth 20
  read_drives-Keeps (s ∷ ss) acc =
      search (keeps_rules, redfish-Keeps, λ (a : List Disk × RootDisk). read_drives-Keeps ss a)
        depth 20

  set_disks-Keeps : Keeps (set_disks api)
  unfolding set_disks
  set_disks-Keeps = search (keeps_rules, redfish-Keeps, read_drives-Keeps) depth 20

  with_cpus-Keeps : (s : ComputerSystem) (cpus : List String) → Keeps (with_cpus api s cpus)
  unfolding with_cpus
  with_cpus-Keeps s [] = search keeps_rules depth 20
  with_cpus-Keeps s (c ∷ cs) = search keeps_rules depth 20

  set_cpus-Keeps : (s : ComputerSystem) → Keeps (set_cpus api s)
  unfolding set_cpus
  set_cpus-Keeps s = search (keeps_rules, redfish-Keeps, with_cpus-Keeps) depth 20

  read_system-Keeps : (c : Chassis) (ss : List ComputerSystem) → Keeps (read_system api c ss)
  unfolding read_system
  read_system-Keeps c [] = search keeps_rules depth 20
  read_system-Keeps c (s ∷ ss) =
      search
        (
          keeps_rules, set_memory-Keeps, set_disks-Keeps, set_cpus-Keeps,
          set_network_devices_data-Keeps,
        )
        depth 20

  read_chassis-Keeps : (cs : List Chassis) → Keeps (read_chassis api cs)
  unfolding read_chassis
  read_chassis-Keeps [] = search keeps_rules depth 20
  read_chassis-Keeps (c ∷ cs) = search (keeps_rules, redfish-Keeps, read_system-Keeps) depth 20

  pub with_logout-Keeps : (m : Method W (Unit {0})) → Keeps m → Keeps (with_logout api m)
  with_logout-Keeps m k = record {
    status = λ s. ground (arith, k.status s);
    tasks = λ s. ground (arith, k.tasks s);
  }

  pub load_inventory-Keeps : Keeps (load_inventory api)
  unfolding load_inventory
  load_inventory-Keeps =
      search (keeps_rules, connect-Keeps, redfish-Keeps, with_logout-Keeps, read_chassis-Keeps)
        depth 20
