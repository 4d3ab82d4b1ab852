-- ===== src/Node/Inspection.antt =====
-- The inspection data of pkg/node/node.go. Sizes and counts are natural numbers; a `*string` is an
-- `Option`. `Memory.Total`, a float that nothing reads or writes, is left out.
use ironic_temper.Base.{ℕ, String, Bool, Option, List}
use ironic_temper.Base.Dict.{Dict}

pub record RootDisk : Type 0 where
  pub rotational : Bool
  pub vendor : String
  pub name : String
  pub model : String
  pub serial : String
  pub size : ℕ

pub record SystemVendor : Type 0 where
  pub serial_number : String
  pub product_name : String
  pub manufacturer : String
  pub model : String

pub record Interface : Type 0 where
  pub lldp : Dict String
  pub product : String
  pub vendor : Option String
  pub name : String
  pub has_carrier : Bool
  pub ip4_address : String
  pub client_id : Option String
  pub mac_address : String

pub record Boot : Type 0 where
  pub current_boot_mode : String
  pub pxe_interface : String

pub record Disk : Type 0 where
  pub rotational : Bool
  pub vendor : String
  pub name : String
  pub hctl : Option String
  pub wwn_vendor_extension : Option String
  pub wwn_with_extension : Option String
  pub model : String
  pub wwn : Option String
  pub serial : Option String
  pub size : ℕ

pub record Cpu : Type 0 where
  pub count : ℕ
  pub frequency : String
  pub flags : List String
  pub architecture : String

pub record Inventory : Type 0 where
  pub bmc_address : String
  pub system_vendor : SystemVendor
  pub interfaces : List Interface
  pub boot : Boot
  pub disks : List Disk
  pub physical_mb : ℕ
  pub cpu : Cpu

pub record InspectionData : Type 0 where
  pub root_disk : RootDisk
  pub boot_interface : String
  pub inventory : Inventory
  pub logs : String

-- `redfish.PortLinkStatus`, as far as the program tells its values apart.
pub data PortLinkStatus : Type 0 where
  up down other_link : PortLinkStatus

pub record NodeInterface : Type 0 where
  pub connection : String
  pub connection_ip : String
  pub port : String
  pub mac : String
  pub port_link_status : PortLinkStatus
