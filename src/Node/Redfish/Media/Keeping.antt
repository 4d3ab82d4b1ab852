-- ===== src/Node/Redfish/Media/Keeping.antt =====
-- Booting an image and ejecting it writes neither the status of the node nor its tasks.
use ironic_temper.Base.{ℕ, zero, suc, String, Bool, true, false}
use ironic_temper.Node.Keeps.{Keeps, keeps_rules}
use ironic_temper.Node.Remote.{VirtualMedia}
use ironic_temper.Node.Redfish.{RedfishApi}
use ironic_temper.Node.Redfish.Inventory.Keeping.{with_logout-Keeps}
use ironic_temper.Node.Redfish.Keeping.{redfish-Keeps, connect-Keeps, power-Keeps}
use ironic_temper.Node.Redfish.Media.{
  first_manager, get_media, insert_into, insert_media, eject_from, eject_media, boot_once,
  reboot_from_virtual_media, boot_image,
}

module _ {W : Type 0} (api : RedfishApi W) where
  first_manager-Keeps : (k : ℕ) → Keeps (first_manager api k)
  unfolding first_manager
  first_manager-Keeps zero = search keeps_rules depth 20
  first_manager-Keeps (suc k) = search keeps_rules depth 20

  get_media-Keeps : Keeps (get_media api)
  unfolding get_media
  get_media-Keeps = search (keeps_rules, redfish-Keeps, first_manager-Keeps) depth 20

  insert_into-Keeps : (image : String) (vm : VirtualMedia) → Keeps (insert_into api image vm)
  unfolding insert_into
  insert_into-Keeps image vm = search (keeps_rules, redfish-Keeps) depth 20

  insert_media-Keeps : (image : String) → Keeps (insert_media api image)
  unfolding insert_media
  insert_media-Keeps image = search (keeps_rules, get_media-Keeps, insert_into-Keeps) depth 20

  eject_from-Keeps : (vm : VirtualMedia) → Keeps (eject_from api vm)
  unfolding eject_from
  eject_from-Keeps vm = search (keeps_rules, redfish-Keeps) depth 20

  pub eject_media-Keeps : Keeps (eject_media api)
  unfolding eject_media
  eject_media-Keeps = search (keeps_rules, get_media-Keeps, eject_from-Keeps) depth 20

  boot_once-Keeps : (dell : Bool) → Keeps (boot_once api dell)
  unfolding boot_once
  boot_once-Keeps true = search (keeps_rules, redfish-Keeps, first_manager-Keeps) depth 20
  boot_once-Keeps false = search redfish-Keeps depth 20

  reboot-Keeps : Keeps (reboot_from_virtual_media api)
  unfolding reboot_from_virtual_media
  reboot-Keeps = search (keeps_rules, redfish-Keeps, boot_once-Keeps, power-Keeps) depth 20

  pub boot_image-Keeps : Keeps (boot_image api)
  unfolding boot_image
  boot_image-Keeps =
      search (keeps_rules, connect-Keeps, with_logout-Keeps, insert_media-Keeps, reboot-Keeps) depth
        20
