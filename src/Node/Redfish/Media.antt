-- ===== src/Node/Redfish/Media.antt =====
-- The virtual media of pkg/node/redfish.go: `bootImage`, `insertMedia`, `ejectMedia`, `getMedia` and
-- `rebootFromVirtualMedia`.
pub mod Keeping
use ironic_temper.Base.{
  ℕ, zero, suc, String, Bool, true, false, not, ◌||◌, Option, none, some, List, [], ◌∷◌,
  if◌then◌else◌,
}
use ironic_temper.Go.{◌>>=◌, ◌>>◌, pure, panic, inspect, deref, branch}
use ironic_temper.Node.{Node, Method, this}
use ironic_temper.Node.Remote.{VirtualMedia, MediaType, cd, dvd, other_media}
use ironic_temper.Node.Redfish.{RedfishApi, connect, redfish, power}
use ironic_temper.Node.Redfish.Inventory.{with_logout}
use ironic_temper.Text.{contains, is_empty}

abbrev is_disc : MediaType → Bool
is_disc cd = true
is_disc dvd = true
is_disc other_media = false

abbrev has_disc : List MediaType → Bool
has_disc [] = false
has_disc (t ∷ ts) = is_disc t || has_disc ts

-- The first drive that takes a CD or a DVD; `none` is the nil pointer that the program goes on with.
unfoldable pub first_disc : List VirtualMedia → Option VirtualMedia
first_disc [] = none
first_disc (v ∷ vs) = if has_disc v.media_types then some v else first_disc vs

abbrev needs_patch : Node → Bool
needs_patch n = contains n.inspection.inventory.system_vendor.model "SR950"

-- The expression `R640|R740|R840`
abbrev pub is_dell : Node → Bool
is_dell n =
    let model = n.inspection.inventory.system_vendor.model in
    contains model "R640" || (contains model "R740" || contains model "R840")

module _ {W : Type 0} (api : RedfishApi W) where
  -- `m[0]` of the managers
  first_manager : ℕ → Method W (Unit {0})
  first_manager zero = panic "index out of range"
  first_manager (suc k) = pure tt

  -- `getMedia`
  unfoldable pub get_media : Method W (Option VirtualMedia)
  unfolding first_manager
  get_media = do
    managers ← redfish api api.managers
    first_manager managers
    vms ← redfish api api.virtual_media
    pure (first_disc vms)

  -- An error of the ejection before the insertion is overwritten.
  insert_into : String → VirtualMedia → Method W (Unit {0})
  insert_into image vm =
      branch vm.supports_media_insert
        (do
          branch (is_empty vm.image) (pure tt)
              (do ignored ← inspect (redfish api api.eject_media); pure tt)
          n ← this
          branch (needs_patch n) (redfish api (api.insert_media image "PATCH"))
              (redfish api (api.insert_media image "POST")))
        (pure tt)

  -- `insertMedia`
  unfoldable pub insert_media : String → Method W (Unit {0})
  unfolding insert_into
  insert_media image = do found ← get_media; vm ← deref found; insert_into image vm

  eject_from : VirtualMedia → Method W (Unit {0})
  eject_from vm = branch (not vm.supports_media_insert || is_empty vm.image) (pure tt) (do
    n ← this
    branch (needs_patch n) (redfish api (api.insert_media "" "PATCH"))
        (redfish api api.eject_media))

  -- `ejectMedia`
  unfoldable pub eject_media : Method W (Unit {0})
  unfolding eject_from
  eject_media = do found ← get_media; vm ← deref found; eject_from vm

  -- The error of the import on a dell server is overwritten by that of the reboot.
  boot_once : Bool → Method W (Unit {0})
  unfolding first_manager
  boot_once true = do
    managers ← redfish api api.managers
    first_manager managers
    ignored ← inspect (redfish api api.import_boot_configuration)
    pure tt
  boot_once false = redfish api api.set_boot_from_cd

  -- `rebootFromVirtualMedia`
  unfoldable pub reboot_from_virtual_media : Method W (Unit {0})
  unfolding boot_once
  reboot_from_virtual_media = do
    systems ← redfish api api.systems
    n ← this
    boot_once (is_dell n)
    power api false true

  -- `bootImage`
  unfoldable pub boot_image : Method W (Unit {0})
  boot_image = do
    n ← this
    image ← deref n.cfg.redfish_boot_image
    connect api
    with_logout api (do insert_media image; reboot_from_virtual_media)
