-- ===== src/Clients/Paging.antt =====
-- The lookups of pkg/clients/openstack.go: an image, a flavor or a zone by its name in a listing
-- that comes in pages, a network, and a new port group.
pub mod Found
pub mod Keeping
use ironic_temper.Base.{
  ℕ, String, ◌<>◌, Bool, true, false, not, Option, none, some, List, [], ◌∷◌, ◌==◌, ◌=ₛ◌,
  if◌then◌else◌,
}
use ironic_temper.Go.{
  Error, message, Reply, reply, refused, Result, Exec, Call, ◌>>=◌, ◌>>◌, pure, fail, panic,
  inspect, of_reply, branch,
}
use ironic_temper.Node.{Node, St, Method, call, this}
use ironic_temper.Clients.{
  Named, PortGroup, OpenstackApi, cached_client, get_service_client, new_provider_client,
}

-- The first entry of that name.
unfoldable pub value_of : String → List Named → Option String
value_of name [] = none
value_of name (i ∷ is) = if i.name =ₛ name then some i.value else value_of name is

-- The result of a handler: whether to go on to the next page, or its error; and the id so far.
abbrev Handled : Type 0
Handled = Reply Bool × String

abbrev stop_if_found : Option String → String → Handled
stop_if_found (some v) id = (reply false, v)
stop_if_found none id = (reply true, id)

abbrev stop_unless_found : Option String → String → Handled
stop_unless_found (some v) id = (reply true, v)
stop_unless_found none id = (reply false, id)

-- The handler of `GetImageID` goes on until the image is found.
unfoldable pub image_handler : String → Reply (List Named) → String → Handled
unfolding value_of
image_handler name (refused e) id = (refused e, id)
image_handler name (reply is) id = stop_if_found (value_of name is) id

-- Those of `GetFlavorID` and `GetConductorZone` go on after a match and stop where there is none.
unfoldable pub flavor_handler : String → Reply (List Named) → String → Handled
unfolding value_of
flavor_handler name (refused e) id = (refused e, id)
flavor_handler name (reply fs) id = stop_unless_found (value_of name fs) id

unfoldable pub zone_handler : String → Reply (List Named) → String → Handled
unfolding value_of
zone_handler name (refused e) id = (refused e, id)
zone_handler name (reply svs) id = stop_unless_found (value_of name svs) id

abbrev pub found : {S : Type 0} → Reply (Unit {0}) × String → Exec S String
found (reply u, id) = pure id
found (refused e, id) = fail e

abbrev one_network : List String → String
one_network (n ∷ []) = n
one_network _ = ""

module _ {W : Type 0} (api : OpenstackApi W) where
  -- `GetImageID`
  unfoldable pub get_image_id : String → Method W String
  get_image_id name = do
    get_service_client api "compute"
    pages ← call (api.images name)
    found (api.each_page pages (image_handler name) "")

  -- `GetFlavorID`
  unfoldable pub get_flavor_id : String → Method W String
  get_flavor_id name = do
    get_service_client api "compute"
    pages ← call api.flavor_names
    found (api.each_page pages (flavor_handler name) "")

  -- `GetConductorZone`
  unfoldable pub get_conductor_zone : String → Method W String
  get_conductor_zone name = do
    get_service_client api "compute"
    pages ← call (api.services name)
    found (api.each_page pages (zone_handler name) "")

  -- `GetNetwork`: an empty id where there is not exactly one network of the name.
  unfoldable pub get_network : String → Method W String
  get_network name = do
    n ← this
    new_provider_client api n.cfg.deployment.openstack
    ignored ← inspect (call (api.new_client "network" n.cfg.region))
    pages ← call (api.networks name)
    ns ← of_reply pages
    pure (one_network ns)

  -- `CreatePortGroup`. For another status than 201 it formats the text of an error that is nil.
  unfoldable pub create_port_group_call : PortGroup → Method W String
  create_port_group_call pg = do
    cached_client "baremetal"
    (status, uuid) ← call (api.port_group_create pg)
    branch (status == 201) (pure uuid) (panic "nil pointer dereference")
