-- ===== src/Clients.antt =====
-- pkg/clients/openstack.go: the service clients of openstack, which a node makes when it first
-- needs them and keeps. The calls of gophercloud are parameters.
pub mod Dns
pub mod Paging
pub mod Keeping
pub mod Awx
pub mod Netbox
pub mod Services
use ironic_temper.Base.{
  ℕ, String, Bool, true, false, ◌||◌, Option, none, some, List, [], ◌∷◌, ◌=ₛ◌, if◌then◌else◌,
}
use ironic_temper.Go.{Error, message, Reply, Result, Call, ◌>>=◌, ◌>>◌, pure, fail, panic, branch}
use ironic_temper.Node.{Node, OpenstackAuth, St, Method, call, this, write}

pub record Zone : Type 0 where
  pub id : String

-- The arguments of `recordsets.Create`
pub record RecordSet : Type 0 where
  pub name : String
  pub ttl : ℕ
  pub type : String
  pub records : List String

-- An image, a flavor or a service: the name by which it is looked up, and its id or its zone.
pub record Named : Type 0 where
  pub name : String
  pub value : String

-- `clients.PortGroup`
pub record PortGroup : Type 0 where
  pub node_uuid : String
  pub name : String
  pub address : String
  pub standalone_ports_supported : Bool
  pub mode : String
  pub miimon : ℕ

-- `Pager.EachPage` of gophercloud, over the pages of a listing and the handler's state.
abbrev pub EachPage : Type 0 → Type 0 → Type 0
EachPage P S = List P → (P → S → Reply Bool × S) → S → Reply (Unit {0}) × S

pub record OpenstackApi (W : Type 0) : Type 0 where
  pub authenticate : OpenstackAuth → Call W (Unit {0})
  -- `openstack.NewComputeV2` and its like, by the service's name and the region
  pub new_client : String → String → Call W (Unit {0})
  pub baremetal_version : Call W String
  -- the pages of the listing, and the zones extracted from them
  pub zones_by_name : String → Call W (Reply (List Zone))
  pub zone_create : String → Call W Zone
  pub record_create : String → RecordSet → Call W (Unit {0})
  -- the pages of a listing: what is extracted from each, or the error of the extraction
  pub images : String → Call W (List (Reply (List Named)))
  pub flavor_names : Call W (List (Reply (List Named)))
  pub services : String → Call W (List (Reply (List Named)))
  pub each_page : EachPage (Reply (List Named)) String
  pub networks : String → Call W (Reply (List String))
  -- the status code of the answer and the uuid in it
  pub port_group_create : PortGroup → Call W (ℕ × String)
  -- `net.ParseIP`: the sixteen bytes of the address
  pub parse_ip : String → Option (List ℕ)

abbrev known_service : String → Bool
known_service s = s =ₛ "compute" || (s =ₛ "dns" || (s =ₛ "identity" || s =ₛ "network"))

abbrev pub is_cached : String → List String → Bool
is_cached s [] = false
is_cached s (c ∷ cs) = c =ₛ s || is_cached s cs

-- `c.Clients[service]`, used with no test whether it is there.
abbrev pub cached_client : {W : Type 0} → String → Method W (Unit {0})
cached_client service s =
    branch (is_cached service s.node.service_clients) (pure tt) (panic "nil pointer dereference") s

module _ {W : Type 0} (api : OpenstackApi W) where
  -- `NewProviderClient`
  unfoldable pub new_provider_client : OpenstackAuth → Method W (Unit {0})
  new_provider_client auth = call (api.authenticate auth)

  keep_client : String → Method W (Unit {0})
  keep_client s = write (λ n. record n { service_clients = s ∷ n.service_clients })

  make_client : String → Method W (Unit {0})
  unfolding keep_client
  make_client s = do n ← this; call (api.new_client s n.cfg.region); keep_client s

  -- The client of the baremetal service also asks for the version of the interface.
  make_baremetal_client : Method W (Unit {0})
  unfolding keep_client
  make_baremetal_client = do
    n ← this
    call (api.new_client "baremetal" n.cfg.region)
    call api.baremetal_version
    keep_client "baremetal"

  -- `GetServiceClient`. For a service that it does not know it returns no client and no error.
  unfoldable pub get_service_client : String → Method W (Unit {0})
  unfolding make_client make_baremetal_client
  get_service_client s = do
    n ← this
    branch (is_cached s n.service_clients) (pure tt) (do
      new_provider_client n.cfg.openstack
      branch (known_service s) (make_client s)
          (branch (s =ₛ "baremetal") make_baremetal_client (pure tt)))
