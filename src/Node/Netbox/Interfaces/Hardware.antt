-- ===== src/Node/Netbox/Interfaces/Hardware.antt =====
-- What `loadInterfaces` leaves of the data that redfish gave.
use ironic_temper.Base.{
  ◌≡◌, refl, ◌∙◌, String, Bool, Bool-cases, inl, inr, Option, none, some, List, [], ◌∷◌, arith,
  eq_iff, ◌=ₛ◌,
}
use ironic_temper.Base.Dict.{Dict, lookup, insert, lookup-insert}
use ironic_temper.Go.{
  Error, Call, Reply, reply, refused, pure, fail, panic, deref, of_reply, inspect, branch, for_each,
  ◌>>=◌,
}
use ironic_temper.Node.{Node, St, Method, call, this}
use ironic_temper.Node.Inspection.{NodeInterface}
use ironic_temper.Node.Netbox.Status.{or_empty}
use ironic_temper.Node.Remote.{NetboxInterface, Endpoint, Device}
use ironic_temper.Node.Netbox.{
  NetboxApi, nil_pointer, netbox, non_empty, get_interfaces, first_device, load_device_config,
  primary_ip4_of, get_interface_ip,
}
use ironic_temper.Node.Netbox.Interfaces.{
  or_new, put_connection, connect_to, connect_device, connect_endpoint, load_interface,
  load_interfaces,
}
use ironic_temper.Node.Respects.{
  Respects, call-Respects, pure-Respects, fail-Respects, panic-Respects, deref-Respects,
  of_reply-Respects, inspect-Respects, branch-Respects, this-Respects, bind-Respects,
  for_each-Respects,
}

-- The interface of a name; a missing one has no address.
abbrev pub interface_at : String → Node → NodeInterface
interface_at name n = or_new (lookup name (or_empty n.interfaces))

-- Under every name the two nodes have the same address and the same status of the link.
abbrev pub SameHardware : Node → Node → Type 0
SameHardware n n' =
    (name : String)
    → ((interface_at name n').mac ≡ (interface_at name n).mac)
      × ((interface_at name n').port_link_status ≡ (interface_at name n).port_link_status)

same : (n : Node) → SameHardware n n
same n name = (refl, refl)

joined : (a b c : Node) → SameHardware a b → SameHardware b c → SameHardware a c
joined a b c v w name = ((w name).0 ∙ (v name).0, (w name).1 ∙ (v name).1)

abbrev Same : {W A : Type 0} → Method W A → Type 0
Same m = Respects SameHardware same joined m

call-Same : {W A : Type 0} (c : Call W A) → Same (call c)
call-Same = call-Respects SameHardware same joined

pure-Same : {W A : Type 0} (a : A) → Same {W = W} (pure a)
pure-Same = pure-Respects SameHardware same joined

fail-Same : {W A : Type 0} (e : Error) → Same {W = W} {A = A} (fail e)
fail-Same = fail-Respects SameHardware same joined

deref-Same : {W A : Type 0} (o : Option A) → Same {W = W} (deref o)
deref-Same = deref-Respects SameHardware same joined

of_reply-Same : {W A : Type 0} (r : Reply A) → Same {W = W} (of_reply r)
of_reply-Same = of_reply-Respects SameHardware same joined

inspect-Same : {W A : Type 0} (m : Method W A) → Same m → Same (inspect m)
inspect-Same = inspect-Respects SameHardware same joined

branch-Same : {W A : Type 0} (b : Bool) (m n : Method W A) → Same m → Same n → Same (branch b m n)
branch-Same = branch-Respects SameHardware same joined

this-Same : {W : Type 0} → Same {W = W} this
this-Same = this-Respects SameHardware same joined

bind-Same :
    {W A B : Type 0} (m : Method W A) (f : A → Method W B)
    → Same m
    → ((a : A) → Same (f a))
    → Same (m >>= f)
bind-Same = bind-Respects SameHardware same joined

for_each-Same :
    {W A : Type 0} (xs : List A) (body : A → Method W (Unit {0}))
    → ((a : A) → Same (body a))
    → Same (for_each xs body)
for_each-Same = for_each-Respects SameHardware same joined

ruleset same_rules = (
  call-Same, pure-Same, fail-Same, deref-Same, of_reply-Same, inspect-Same, branch-Same, this-Same,
  bind-Same, for_each-Same,
)

inserted :
    (m : Dict NodeInterface) (name device ip port key : String)
    → let known = or_new (lookup name m) in
      let out = or_new (
        lookup key (
          insert name (record known { connection = device; connection_ip = ip; port = port }) m)) in
      (out.mac ≡ (or_new (lookup key m)).mac)
      × (out.port_link_status ≡ (or_new (lookup key m)).port_link_status)
inserted m name device ip port key =
    let known = or_new (lookup name m) in
    let i : NodeInterface = record known { connection = device; connection_ip = ip; port = port } in
    elim (Bool-cases (name =ₛ key)) [
      | inl e ↦ ground (arith, e, lookup-insert name key i m, eq_iff name key)
      | inr e ↦ rw (lookup-insert, e) (refl, refl)
    ]

put_connection-SameHardware :
    {W : Type 0} (m : Option (Dict NodeInterface)) (name device ip port : String) (s : St W)
    → s.node.interfaces ≡ m
    → SameHardware s.node (put_connection m name device ip port s).1.node
put_connection-SameHardware none name device ip port s h key = (refl, refl)
put_connection-SameHardware (some m) name device ip port s h key =
    rw h (inserted m name device ip port key)

module _ {W : Type 0} (api : NetboxApi W) where
  netbox-Same : {A : Type 0} (c : Call W A) → Same (netbox api c)
  netbox-Same c = record {
    related = λ s.
        (branch-Respects SameHardware same joined s.node.has_netbox (call c) (panic nil_pointer)
            (call-Respects SameHardware same joined c)
            (panic-Respects SameHardware same joined nil_pointer)).related
          s;
  }

  non_empty-Same : (name : String) (is : List NetboxInterface) → Same (non_empty api name is)
  unfolding non_empty
  non_empty-Same name [] = search same_rules depth 20
  non_empty-Same name (i ∷ is) = search same_rules depth 20

  get_interfaces-Same : Same (get_interfaces api)
  unfolding get_interfaces
  get_interfaces-Same = search (same_rules, netbox-Same, non_empty-Same) depth 20

  first_device-Same : (ds : List Device) → Same (first_device api ds)
  unfolding first_device
  first_device-Same [] = search same_rules depth 20
  first_device-Same (d ∷ ds) = search same_rules depth 20

  primary_ip4_of-Same : (id : String) (o : Option (Option String)) → Same (primary_ip4_of api id o)
  unfolding primary_ip4_of
  primary_ip4_of-Same id none = search same_rules depth 20
  primary_ip4_of-Same id (some a) = search same_rules depth 20

  get_interface_ip-Same : (id : String) → Same (get_interface_ip api id)
  unfolding get_interface_ip load_device_config
  get_interface_ip-Same id =
      search (same_rules, netbox-Same, first_device-Same, primary_ip4_of-Same) depth 20

  connect_to-Same :
      (name device port : String) (r : Reply String) → Same (connect_to api name device port r)
  unfolding connect_to
  connect_to-Same name device port (refused e) = search same_rules depth 20
  connect_to-Same name device port (reply ip) = record {
    related = λ s. put_connection-SameHardware s.node.interfaces name device ip port s refl;
  }

  connect_device-Same :
      (name port : String) (d : Option (String × String)) → Same (connect_device api name port d)
  unfolding connect_device
  connect_device-Same name port none = search same_rules depth 20
  connect_device-Same name port (some (device, id)) =
      search (same_rules, get_interface_ip-Same, connect_to-Same) depth 20

  connect_endpoint-Same : (name : String) (e : Option Endpoint) → Same (connect_endpoint api name e)
  unfolding connect_endpoint
  connect_endpoint-Same name none = search same_rules depth 20
  connect_endpoint-Same name (some e) = connect_device-Same name e.name e.device

  load_interface-Same : (i : NetboxInterface) → Same (load_interface api i)
  unfolding load_interface
  load_interface-Same i = search (same_rules, connect_endpoint-Same) depth 20

  -- However loadInterfaces ends, the node has under every name an interface with the address and the
  -- status of the link that it had before, where a missing interface counts as one with neither.
  pub load_interfaces-SameHardware :
      (s : St W) (name : String)
      → let after = interface_at name (load_interfaces api s).1.node in
        (after.mac ≡ (interface_at name s.node).mac)
        × (after.port_link_status ≡ (interface_at name s.node).port_link_status)
  unfolding load_interfaces
  load_interfaces-SameHardware s =
      let all : Same (load_interfaces api) =
        search (same_rules, get_interfaces-Same, load_interface-Same) depth 20 in
      all.related s
