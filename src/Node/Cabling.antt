-- ===== src/Node/Cabling.antt =====
-- pkg/node/diagnostics.go and pkg/diagnostics/aci.go: the check that every cable ends at the switch
-- port that netbox names, by the neighbours that the switches see.
pub mod Keeping
pub mod Rounds
pub mod Verdict
pub mod Later
pub mod Held
pub mod Arista
use ironic_temper.Base.{
  ℕ, String, ◌<>◌, Bool, true, false, not, ◌&&◌, ◌||◌, Option, none, some, List, [], ◌∷◌, ◌++◌,
  ◌=ₛ◌, if◌then◌else◌,
}
use ironic_temper.Base.Dict.{Dict, lookup, insert}
use ironic_temper.Go.{
  Error, message, error_text, Reply, reply, refused, Result, ok, err, panics, Exec, ◌>>=◌, ◌>>◌,
  pure, fail,
}
use ironic_temper.Diagnostics.Aci.{AciApi, AciClient, new_aci, get_container}
use ironic_temper.Node.{Node, St, Method, call, this}
use ironic_temper.Node.Inspection.{NodeInterface, PortLinkStatus, up, down, other_link}
use ironic_temper.Node.Mac.{prepare_mac}
use ironic_temper.Node.Netbox.Status.{or_empty}
use ironic_temper.Text.{contains, is_empty, join}

-- `diagnostics.Lldp`: a port of a switch and the MAC addresses (`PortIdV`) of its neighbours.
pub record Lldp : Type 0 where
  pub id : String
  pub neighbours : List String

-- An entry of the switch's answer: the entry, or the error of its decoding.
abbrev pub Entry : Type 0
Entry = Reply Lldp

-- What a search of the entries finds: the neighbour at its port, at another port, or nowhere.
pub data Search : Type 0 where
  at_port missing : Search
  wrong_port : String → Search

abbrev sees : String → List String → Bool
sees mac [] = false
sees mac (n ∷ ns) = prepare_mac mac =ₛ prepare_mac n || sees mac ns

-- The loops over `l` and its children, left by `break aciPortLoop`. Beside the finding they leave
-- the last decoding error in `err`.
unfoldable pub search_entries : NodeInterface → List Entry → Option Error → Search × Option Error
search_entries i [] e = (missing, e)
search_entries i (refused x ∷ rest) e = search_entries i rest (some x)
search_entries i (reply l ∷ rest) e =
    let further = search_entries i rest none in
    if sees i.mac l.neighbours
    then (if l.id =ₛ i.port then (at_port, none) else (wrong_port l.id, none))
    else further

-- The complaint about an interface. A wrong port is also reported as a missing neighbour.
unfoldable pub complaints : String → Search → List String
complaints name at_port = []
complaints name missing = (name <> "(lldp_missing)") ∷ []
complaints name (wrong_port id) =
    (name <> ("(wrong switch port: " <> (id <> ")"))) ∷ (name <> "(lldp_missing)") ∷ []

-- The state of the loop: the complaints and `err`.
pub record Check : Type 0 where
  pub no_lldp : List String
  pub error : Option Error

abbrev complain : String → Option Error → Check → Check
complain text e c = record { no_lldp = c.no_lldp ++ (text ∷ []); error = e }

abbrev searched : String → Search × Option Error → Check → Check
searched name (found, e) c = record { no_lldp = c.no_lldp ++ complaints name found; error = e }

-- What the check does with the answer of the switch. The panic of a call ends the check.
unfoldable pub check_answer : String → NodeInterface → Result (List Entry) → Check → Result Check
check_answer name i (err e) c = ok (complain (name <> ("(" <> (error_text e <> ")"))) (some e) c)
check_answer name i (ok entries) c = ok (searched name (search_entries i entries none) c)
check_answer name i (panics p) c = panics p

abbrev is_down : PortLinkStatus → Bool
is_down down = true
is_down _ = false

verdict_of : List String → Option Error → Result (Unit {0})
verdict_of [] none = ok tt
verdict_of [] (some e) = err e
verdict_of (t ∷ ts) e = err (message ("cable check not successful for: " <> join " " (t ∷ ts)))

-- The error that the deferred function and the last `return` make of the state of the loop.
unfoldable pub verdict : Check → Result (Unit {0})
unfolding verdict_of
verdict c = verdict_of c.no_lldp c.error

abbrev pub no_complaint : Check
no_complaint = record { no_lldp = []; error = none }

module _ {K : Type 0} (get_entries : String → Exec K (List Entry)) where
  -- One round of the loop.
  unfoldable pub check_interface : String → NodeInterface → Check → Exec K Check
  check_interface name i c k =
      if not (contains i.connection "aci")
      then (ok c, k)
      else if is_down i.port_link_status
      then (ok (complain (name <> "(interface_down)") c.error c), k)
      else if is_empty i.connection_ip
      then (ok (complain (name <> "(no_aci_ip)") c.error c), k)
      else let (answer, k') = get_entries i.connection_ip k in (check_answer name i answer c, k')

  -- The loop over the interfaces, in the order in which the range statement visits the map.
  unfoldable pub check_interfaces : Dict NodeInterface → Check → Exec K Check
  check_interfaces [] c = pure c
  check_interfaces ((name, i) ∷ rest) c = do c' ← check_interface name i c; check_interfaces rest c'

-- The panic of a call goes on behind the deferred function.
abbrev verdict_or_panic : Result Check → Result (Unit {0})
verdict_or_panic (ok c) = verdict c
verdict_or_panic (err e) = err e
verdict_or_panic (panics p) = panics p

-- `co.Search("imdata").Children()`, which of a nil pointer is nothing.
abbrev pub children : Option (List Entry) → List Entry
children none = []
children (some entries) = entries

abbrev children_of : {K : Type 0} → Result (Option (List Entry)) × K → Result (List Entry) × K
children_of (ok co, k) = (ok (children co), k)
children_of (err e, k) = (err e, k)
children_of (panics p, k) = (panics p, k)

module _ {W : Type 0} (api : AciApi (List Entry) W) where
  -- The neighbours that a switch sees, by the client of the check.
  unfoldable pub entries_at : String → Exec (AciClient (List Entry) W) (List Entry)
  entries_at host a = children_of (get_container api host a)

  -- `runACICheck`, with a client of its own.
  unfoldable pub run_aci_check : Method W (Unit {0})
  run_aci_check s =
      let (r, a) =
        check_interfaces entries_at (or_empty s.node.interfaces) no_complaint (new_aci s.world) in
      (verdict_or_panic r, record s { world = a.world })
