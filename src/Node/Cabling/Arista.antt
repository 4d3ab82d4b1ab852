-- ===== src/Node/Cabling/Arista.antt =====
-- `runAristaCheck` of pkg/node/diagnostics.go: the check of the cables that end at an arista switch.
-- `neighbours` connects to a switch and shows its neighbours.
use ironic_temper.Base.{
  ◌≡◌, ◌≢◌, ◌↔◌, refl, String, ◌<>◌, Bool, true, false, not, ◌&&◌, ◌||◌, Option, none, some, List,
  [], ◌∷◌, ◌++◌, ◌=ₛ◌, arith, if◌then◌else◌,
}
use ironic_temper.Base.Dict.{Dict}
use ironic_temper.Go.{Error, Reply, reply, refused, ok, Call}
use ironic_temper.Node.{St, Method}
use ironic_temper.Node.Inspection.{NodeInterface}
use ironic_temper.Node.Netbox.Status.{or_empty}
use ironic_temper.Node.Cabling.{verdict_of}
use ironic_temper.Text.{contains, remove_all, to_lower}

-- The inner loop, left by `break`: a port name that is the address of the interface.
unfoldable pub has_neighbour : String → List String → Bool
has_neighbour mac [] = false
has_neighbour mac (port ∷ ports) =
    to_lower (remove_all b':' mac) =ₛ remove_all b'.' port || has_neighbour mac ports

-- The state of the loop: the complaints, and the error of an early return.
pub record Round : Type 0 where
  pub no_lldp : List String
  pub stopped : Option Error

abbrev noted : String → NodeInterface → Reply (List String) → List String → Round
noted name i (refused e) c = record { no_lldp = c; stopped = some e }
noted name i (reply ports) c = record {
  no_lldp = if has_neighbour i.mac ports then c else c ++ ((name <> "(lldp_missing)") ∷ []);
  stopped = none;
}

module _ {W : Type 0} (neighbours : String → Call W (List String)) where
  unfoldable pub check_arista : String → String → NodeInterface → List String → W → Round × W
  check_arista domain name i c w =
      let (r, w') = neighbours (i.connection <> ("." <> domain)) w in
      if not (contains i.connection "sw")
      then (record { no_lldp = c; stopped = none }, w)
      else (noted name i r c, w')

  -- The loop over the interfaces.
  unfoldable pub check_all : String → Dict NodeInterface → List String → W → Round × W
  check_all domain [] c w = (record { no_lldp = c; stopped = none }, w)
  check_all domain ((name, i) ∷ rest) c w =
      let (r, w') = check_arista domain name i c w in
      elim (r.stopped) [ some e ↦ (r, w') | none ↦ check_all domain rest r.no_lldp w' ]

  -- `runAristaCheck`
  unfoldable pub run_arista_check : Method W (Unit {0})
  unfolding verdict_of
  run_arista_check s =
      let (r, w) = check_all s.node.cfg.domain (or_empty s.node.interfaces) [] s.world in
      (verdict_of r.no_lldp r.stopped, record s { world = w })

  module _ (answer : String → Reply (List String))
      (stable : (host : String) (w : W) → (neighbours host w).0 ≡ answer host) where
    abbrev sees_node : NodeInterface → Reply (List String) → Bool
    sees_node i (refused e) = false
    sees_node i (reply ports) = has_neighbour i.mac ports

    -- An interface that does not lead to an arista switch, or whose switch answers with its address.
    abbrev pub is_attached : String → NodeInterface → Bool
    is_attached domain i =
        not (contains i.connection "sw") || sees_node i (answer (i.connection <> ("." <> domain)))

    abbrev pub all_attached : String → Dict NodeInterface → Bool
    all_attached domain [] = true
    all_attached domain ((name, i) ∷ rest) = is_attached domain i && all_attached domain rest

    append_ne : (xs : List String) (y : String) → xs ++ (y ∷ []) ≢ []
    append_ne [] y h = cc
    append_ne (x ∷ xs) y h = cc

    IsClean : Round → Type 0
    IsClean r = (r.no_lldp ≡ []) × (r.stopped ≡ none)

    check_arista-IsClean :
        (domain name : String) (i : NodeInterface) (c : List String) (w : W)
        → IsClean (check_arista domain name i c w).0 ↔ ((c ≡ []) × (is_attached domain i ≡ true))
    unfolding check_arista IsClean
    check_arista-IsClean domain name i c w = answered (neighbours host w).0 refl
      where
        host : String
        host = i.connection <> ("." <> domain)

        answered :
            (r : Reply (List String))
            → (neighbours host w).0 ≡ r
            → IsClean (check_arista domain name i c w).0
              ↔ ((c ≡ []) × (is_attached domain i ≡ true))
        answered (refused e) h = ground (arith, h, stable host w)
        answered (reply ports) h =
            ground (arith, h, stable host w, append_ne c (name <> "(lldp_missing)"))

    check_all-IsClean :
        (domain : String) (m : Dict NodeInterface) (c : List String) (w : W)
        → IsClean (check_all domain m c w).0 ↔ ((c ≡ []) × (all_attached domain m ≡ true))
    unfolding check_all IsClean
    check_all-IsClean domain [] c w = ground arith
    check_all-IsClean domain ((name, i) ∷ rest) c w =
        let (r, w') = check_arista domain name i c w in
        ground (
          arith,
          check_arista-IsClean domain name i c w,
          check_all-IsClean domain rest r.no_lldp w',
        )

    verdict_of_ok :
        (c : List String) (e : Option Error) → (verdict_of c e ≡ ok tt) ↔ ((c ≡ []) × (e ≡ none))
    unfolding verdict_of
    verdict_of_ok [] none = ground arith
    verdict_of_ok [] (some e) = ground arith
    verdict_of_ok (t ∷ ts) e = ground arith

    -- By answers of the switches that do not change during the check, runAristaCheck returns no error
    -- exactly where every interface that leads to an arista switch has its address among the neighbours
    -- that this switch shows.
    pub run_arista_check_ok :
        (s : St W)
        → ((run_arista_check s).0 ≡ ok tt)
          ↔ (all_attached s.node.cfg.domain (or_empty s.node.interfaces) ≡ true)
    unfolding run_arista_check IsClean
    run_arista_check_ok s =
        let m = or_empty s.node.interfaces in
        let (r, w) = check_all s.node.cfg.domain m [] s.world in
        ground (
          arith,
          verdict_of_ok r.no_lldp r.stopped,
          check_all-IsClean s.node.cfg.domain m [] s.world,
        )
