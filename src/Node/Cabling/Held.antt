-- ===== src/Node/Cabling/Held.antt =====
-- The cable check by what its client holds at its end.
use mathlib.Core.Path.{subst}
use ironic_temper.Base.{
  ◌≡◌, refl, sym, String, ◌<>◌, Bool, true, false, Option, none, some, List, [], ◌∷◌, arith,
  Bool-cases, inl, inr,
}
use ironic_temper.Base.Dict.{Dict, lookup}
use ironic_temper.Diagnostics.Aci.{AciApi, AciClient, new_aci}
use ironic_temper.Go.{message, Reply, reply, refused, Result, ok, err, panics}
use ironic_temper.Node.{St}
use ironic_temper.Node.Inspection.{NodeInterface}
use ironic_temper.Node.Netbox.Status.{or_empty}
use ironic_temper.Node.Cabling.{
  Entry, Check, children, entries_at, no_complaint, verdict, check_answer, check_interface,
  check_interfaces, run_aci_check, is_down,
}
use ironic_temper.Node.Cabling.Later.{
  Later, entries_at_held, Later-refl, Later-trans, check_interface-Later,
}
use ironic_temper.Node.Cabling.Rounds.{
  is_cabled, all_cabled, result_of, check_answer-Passes, answers_for, Passes, append_ne_nil,
}
use ironic_temper.Text.{contains, is_empty}

module _ {W : Type 0} (api : AciApi (List Entry) W) where
  abbrev held_entry : Option (Option (List Entry)) → Reply (List Entry)
  held_entry none = refused (message "no answer")
  held_entry (some co) = reply (children co)

  -- The answer of a switch that the client holds.
  abbrev pub held : AciClient (List Entry) W → String → Reply (List Entry)
  held a host = held_entry (lookup host a.co)

  -- A round that leaves no complaint met none, and found its interface cabled.
  Sound : NodeInterface → Check → Check → AciClient (List Entry) W → Type 0
  Sound i c c1 k1 =
      (c.no_lldp ≡ []) × ((a : AciClient (List Entry) W) → Later k1 a → is_cabled (held a) i ≡ true)

  answered :
      (name : String) (i : NodeInterface) (r : Reply (List Entry)) (c c1 : Check)
      → check_answer name i (result_of r) c ≡ ok c1
      → c1.no_lldp ≡ []
      → (c.no_lldp ≡ []) × (answers_for i r ≡ true)
  answered name i r c c1 h z =
      let (c', e, p) = check_answer-Passes name i r c in passed (answers_for i r) refl c' e p
    where
      passed :
          (b : Bool)
          → answers_for i r ≡ b
          → (c' : Check) → check_answer name i (result_of r) c ≡ ok c'
          → Passes (answers_for i r) c c'
          → (c.no_lldp ≡ []) × (answers_for i r ≡ true)
      passed true b c' e p =
          let q : Passes true c c' = rw b at p in (ground (arith, q.0, e, h, z), b)
      passed false b c' e p =
          let q : Passes false c c' = rw b at p in absurd (q (ground (arith, e, h, z)))

  asked_sound :
      (name : String) (i : NodeInterface) (c c1 : Check) (k : AciClient (List Entry) W)
      (r : Result (List Entry))
      → (entries_at api i.connection_ip k).0 ≡ r
      → check_answer name i r c ≡ ok c1
      → c1.no_lldp ≡ []
      → (c.no_lldp ≡ [])
        × ((a : AciClient (List Entry) W)
            → Later (entries_at api i.connection_ip k).1 a
            → answers_for i (held a i.connection_ip) ≡ true)
  unfolding Later check_answer
  asked_sound name i c c1 k (ok l) e h z =
      let (clean, seen) = answered name i (reply l) c c1 h z in
      let (co, at, same) = entries_at_held api i.connection_ip k l e in
      (clean, λ a later. ground (arith, seen, later i.connection_ip co at, same))
  asked_sound name i c c1 k (err x) e h z =
      let (clean, seen) = answered name i (refused x) c c1 h z in absurd (ground (arith, seen))
  asked_sound name i c c1 k (panics p) e h z = absurd (ground (arith, h))

  check_interface-Sound :
      (name : String) (i : NodeInterface) (c c1 : Check) (k : AciClient (List Entry) W)
      → (check_interface (entries_at api) name i c k).0 ≡ ok c1
      → c1.no_lldp ≡ []
      → Sound i c c1 (check_interface (entries_at api) name i c k).1
  unfolding check_interface Sound
  check_interface-Sound name i c c1 k h z = elim (Bool-cases (contains i.connection "aci")) [
    | inr far ↦ (ground (arith, far, h, z), λ a later. ground (arith, far))
    | inl aci ↦ elim (Bool-cases (is_down i.port_link_status)) [
      | inl dead ↦ absurd (
          append_ne_nil c.no_lldp (name <> "(interface_down)") [] (ground (arith, aci, dead, h, z)))
      | inr alive ↦ elim (Bool-cases (is_empty i.connection_ip)) [
        | inl lost ↦ absurd (
            append_ne_nil c.no_lldp (name <> "(no_aci_ip)") []
              (ground (arith, aci, alive, lost, h, z)))
        | inr known ↦
            let (clean, seen) =
              asked_sound name i c c1 k (entries_at api i.connection_ip k).0 refl
                (ground (arith, aci, alive, known, h)) z in
            let same : (check_interface (entries_at api) name i c k).1
                ≡ (entries_at api i.connection_ip k).1 =
              ground (arith, aci, alive, known) in
            (
              clean,
              λ a later.
                  ground (arith, aci, alive, known, seen a (subst (λ b. Later b a) same later)),
            )
      ]
    ]
  ]

  -- A loop that leaves no complaint met none, and found its interfaces cabled.
  check_interfaces_sound :
      (m : Dict NodeInterface) (c c' : Check) (k : AciClient (List Entry) W)
      → (check_interfaces (entries_at api) m c k).0 ≡ ok c'
      → c'.no_lldp ≡ []
      → let last = (check_interfaces (entries_at api) m c k).1 in
        (c.no_lldp ≡ [])
        × Later k last
        × ((a : AciClient (List Entry) W) → Later last a → all_cabled (held a) m ≡ true)
  unfolding check_interfaces Sound
  check_interfaces_sound [] c c' k h z = (ground (arith, h, z), Later-refl k, λ a later. refl)
  check_interfaces_sound ((name, i) ∷ rest) c c' k h z =
      after (check_interface (entries_at api) name i c k) refl
        (λ c1. check_interfaces_sound rest c1 c' (check_interface (entries_at api) name i c k).1)
    where
      k1 : AciClient (List Entry) W
      k1 = (check_interface (entries_at api) name i c k).1

      after :
          (r : Result Check × AciClient (List Entry) W)
          → check_interface (entries_at api) name i c k ≡ r
          → ((c1 : Check)
              → (check_interfaces (entries_at api) rest c1 k1).0 ≡ ok c'
              → c'.no_lldp ≡ []
              → let last = (check_interfaces (entries_at api) rest c1 k1).1 in
                (c1.no_lldp ≡ [])
                × Later k1 last
                × ((a : AciClient (List Entry) W) → Later last a → all_cabled (held a) rest ≡ true))
          → let last = (check_interfaces (entries_at api) ((name, i) ∷ rest) c k).1 in
            (c.no_lldp ≡ [])
            × Later k last
            × ((a : AciClient (List Entry) W)
                → Later last a
                → all_cabled (held a) ((name, i) ∷ rest) ≡ true)
      after (ok c1, t) e ih =
          let last : AciClient (List Entry) W = (check_interfaces (entries_at api) rest c1 k1).1 in
          let same : (check_interfaces (entries_at api) ((name, i) ∷ rest) c k).1 ≡ last =
            ground (arith, e) in
          let (clean, later1, cabled) = ih c1 (ground (arith, e, h)) z in
          let (none_before, sees) = check_interface-Sound name i c c1 k (ground (arith, e)) clean in
          let whole = Later-trans k k1 last (check_interface-Later api name i c k) later1 in
          (
            none_before,
            subst (Later k) (sym same) whole,
            λ a later.
                let from_last = subst (λ b. Later b a) same later in
                ground (arith, sees a (Later-trans k1 last a later1 from_last), cabled a from_last),
          )
      after (err x, t) e ih = absurd (ground (arith, e, h))
      after (panics p, t) e ih = absurd (ground (arith, e, h))

  -- The client of a check at its end.
  abbrev pub client_after : St W → AciClient (List Entry) W
  client_after s =
      (check_interfaces (entries_at api) (or_empty s.node.interfaces) no_complaint
        (new_aci s.world)).1

  -- Where runACICheck returns no error, its client holds an answer of each aci switch that an interface
  -- leads to, and by these answers each such interface is not down, has the address of its switch, and
  -- is first seen there at the port that netbox names.
  pub run_aci_check-held :
      (s : St W)
      → (run_aci_check api s).0 ≡ ok tt
      → all_cabled (held (client_after s)) (or_empty s.node.interfaces) ≡ true
  unfolding run_aci_check verdict
  run_aci_check-held s h =
      ended (check_interfaces (entries_at api) m no_complaint (new_aci s.world)).0 refl
    where
      m : Dict NodeInterface
      m = or_empty s.node.interfaces

      ended :
          (r : Result Check)
          → (check_interfaces (entries_at api) m no_complaint (new_aci s.world)).0 ≡ r
          → all_cabled (held (client_after s)) m ≡ true
      ended (ok c) e =
          let (_, _, cabled) =
            check_interfaces_sound m no_complaint c (new_aci s.world) e (ground (arith, e, h)) in
          cabled (client_after s) (Later-refl (client_after s))
      ended (err x) e = absurd (ground (arith, e, h))
      ended (panics p) e = absurd (ground (arith, e, h))
