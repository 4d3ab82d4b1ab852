-- ===== src/Node/Cabling/Later.antt =====
-- What the client of a cable check holds at one time, it holds later.
use ironic_temper.Base.{◌≡◌, refl, String, Option, some, List, arith, Bool-cases, inl, inr}
use ironic_temper.Base.Dict.{lookup}
use ironic_temper.Diagnostics.Aci.{AciApi, AciClient, get_container}
use ironic_temper.Diagnostics.Aci.Cached.{get_container_keeps, get_container_stores}
use ironic_temper.Go.{Result, ok, err, panics}
use ironic_temper.Node.Inspection.{NodeInterface}
use ironic_temper.Node.Cabling.{
  Entry, Check, children, children_of, entries_at, check_interface, is_down,
}
use ironic_temper.Text.{contains, is_empty}

module _ {W : Type 0} where
  -- What is held at one time is held later.
  unfoldable pub Later : AciClient (List Entry) W → AciClient (List Entry) W → Type 0
  Later a b =
      (host : String) (co : Option (List Entry))
      → lookup host a.co ≡ some co
      → lookup host b.co ≡ some co

  pub Later-refl : (a : AciClient (List Entry) W) → Later a a
  unfolding Later
  Later-refl a key co l = l

  pub Later-trans : (a b c : AciClient (List Entry) W) → Later a b → Later b c → Later a c
  unfolding Later
  Later-trans a b c f g key co l = g key co (f key co l)

module _ {W : Type 0} (api : AciApi (List Entry) W) where
  pub entries_at-Later :
      (host : String) (a : AciClient (List Entry) W) → Later a (entries_at api host a).1
  unfolding Later entries_at
  entries_at-Later host a key co l = moved (get_container api host a) refl
    where
      moved :
          (r : Result (Option (List Entry)) × AciClient (List Entry) W)
          → get_container api host a ≡ r
          → lookup key (children_of r).1.co ≡ some co
      moved (ok d, b) e = ground (arith, e, get_container_keeps api key host a co l)
      moved (err x, b) e = ground (arith, e, get_container_keeps api key host a co l)
      moved (panics p, b) e = ground (arith, e, get_container_keeps api key host a co l)

  -- An answer is held after the call.
  pub entries_at_held :
      (host : String) (a : AciClient (List Entry) W) (l : List Entry)
      → (entries_at api host a).0 ≡ ok l
      → (co : Option (List Entry)) × (lookup host (entries_at api host a).1.co ≡ some co)
        × (children co ≡ l)
  unfolding entries_at
  entries_at_held host a l h = moved (get_container api host a) refl h
    where
      moved :
          (r : Result (Option (List Entry)) × AciClient (List Entry) W)
          → get_container api host a ≡ r
          → (children_of r).0 ≡ ok l
          → (co : Option (List Entry)) × (lookup host (children_of r).1.co ≡ some co)
            × (children co ≡ l)
      moved (ok d, b) e h = (d, get_container_stores api host a b d e, ground (arith, h))
      moved (err x, b) e h = absurd (ground (arith, h))
      moved (panics p, b) e h = absurd (ground (arith, h))

  pub check_interface-Later :
      (name : String) (i : NodeInterface) (c : Check) (k : AciClient (List Entry) W)
      → Later k (check_interface (entries_at api) name i c k).1
  unfolding check_interface
  check_interface-Later name i c k =
      let called = entries_at-Later i.connection_ip k in
      elim (Bool-cases (contains i.connection "aci")) [
        | inr far ↦ rw far (Later-refl k)
        | inl aci ↦ rw aci (elim (Bool-cases (is_down i.port_link_status)) [
          | inl dead ↦ rw dead (Later-refl k)
          | inr alive ↦ rw alive (elim (Bool-cases (is_empty i.connection_ip)) [
            | inl lost ↦ rw lost (Later-refl k)
            | inr known ↦ rw known called
          ])
        ])
      ]
