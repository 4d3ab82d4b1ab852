-- ===== src/Node/Baremetal/Create/Quiet.antt =====
-- The creation of an ironic node, by an inspector whose answer names neither the status of the node
-- nor its tasks.
use ironic_temper.Base.{◌≡◌, refl, String, List, [], ◌∷◌, ◌==◌, arith}
use ironic_temper.Go.{Reply, reply, refused, ◌>>=◌, branch, inspect, of_reply}
use ironic_temper.Node.{Node, St, Method}
use ironic_temper.Node.Inspection.{Interface}
use ironic_temper.Node.Keeps.{Keeps, keeps_rules}
use ironic_temper.Node.Baremetal.{BaremetalApi, Response}
use ironic_temper.Node.Baremetal.Create.{
  or_panic, creation_error, take_node, post_inspection, with_interfaces, create,
}
use ironic_temper.Node.Baremetal.Create.Keeping.{IsQuiet}

module _ {W : Type 0} (api : BaremetalApi W) (quiet : IsQuiet api) where
  -- What follows the inspector's answer.
  abbrev answered : Node → Reply Response → Method W (Unit {0})
  answered n r = or_panic r >>= λ res.
      branch (res.status_code == 200) (take_node api (api.unmarshal_node res.body n))
        (creation_error api (api.unmarshal_inspector_error res.body))

  take_node_same :
      (n : Node) (body : String) (u : Reply Node) (s : St W)
      → api.unmarshal_node body n ≡ u
      → s.node ≡ n
      → ((take_node api u s).1.node.status ≡ s.node.status)
        × ((take_node api u s).1.node.tasks ≡ s.node.tasks)
  unfolding take_node
  take_node_same n body (refused e) s h k = (refl, refl)
  take_node_same n body (reply m) s h k =
      ground (arith, quiet.status body n m h, quiet.tasks body n m h)

  creation_error_same : (u : Reply String) (s : St W) → (creation_error api u s).1 ≡ s
  unfolding creation_error
  creation_error_same (refused e) s = refl
  creation_error_same (reply text) s = ground arith

  answered_same :
      (n : Node) (r : Reply Response) (s : St W)
      → s.node ≡ n
      → ((answered n r s).1.node.status ≡ s.node.status)
        × ((answered n r s).1.node.tasks ≡ s.node.tasks)
  answered_same n (refused e) s k = (refl, refl)
  answered_same n (reply res) s k = ground (
    arith,
    take_node_same n res.body (api.unmarshal_node res.body n) s refl k,
    creation_error_same (api.unmarshal_inspector_error res.body) s,
  )

  sent_same :
      (n : Node) (r : Reply Response) (s : St W)
      → s.node ≡ n
      → let out = (inspect (of_reply r) >>= answered n) s in
        (out.1.node.status ≡ s.node.status) × (out.1.node.tasks ≡ s.node.tasks)
  sent_same n (reply res) s k = answered_same n (reply res) s k
  sent_same n (refused e) s k = answered_same n (refused e) s k

  post_inspection-Keeps : Keeps (post_inspection api)
  unfolding post_inspection
  post_inspection-Keeps = record { status = λ s. (same s).0; tasks = λ s. (same s).1 }
    where
      same :
          (s : St W)
          → ((post_inspection api s).1.node.status ≡ s.node.status)
            × ((post_inspection api s).1.node.tasks ≡ s.node.tasks)
      same s =
          let (r, w) = api.inspector_continue s.node.cfg.inspector_host s.node.inspection s.world in
          sent_same s.node r (record s { world = w }) refl

  with_interfaces-Keeps : (is : List Interface) → Keeps (with_interfaces api is)
  unfolding with_interfaces
  with_interfaces-Keeps [] = search keeps_rules depth 20
  with_interfaces-Keeps (i ∷ is) = post_inspection-Keeps

  pub create-Keeps : Keeps (create api)
  unfolding create
  create-Keeps = search (keeps_rules, with_interfaces-Keeps) depth 20
