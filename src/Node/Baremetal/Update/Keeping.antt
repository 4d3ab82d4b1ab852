-- ===== src/Node/Baremetal/Update/Keeping.antt =====
-- The updates of an ironic node write neither the status of the node nor its tasks.
use ironic_temper.Base.{List}
use ironic_temper.Node.{Method}
use ironic_temper.Node.Keeps.{Keeps, keeps_rules}
use ironic_temper.Clients.Keeping.{get_service_client-Keeps}
use ironic_temper.Node.Baremetal.{BaremetalApi, UpdateOperation, Rule}
use ironic_temper.Node.Baremetal.Create.Keeping.{get_uuid-Keeps}
use ironic_temper.Node.Baremetal.Update.{update_node, update_ports, prepare, apply_rules}

module _ {W : Type 0} (api : BaremetalApi W) where
  update_node-Keeps : (opts : List UpdateOperation) → Keeps (update_node api opts)
  unfolding update_node
  update_node-Keeps opts = search (keeps_rules, get_service_client-Keeps) depth 20

  update_ports-Keeps : (opts : List UpdateOperation) → Keeps (update_ports api opts)
  unfolding update_ports
  update_ports-Keeps opts = search (keeps_rules, get_service_client-Keeps) depth 20

  pub prepare-Keeps : Keeps (prepare api)
  unfolding prepare
  prepare-Keeps = search (keeps_rules, get_uuid-Keeps, update_node-Keeps) depth 20

  pub apply_rules-Keeps :
      (get_rules : Method W Rule) → Keeps get_rules → Keeps (apply_rules api get_rules)
  unfolding apply_rules
  apply_rules-Keeps get_rules k =
      search (keeps_rules, update_ports-Keeps, update_node-Keeps) depth 20
