-- ===== src/Node/Wiring/Keeping.antt =====
-- The clean-up with the program's own methods, and the status that every run of the program ends in.
use ironic_temper.Base.{ℕ, Bool}
use ironic_temper.Node.{St}
use ironic_temper.Node.Temper.{temper}
use ironic_temper.Node.Temper.Outcome.{IsSettled}
use ironic_temper.Node.Temper.Cleanup.{CleanupKeepsStatus, temper-IsSettled}
use ironic_temper.Node.Baremetal.Create.Keeping.{delete_node-Keeps}
use ironic_temper.Node.Baremetal.Instance.Keeping.{delete_test_instance-Keeps}
use ironic_temper.Node.Netbox.Status.Keeping.{set_status-Keeps}
use ironic_temper.Node.Wiring.{Outside, node_methods}

module _ {W : Type 0} (o : Outside W) where
  -- The program's own calls of the clean-up leave the node's status alone.
  pub node_methods-CleanupKeepsStatus : CleanupKeepsStatus (node_methods o)
  node_methods-CleanupKeepsStatus = record {
    instance_keeps = λ s. (delete_test_instance-Keeps o.baremetal).status s;
    node_keeps = λ s. (delete_node-Keeps o.baremetal).status s;
    status_keeps = λ s. (set_status-Keeps o.netbox).status s;
  }

  -- However a run of the program's own methods ends, whatever the world outside answers, the node's
  -- last status is "failed" or "staged".
  pub temper_program-IsSettled :
      (netbox_sts : Bool) (wg : ℕ) (s : St W)
      → IsSettled (node_methods o) (temper (node_methods o) netbox_sts wg s).1
  temper_program-IsSettled netbox_sts wg s =
      temper-IsSettled (node_methods o) node_methods-CleanupKeepsStatus netbox_sts wg s
