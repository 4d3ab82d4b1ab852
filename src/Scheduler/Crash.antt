-- ===== src/Scheduler/Crash.antt =====
-- How the tempering of a scheduled node ends.
use ironic_temper.Base.{◌≡◌, refl, String, true}
use ironic_temper.Go.{Reply, ok, panics}
use ironic_temper.Node.{Node, Config}
use ironic_temper.Node.New.{new_node}
use ironic_temper.Node.Tasks.{add_task}
use ironic_temper.Node.Temper.{Methods}
use ironic_temper.Node.Temper.Cleanup.{temper_at_zero}
use ironic_temper.Scheduler.{temper_node, tempering}

-- A scheduled node that can be made is tempered by a goroutine that ends in a panic, whatever its
-- methods do.
pub temper_node_panics :
    {W : Type 0} (m : Methods W) (tls : Reply (Unit {0})) (name : String) (cfg : Config) (w : W)
    (n : Node)
    → new_node tls name cfg ≡ (ok tt, n)
    → (p : String) × (temper_node m tls name cfg w ≡ panics p)
unfolding temper_node
temper_node_panics m tls name cfg w n h =
    let (p, e) =
      temper_at_zero m true (record { node = (add_task "dns" "create" n).1; world = w }) in
    (p, rw h (rw (e, tempering) refl))
