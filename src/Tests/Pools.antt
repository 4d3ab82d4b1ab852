-- ===== src/Tests/Pools.antt =====
-- Runs of the scheduler, of the pool, and of new nodes.
use ironic_temper.Base.{
  ◌≡◌, ◌≤◌, refl, String, true, none, some, List, [], ◌∷◌, ◌=ₛ◌, if◌then◌else◌,
}
use ironic_temper.Base.Dict.{lookup, insert}
use ironic_temper.Go.{message, Reply, reply, refused, panics}
use ironic_temper.Node.{Node, Task, St}
use ironic_temper.Node.Remote.{Device}
use ironic_temper.Node.New.{new_node}
use ironic_temper.Node.Tasks.{init_task_execs}
use ironic_temper.Scheduler.{
  Scheduler, enter, abandon, at_work, enters, stays, goes, new_scheduler, temper_node,
}
use ironic_temper.Scheduler.Exclusion.{never_two, IsStuck, abandoned_forever}
use ironic_temper.Scheduler.Crash.{temper_node_panics}
use ironic_temper.Pool.{Pool}
use ironic_temper.Pool.Dispatch.{count}
use ironic_temper.Pool.System.{System, new_system, add, over, adds}
use ironic_temper.Pool.System.Fresh.{new_node_unfinished}
use ironic_temper.Tests.Data.{config, tempered, two_steps, methods}

-- Two ticks find the same node.
abbrev once : Scheduler
once = enter "node001" new_scheduler

abbrev twice : Scheduler
twice = enter "node001" once

never_two_example : at_work "node001" twice.running ≤ 1
never_two_example =
    never_two twice
      (goes new_scheduler once twice (enters "node001" new_scheduler)
        (goes once twice twice (enters "node001" once) (stays twice)))
      "node001"

abbrev given_up : Scheduler
given_up = abandon "node001" once

-- The next tick finds it again.
abbrev again : Scheduler
again = enter "node001" given_up

abandoned_forever_example : IsStuck "node001" again
unfolding enter at_work lookup insert
abandoned_forever_example =
    abandoned_forever "node001" once again refl refl
      (goes given_up again again (enters "node001" given_up) (stays again))

-- The node that `New` makes.
abbrev made : Node
made = (new_node (reply tt) "node001" config).1

temper_node_panics_example :
    (p : String) × (temper_node methods (reply tt) "node001" config "" ≡ panics p)
unfolding new_node init_task_execs
temper_node_panics_example = temper_node_panics methods (reply tt) "node001" config "" made refl

abbrev unmarshal : String → Reply (List Task)
unmarshal text = if text =ₛ "{}" then reply [] else refused (message "unexpected end of JSON input")

abbrev loaded : Device
loaded = record {
  id = 7;
  device_type_id = 1;
  device_role_id = 2;
  site_id = 3;
  has_primary_ip = true;
  primary_ip4 = none;
  config_context = "{}";
}

abbrev with_context : String → St String
with_context text = record {
  node = record (tempered (two_steps ∷ [])) {
    device_config = some (record loaded { config_context = text });
  };
  world = "";
}

-- A pool of one staged node.
abbrev pool : Pool
pool = record {
  nodes = ("node000", record (tempered []) { name = "node000"; status = "staged" }) ∷ [];
}

-- The new node is given to a pool of two workers.
abbrev given_pool : System
given_pool = new_system 2 (λ k. made)

new_node_unfinished_example : count 5 (add 5 given_pool).board.finished ≡ 0
unfolding new_node init_task_execs new_system add
new_node_unfinished_example =
    new_node_unfinished methods unmarshal (reply tt) "node001" config 2 (λ k. made) (5 ∷ [])
      (add 5 given_pool) 5 refl
      (adds 5 [] given_pool (add 5 given_pool) refl (over (add 5 given_pool)))
