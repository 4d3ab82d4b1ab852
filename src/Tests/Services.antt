-- ===== src/Tests/Services.antt =====
-- A request to the webhook, and the commands, on one node.
use ironic_temper.Base.{◌≡◌, ◌⊎◌, ◌+◌, refl, String, true, none, some, List, [], ◌∷◌, length, All}
use ironic_temper.Base.Dict.{lookup}
use ironic_temper.Go.{reply, ok}
use ironic_temper.Node.{Node, Config, St}
use ironic_temper.Node.New.{new_node}
use ironic_temper.Node.Tasks.Registry.{AllRegistered}
use ironic_temper.Pool.{returned, Pool}
use ironic_temper.Server.{WebhookBody, Decoded, webhook_handler}
use ironic_temper.Server.Webhook.{Wanted, entered, webhook_writes}
use ironic_temper.Command.{
  Command, add_arguments, begun, launch, end_at, Move, launches, ends, Moves, stays, goes,
}
use ironic_temper.Command.Waiting.{waited_for_all}
use ironic_temper.Command.Tasks.{run_command-AllRegistered}
use ironic_temper.Tests.Data.{config, methods}

abbrev made : Node
made = (new_node (reply tt) "node001-bb123" config).1

made_ok : new_node (reply tt) "node001-bb123" config ≡ (ok tt, made)
unfolding new_node ironic_temper.Node.Tasks.init_task_execs
made_ok = refl

abbrev event : WebhookBody
event = record {
  event = "updated";
  event_data = record {
    name = "node001-bb123";
    role_slug = "server";
    status_value = "inventory";
    site_slug = "qa-de-1a";
  };
  snapshots = record { pre_change_status = "planned"; post_change_status = "inventory" };
}

abbrev decoded : Decoded
decoded = record { body = event; error = none }

abbrev no_nodes : Pool
no_nodes = record { nodes = [] }

webhook_writes_example :
    let after =
      lookup "node001-bb123"
        (webhook_handler (reply tt) config returned decoded no_nodes).1.pool.nodes in
    (after ≡ lookup "node001-bb123" no_nodes.nodes)
    ⊎ (Wanted config.region event
        × ("node001-bb123" ≡ event.event_data.name)
        × (after ≡ some (entered made)))
webhook_writes_example = webhook_writes (reply tt) config returned decoded no_nodes "node001-bb123"

-- The command "run" with one good and one bad argument, on a node that is refused by none.
abbrev arguments : List String
arguments = "ironic.all" ∷ "ironic" ∷ []

abbrev names : List String
names = "node001-bb123" ∷ []

abbrev launched : Command
launched = launch (add_arguments arguments) made [] (begun names)

abbrev over : Command
over = end_at 0 0 launched

launch-Move : Move methods (reply tt) config true (add_arguments arguments) (begun names) launched
unfolding begun
launch-Move = launches "node001-bb123" [] made (begun names) refl made_ok

end-Move : Move methods (reply tt) config true (add_arguments arguments) launched over
unfolding begun launch ironic_temper.Node.Temper.temper ironic_temper.Node.Temper.cleanup_handler
    ironic_temper.Node.Temper.temper_body ironic_temper.Node.Temper.task_loop
    ironic_temper.Node.Temper.run_tasks add_arguments ironic_temper.Text.split
    ironic_temper.Node.Tasks.add_task ironic_temper.Node.Tasks.add_execs lookup new_node
    ironic_temper.Node.Tasks.init_task_execs
end-Move = ends 0 0 (add_arguments arguments made) "w" launched refl refl

run_over : Moves methods (reply tt) config true (add_arguments arguments) (begun names) over
run_over =
    goes (begun names) launched over launch-Move (goes launched over over end-Move (stays over))

waited_for_all_example : (over.running ≡ []) × (over.refusals + over.ends ≡ length names)
unfolding end_at begun launch
waited_for_all_example =
    waited_for_all methods (reply tt) config true (add_arguments arguments) names over run_over refl
      refl

run_command-AllRegistered_example : All AllRegistered launched.running
run_command-AllRegistered_example =
    run_command-AllRegistered methods (reply tt) config true arguments names launched
      (goes (begun names) launched launched launch-Move (stays launched))
