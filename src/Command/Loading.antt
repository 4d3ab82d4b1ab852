-- ===== src/Command/Loading.antt =====
-- `loadNodes` of cmd/util.go: the nodes of the command line, or those that a query finds.
use ironic_temper.Base.{String, Bool, true, false, Option, some, List, [], ◌∷◌}
use ironic_temper.Go.{message, Reply, Exec, Call, ◌>>=◌, ◌>>◌, pure, fail, of_reply}
use ironic_temper.Node.{Config}
use ironic_temper.Clients.Netbox.{DeviceParams, load_nodes}
use ironic_temper.Command.{Flags}
use ironic_temper.Text.{is_empty}

abbrev some_nodes : {W : Type 0} → List String → Exec W (List String)
some_nodes [] = fail (message "no nodes provided")
some_nodes (n ∷ ns) = pure (n ∷ ns)

-- By the result of `NewNetbox`, the list of devices and the nodes of the command line.
unfoldable pub load_command_nodes :
    {W : Type 0}
    → Reply (Unit {0})
    → (DeviceParams → Call W (List (Option String)))
    → Flags
    → Config
    → List String
    → Exec W (List String)
load_command_nodes {W = W} tls devices_list f cfg nodes = do
  of_reply tls
  found ← queried (is_empty f.node_query)
  some_nodes found
  where
    queried : Bool → Exec W (List String)
    queried true = pure nodes
    queried false =
        load_nodes devices_list (some f.node_query) (some f.node_status) (some cfg.region)
