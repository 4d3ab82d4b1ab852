-- ===== src/Node/Netbox/Status/Keeping.antt =====
-- Telling netbox about a node writes neither its status nor its tasks.
use ironic_temper.Base.{String, Bool, true, false, Option, none, some, List, [], ◌∷◌}
use ironic_temper.Base.Dict.{Dict}
use ironic_temper.Go.{Error, Reply, reply, refused}
use ironic_temper.Node.Inspection.{NodeInterface}
use ironic_temper.Node.Remote.{IpAddress, NetboxInterface}
use ironic_temper.Node.Keeps.{Keeps, keeps_rules}
use ironic_temper.Node.Netbox.{NetboxApi}
use ironic_temper.Node.Netbox.Keeping.{netbox-Keeps, update_node_info-Keeps, get_interfaces-Keeps}
use ironic_temper.Node.Netbox.Status.{
  failed_status, report, set_status, set_status_failed, set_status_staged, write_local_context_data,
  or_error, the_only_one, send_interface, update_interface, update_interfaces,
  update_node_interfaces, primary_ip_param, update,
}

or_error-Keeps : {W : Type 0} (e : Option Error) → Keeps {W = W} (or_error e)
or_error-Keeps none = search keeps_rules depth 20
or_error-Keeps (some e) = search keeps_rules depth 20

the_only_one-Keeps :
    {W : Type 0} (address : String) (ips : List IpAddress)
    → Keeps {W = W} (the_only_one address ips)
the_only_one-Keeps address [] = search keeps_rules depth 20
the_only_one-Keeps address (ip ∷ []) = search keeps_rules depth 20
the_only_one-Keeps address (ip ∷ ip' ∷ ips) = search keeps_rules depth 20

module _ {W : Type 0} (api : NetboxApi W) where
  failed_status-Keeps : (r : Reply String) → Keeps (failed_status api r)
  unfolding failed_status
  failed_status-Keeps (reply s) = search keeps_rules depth 20
  failed_status-Keeps (refused e) = search keeps_rules depth 20

  report-Keeps : (texts : List String) → Keeps (report api texts)
  unfolding report set_status_staged set_status_failed write_local_context_data
  report-Keeps [] = search (keeps_rules, update_node_info-Keeps) depth 20
  report-Keeps (e ∷ es) = search (keeps_rules, update_node_info-Keeps, failed_status-Keeps) depth 20

  pub set_status-Keeps : Keeps (set_status api)
  unfolding set_status
  set_status-Keeps = search (keeps_rules, report-Keeps) depth 20

  update_interface-Keeps :
      (own : Option NodeInterface) (i : NetboxInterface) (e : Option Error)
      → Keeps (update_interface api own i e)
  unfolding update_interface send_interface
  update_interface-Keeps none i e = search keeps_rules depth 20
  update_interface-Keeps (some own) i e = search (keeps_rules, netbox-Keeps) depth 20

  update_interfaces-Keeps :
      (known : Dict NodeInterface) (is : List NetboxInterface) (e : Option Error)
      → Keeps (update_interfaces api known is e)
  unfolding update_interfaces
  update_interfaces-Keeps known [] e = search keeps_rules depth 20
  update_interfaces-Keeps known (i ∷ is) e =
      search
        (
          keeps_rules,
          update_interface-Keeps,
          λ (e' : Option Error). update_interfaces-Keeps known is e',
        )
        depth 20

  update_node_interfaces-Keeps : Keeps (update_node_interfaces api)
  unfolding update_node_interfaces
  update_node_interfaces-Keeps =
      search (keeps_rules, get_interfaces-Keeps, update_interfaces-Keeps, or_error-Keeps) depth 20

  primary_ip_param-Keeps : (b : Bool) → Keeps (primary_ip_param api b)
  unfolding primary_ip_param
  primary_ip_param-Keeps true = search keeps_rules depth 20
  primary_ip_param-Keeps false = search (keeps_rules, netbox-Keeps, the_only_one-Keeps) depth 20

  pub update-Keeps : Keeps (update api)
  unfolding update
  update-Keeps =
      search
        (keeps_rules, primary_ip_param-Keeps, update_node_info-Keeps, update_node_interfaces-Keeps)
        depth 20
