-- ===== src/Server/Webhook.antt =====
-- Which events of netbox make the server temper a node.
use ironic_temper.Base.{
  ◌≡◌, ◌≢◌, ◌⊎◌, inl, inr, refl, String, Bool, true, false, some, ◌=ₛ◌, eq_iff, arith, Bool-cases,
}
use ironic_temper.Base.Dict.{lookup, insert, lookup-insert}
use ironic_temper.Go.{Reply, Result, ok, err, panics}
use ironic_temper.Node.{Node, Config}
use ironic_temper.Node.New.{new_node}
use ironic_temper.Node.New.Tasks.{new_node_name}
use ironic_temper.Pool.{Pool, Adding, waits_for_lock, waits_for_dispatcher, returned, add_node}
use ironic_temper.Server.{
  WebhookBody, Decoded, Response, is_wanted, sent, added, error_header, no_response,
  webhook_handler,
}
use ironic_temper.Text.{contains}

-- The events that are acted on: a server of the region has just got the status "inventory".
pub record Wanted (region : String) (wb : WebhookBody) : Type 0 where
  pub in_region : contains wb.event_data.site_slug region ≡ true
  pub is_server : wb.event_data.role_slug ≡ "server"
  pub in_inventory : wb.event_data.status_value ≡ "inventory"
  pub was_not : wb.snapshots.pre_change_status ≢ "inventory"
  pub became : wb.snapshots.post_change_status ≡ "inventory"

is_wanted-Wanted :
    (region : String) (wb : WebhookBody) → is_wanted region wb ≡ true → Wanted region wb
unfolding is_wanted
is_wanted-Wanted region wb h = record {
  in_region = ground (arith, h);
  is_server = ground (arith, h, eq_iff wb.event_data.role_slug "server");
  in_inventory = ground (arith, h, eq_iff wb.event_data.status_value "inventory");
  was_not = ground (arith, h, eq_iff wb.snapshots.pre_change_status "inventory");
  became = ground (arith, h, eq_iff wb.snapshots.post_change_status "inventory");
}

-- The entry that the handler makes of a new node.
abbrev pub entered : Node → Node
entered n = record n { status = "progress" }

entry :
    (n : Node) (t : Pool) (key : String)
    → let after = lookup key (insert n.name (entered n) t.nodes) in
      (after ≡ lookup key t.nodes) ⊎ ((key ≡ n.name) × (after ≡ some (entered n)))
entry n t key = elim (Bool-cases (n.name =ₛ key)) [
  | inl e ↦ inr (
    ground (arith, e, eq_iff n.name key),
    ground (arith, e, lookup-insert n.name key (entered n) t.nodes),
  )
  | inr e ↦ inl (ground (arith, e, lookup-insert n.name key (entered n) t.nodes))
]

inserted :
    (how : Adding) (n : Node) (t : Pool) (key : String)
    → let after = lookup key (add_node how n t).nodes in
      (after ≡ lookup key t.nodes) ⊎ ((key ≡ n.name) × (after ≡ some (entered n)))
unfolding add_node
inserted waits_for_lock n t key = inl refl
inserted waits_for_dispatcher n t key = entry n t key
inserted returned n t key = entry n t key

sent-lookup :
    (how : Adding) (n : Node) (r : Response) (t : Pool) (key : String)
    → let after = lookup key (sent how n r t).1.pool.nodes in
      (after ≡ lookup key t.nodes) ⊎ ((key ≡ n.name) × (after ≡ some (entered n)))
sent-lookup waits_for_lock n r t key = inserted waits_for_lock n t key
sent-lookup waits_for_dispatcher n r t key = inserted waits_for_dispatcher n t key
sent-lookup returned n r t key = inserted returned n t key

added-lookup :
    (how : Adding) (made : Result (Unit {0}) × Node) (r : Response) (t : Pool) (key : String)
    → let after = lookup key (added how made r t).1.pool.nodes in
      (after ≡ lookup key t.nodes) ⊎ ((key ≡ made.1.name) × (after ≡ some (entered made.1)))
added-lookup how (panics p, n) r t key = inl refl
added-lookup how (ok u, n) r t key = sent-lookup how n r t key
added-lookup how (err e, n) r t key = sent-lookup how n r t key

-- A request to the webhook leaves the entry of a key of the pool as it was, or the event says that a
-- server of the region has just got the status "inventory", the key is the name of that server, and
-- the entry is the node that `New` makes of it, with the status "progress".
pub webhook_writes :
    (tls : Reply (Unit {0})) (cfg : Config) (how : Adding) (d : Decoded) (t : Pool) (key : String)
    → let after = lookup key (webhook_handler tls cfg how d t).1.pool.nodes in
      (after ≡ lookup key t.nodes)
      ⊎ (Wanted cfg.region d.body
          × (key ≡ d.body.event_data.name)
          × (after ≡ some (entered (new_node tls d.body.event_data.name cfg).1)))
unfolding webhook_handler
webhook_writes tls cfg how d t key = wanted (is_wanted cfg.region d.body) refl
  where
    name : String
    name = d.body.event_data.name

    made : Result (Unit {0}) × Node
    made = new_node tls name cfg

    wanted :
        (b : Bool)
        → is_wanted cfg.region d.body ≡ b
        → let after = lookup key (webhook_handler tls cfg how d t).1.pool.nodes in
          (after ≡ lookup key t.nodes)
          ⊎ (Wanted cfg.region d.body × (key ≡ name) × (after ≡ some (entered made.1)))
    wanted false e = inl (ground (arith, e))
    wanted true e = elim (added-lookup how made (error_header d.error no_response) t key) [
      | inl same ↦ inl (ground (arith, e, same))
      | inr new ↦ inr (
        is_wanted-Wanted cfg.region d.body e,
        ground (arith, new.0, new_node_name tls name cfg),
        ground (arith, e, new.1),
      )
    ]
