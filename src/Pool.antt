-- ===== src/Pool.antt =====
-- pkg/temper: the nodes that the server has been given, and the workers that temper them.
pub mod Jobs
pub mod Dispatch
pub mod System
use ironic_temper.Base.{
  ℕ, zero, suc, ◌-◌, String, Bool, true, false, Option, none, some, List, [], ◌∷◌, ◌=ₛ◌,
  if◌then◌else◌,
}
use ironic_temper.Base.Dict.{Dict, lookup, insert}
use ironic_temper.Go.{Error, Reply, reply, refused, Result, ok, err, panics}
use ironic_temper.Node.{Node, Task, St}
use ironic_temper.Node.Remote.{Device}
use ironic_temper.Node.Tasks.{merge_tasks}
use ironic_temper.Node.Temper.{Methods, set_status_to, temper}

-- `Temper.nodes`, whose entries are the nodes that the workers write to.
pub record Pool : Type 0 where
  pub nodes : Dict Node

-- How far a call of `AddNode` comes: it waits for the lock, it waits with the lock for the dispatcher
-- to take the node, or it returns. Pool.System has the steps that decide it.
pub data Adding : Type 0 where
  waits_for_lock waits_for_dispatcher returned : Adding

-- `AddNode` up to the start of the clean-up: the node is entered, and `Dispatch` sets its status
-- before it sends the node.
unfoldable pub add_node : Adding → Node → Pool → Pool
add_node waits_for_lock n t = t
add_node _ n t = record t { nodes = insert n.name (record n { status = "progress" }) t.nodes }

keep_staged : Dict Node → Dict Node
keep_staged [] = []
keep_staged ((name, n) ∷ rest) =
    let further = keep_staged rest in if n.status =ₛ "staged" then (name, n) ∷ further else further

-- `cleanup`
unfoldable pub cleanup : Pool → Pool
unfolding keep_staged
cleanup t = record t { nodes = keep_staged t.nodes }

-- `UnmarshalConfigContext`: the data is encoded by gob, and the bytes are decoded as JSON.
unfoldable pub unmarshal_config_context :
    (String → Reply String) → (String → Reply (List Task)) → String → Reply (List Task)
unmarshal_config_context encode decode text = elim (encode text) [
  | refused e ↦ refused e
  | reply bytes ↦ decode bytes
]

-- What becomes of a worker: it takes the next job, its goroutine ends, or the program does.
pub data Fate : Type 0 where
  waits returns : Fate
  crashes : String → Fate

abbrev fate_of : Result ℕ → Fate
fate_of (ok zero) = waits
fate_of (ok (suc left)) = returns
fate_of (err e) = returns
fate_of (panics p) = crashes p

module _ {W : Type 0} (m : Methods W) where
  -- The worker's run of a node that has its tasks: `wg` is one. `wg.Wait()` returns at zero.
  abbrev tempered : Result (Unit {0}) × Node → St W → Fate × St W
  tempered (ok u, n) s = let (r, s') = temper m true 1 (record s { node = n }) in (fate_of r, s')
  tempered (err e, n) s = (returns, set_status_to "failed" (record s { node = n }))
  tempered (panics p, n) s = (crashes p, record s { node = n })

  abbrev configured : Reply (List Task) → St W → Fate × St W
  configured (refused e) s = (returns, set_status_to "failed" s)
  configured (reply tasks) s = tempered (merge_tasks tasks s.node) s

  -- One job of a worker. `unmarshal` is `UnmarshalConfigContext`, the encoding and decoding of the
  -- configuration context, with the tasks in it.
  unfoldable pub work : (String → Reply (List Task)) → St W → Fate × St W
  work unmarshal s = elim s.node.device_config [
    | none ↦ (crashes "nil pointer dereference", s)
    | some device ↦ configured (unmarshal device.config_context) s
  ]
