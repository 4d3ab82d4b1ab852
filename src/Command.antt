-- ===== src/Command.antt =====
-- cmd/temper.go, cmd/all.go and cmd/util.go: the commands that temper nodes, with one goroutine for
-- each node and a wait group that counts them. The methods of the nodes are parameters.
pub mod Loading
pub mod Waiting
pub mod Tasks
use ironic_temper.Base.{
  ◌≡◌, ℕ, zero, suc, String, Bool, true, false, Option, none, some, List, [], ◌∷◌, ◌++◌, get_elem?,
  if◌then◌else◌,
}
use ironic_temper.Go.{Error, message, Reply, reply, refused, Result, ok, err, panics}
use ironic_temper.Node.{Node, Config, St}
use ironic_temper.Node.New.{new_node}
use ironic_temper.Node.Tasks.{add_task}
use ironic_temper.Node.Temper.{Methods, temper}
use ironic_temper.Text.{split}

-- The flags of the commands.
pub record Flags : Type 0 where
  pub node_query : String
  pub node_status : String
  pub netbox_status : Bool
  pub baremetal : Bool
  pub diag : Bool

-- What `AddTask` leaves; its error is logged or dropped.
abbrev pub with_task : String → String → Node → Node
with_task service task n = (add_task service task n).1

-- One argument of the command "run", of the form "service.task".
abbrev pub add_parts : List String → Node → Node
add_parts (service ∷ task ∷ []) n = with_task service task n
add_parts _ n = n

-- The loop over the arguments of the command "run".
unfoldable pub add_arguments : List String → Node → Node
add_arguments [] n = n
add_arguments (t ∷ ts) n = add_arguments ts (add_parts (split b'.' t) n)

abbrev when : Bool → (Node → Node) → Node → Node
when true f n = f n
when false f n = n

-- The tasks of the command "complete".
unfoldable pub add_complete : Flags → Node → Node
add_complete f n =
    let checked = λ (k : Node).
      with_task "diagnostics" "hardwarecheck" (with_task "diagnostics" "cablecheck" k) in
    let bare = λ (k : Node).
      with_task "ironic" "prepare" (
        with_task "ironic" "test"
          (with_task "ironic" "validate" (with_task "ironic" "create" k))) in
    when f.netbox_status (with_task "netbox" "sync")
      (when f.baremetal bare (when f.diag checked (with_task "dns" "create" n)))

-- A command at work: the names that its loop has still to visit, the counter of its wait group, the
-- nodes whose goroutines run, and how many names were refused and how many goroutines have ended.
pub record Command : Type 0 where
  pub remaining : List String
  pub counter : ℕ
  pub running : List Node
  pub refusals : ℕ
  pub ends : ℕ

-- The command behind `loadNodes`.
unfoldable pub begun : List String → Command
begun names = record { remaining = names; counter = 0; running = []; refusals = 0; ends = 0 }

abbrev pub remove_at : {A : Type 0} → ℕ → List A → List A
remove_at i [] = []
remove_at zero (x ∷ xs) = xs
remove_at (suc i) (x ∷ xs) = x ∷ remove_at i xs

-- `wg.Add(1)`, the tasks, and the start of the goroutine.
unfoldable pub launch : (Node → Node) → Node → List String → Command → Command
launch prepare n rest c = record c {
  remaining = rest;
  counter = suc c.counter;
  running = c.running ++ (prepare n ∷ []);
}

-- A name that `node.New` refuses is logged.
unfoldable pub skip : List String → Command → Command
skip rest c = record c { remaining = rest; refusals = suc c.refusals }

-- A goroutine has ended, and has left the counter at `k`.
unfoldable pub end_at : ℕ → ℕ → Command → Command
end_at i k c = record c { counter = k; running = remove_at i c.running; ends = suc c.ends }

module _ {W : Type 0} (m : Methods W) (tls : Reply (Unit {0})) (cfg : Config) (netbox_sts : Bool)
    (prepare : Node → Node) where
  -- A round of the loop, or the end of a goroutine, which has met the world in some state.
  pub data Move : Command → Command → Type 0 where
    launches :
        (name : String) (rest : List String) (n : Node) (c : Command)
        → c.remaining ≡ name ∷ rest
        → new_node tls name cfg ≡ (ok tt, n)
        → Move c (launch prepare n rest c)
    skips :
        (name : String) (rest : List String) (e : Error) (n : Node) (c : Command)
        → c.remaining ≡ name ∷ rest
        → new_node tls name cfg ≡ (err e, n)
        → Move c (skip rest c)
    ends :
        (i k : ℕ) (n : Node) (w : W) (c : Command)
        → get_elem? c.running i ≡ some n
        → (temper m netbox_sts c.counter (record { node = n; world = w })).0 ≡ ok k
        → Move c (end_at i k c)

  -- Any number of moves, one after another, in any order of the goroutines.
  pub data Moves : Command → Command → Type 0 where
    stays : (c : Command) → Moves c c
    goes : (c d e : Command) → Move c d → Moves d e → Moves c e
