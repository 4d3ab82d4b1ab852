-- ===== src/Pool/System.antt =====
-- pkg/temper/temper.go as a whole: the map of pointers to nodes behind its lock, the nodes that the
-- pointers lead to, and the goroutines of pkg/temper/dispatcher.go and worker.go that write to them.
pub mod Story
pub mod Given
pub mod Locked
pub mod Entering
pub mod Listed
pub mod Wasted
pub mod Fresh
use ironic_temper.Base.{
  ℕ, suc, ◌-◌, ◌≡◌, ◌<◌, String, Option, none, some, List, [], ◌∷◌, ◌==◌, ◌=ₛ◌, if◌then◌else◌,
  get_elem?,
}
use ironic_temper.Base.Dict.{Dict, insert}
use ironic_temper.Go.{Reply}
use ironic_temper.Node.{Node, Task, St}
use ironic_temper.Node.Temper.{Methods}
use ironic_temper.Pool.{Fate, waits, returns, crashes, work}
use ironic_temper.Pool.Dispatch.{
  Job, Phase, offering, gone, working, Dispatcher, started, count, submit, finish, Move, Stop,
}

pub record System : Type 0 where
  pub board : Dispatcher
  -- the nodes that the pointers lead to
  pub node_of : Job → Node
  -- `Temper.nodes`
  pub nodes : Dict Job
  -- the call of `AddNode` that has the lock
  pub adding : Option Job
  -- the clean-ups that were started and still have to come
  pub cleanups : ℕ

-- `New`
unfoldable pub new_system : ℕ → (Job → Node) → System
new_system num_workers given = record {
  board = started num_workers;
  node_of = given;
  nodes = [];
  adding = none;
  cleanups = 0;
}

-- The node that a pointer leads to is written.
unfoldable pub write_node : Job → Node → (Job → Node) → Job → Node
write_node j n given k = if j == k then n else given k

-- What `Dispatch` writes before it sends.
abbrev pub begun : Node → Node
begun n = record n { status = "progress" }

-- `AddNode` with `Dispatch`, up to the send that waits at the work channel.
unfoldable pub add : Job → System → System
add j s = record s {
  board = submit j s.board;
  node_of = write_node j (begun (s.node_of j)) s.node_of;
  nodes = insert (s.node_of j).name j s.nodes;
  adding = some j;
}

-- The rest of `AddNode`: the lock is given back, and a clean-up is started.
unfoldable pub unlock : System → System
unlock s = record s { adding = none; cleanups = suc s.cleanups }

keep_staged_jobs : (Job → Node) → Dict Job → Dict Job
keep_staged_jobs given [] = []
keep_staged_jobs given ((name, j) ∷ rest) =
    let further = keep_staged_jobs given rest in
    if (given j).status =ₛ "staged" then (name, j) ∷ further else further

-- `cleanup`
unfoldable pub clean_up : System → System
unfolding keep_staged_jobs
clean_up s = record s { nodes = keep_staged_jobs s.node_of s.nodes; cleanups = s.cleanups - 1 }

-- The nodes of the entries.
unfoldable pub nodes_at : (Job → Node) → Dict Job → Dict Node
nodes_at given [] = []
nodes_at given ((name, j) ∷ rest) = (name, given j) ∷ nodes_at given rest

-- `GetNodes`, which has no answer while `AddNode` has the lock.
unfoldable pub get_nodes : System → Option (Dict Node)
unfolding nodes_at
get_nodes s = elim s.adding [ some j ↦ none | none ↦ some (nodes_at s.node_of s.nodes) ]

-- Where a worker goes after a job. A panic ends the program.
unfoldable pub phase_after : Fate → Option Phase
phase_after waits = some offering
phase_after returns = some gone
phase_after (crashes p) = none

module _ {W : Type 0} (m : Methods W) (unmarshal : String → Reply (List Task)) where
  -- The job of a worker on the node of its pointer, in a world that others have left.
  abbrev pub worked : Job → W → System → Fate × St W
  worked j w s = work m unmarshal (record { node = s.node_of j; world = w })

  -- The worker is done with its job.
  unfoldable pub end_job : Job → ℕ → Phase → W → System → System
  end_job j i p w s = record s {
    board = finish j i p s.board;
    node_of = write_node j (worked j w s).1.node s.node_of;
  }

  -- The steps of the goroutines. The moves by which no job ends are those of the dispatcher.
  pub data Turn : System → System → Type 0 where
    unlocks :
        (j : Job) (s : System) → s.adding ≡ some j → count j s.board.waiting ≡ 0 → Turn s (unlock s)
    cleans : (s : System) → s.adding ≡ none → 0 < s.cleanups → Turn s (clean_up s)
    passes :
        (b : Dispatcher) (s : System)
        → Move s.board b
        → b.finished ≡ s.board.finished
        → Turn s (record s { board = b })
    stopping : (b : Dispatcher) (s : System) → Stop s.board b → Turn s (record s { board = b })
    ends :
        (j : Job) (i : ℕ) (p : Phase) (w : W) (s : System)
        → get_elem? s.board.workers i ≡ some (working j)
        → phase_after (worked j w s).0 ≡ some p
        → Turn s (end_job j i p w s)

  -- Any number of steps, with the nodes that `AddNode` was given on the way.
  pub data Turns : System → List Job → System → Type 0 where
    over : (s : System) → Turns s [] s
    adds :
        (j : Job) (js : List Job) (s t : System)
        → s.adding ≡ none
        → Turns (add j s) js t
        → Turns s (j ∷ js) t
    turns : (js : List Job) (s t u : System) → Turn s t → Turns t js u → Turns s js u
