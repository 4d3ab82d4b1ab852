-- ===== src/Scheduler.antt =====
-- pkg/scheduler/scheduler.go: the goroutines that temper one node each, and the map of the nodes in
-- progress, which they read and write under one lock. A step is what one goroutine does while it
-- holds the lock; the steps of different goroutines come in any order.
pub mod Exclusion
pub mod Crash
pub mod Loading
use ironic_temper.Base.{
  ℕ, zero, suc, ◌+◌, ◌<◌, String, Bool, true, false, Option, none, some, List, [], ◌∷◌, ◌=ₛ◌,
  if◌then◌else◌,
}
use ironic_temper.Base.Dict.{Dict, lookup, insert, erase}
use ironic_temper.Go.{Error, Result, ok, err, panics, Reply}
use ironic_temper.Node.{Node, Config, St}
use ironic_temper.Node.New.{new_node}
use ironic_temper.Node.Tasks.{add_task}
use ironic_temper.Node.Temper.{Methods, temper}

-- The nodes in progress, and the nodes whose goroutines are between their two sections under the
-- lock: each of these is making its node or tempering it.
pub record Scheduler : Type 0 where
  pub nodes_in_progress : Dict (Unit {0})
  pub running : List String

-- The first section of `temper`: it returns where the node is in progress already.
unfoldable pub enter : String → Scheduler → Scheduler
enter n s = elim (lookup n s.nodes_in_progress) [
  | some u ↦ s
  | none ↦ record { nodes_in_progress = insert n tt s.nodes_in_progress; running = n ∷ s.running }
]

-- One goroutine of the node ends.
unfoldable pub without : String → List String → List String
without n [] = []
without n (m ∷ ms) = let rest = without n ms in if m =ₛ n then ms else m ∷ rest

-- The last section: the node is no longer in progress.
unfoldable pub leave : String → Scheduler → Scheduler
leave n s = record {
  nodes_in_progress = erase n s.nodes_in_progress;
  running = without n s.running;
}

-- The return where `node.New` fails, which leaves the map as it is.
unfoldable pub abandon : String → Scheduler → Scheduler
abandon n s = record s { running = without n s.running }

-- The number of goroutines that are at work on a node.
unfoldable pub at_work : String → List String → ℕ
at_work n [] = 0
at_work n (m ∷ ms) = let rest = at_work n ms in if m =ₛ n then suc rest else rest

-- What one goroutine does at a time.
pub data Step : Scheduler → Scheduler → Type 0 where
  enters : (n : String) (s : Scheduler) → Step s (enter n s)
  leaves : (n : String) (s : Scheduler) → 0 < at_work n s.running → Step s (leave n s)
  abandons : (n : String) (s : Scheduler) → 0 < at_work n s.running → Step s (abandon n s)

-- Any number of steps, one after another.
pub data Steps : Scheduler → Scheduler → Type 0 where
  stays : (s : Scheduler) → Steps s s
  goes : (s t u : Scheduler) → Step s t → Steps t u → Steps s u

-- `New`
abbrev pub new_scheduler : Scheduler
new_scheduler = record { nodes_in_progress = []; running = [] }

abbrev tempering : {W : Type 0} → Methods W → Result (Unit {0}) × Node → W → Result (Unit {0})
tempering m (err e, n) w = ok tt
tempering m (panics p, n) w = panics p
tempering m (ok u, n) w =
    elim ((temper m true 0 (record { node = (add_task "dns" "create" n).1; world = w })).0) [
      | ok left ↦ ok tt
      | err e ↦ err e
      | panics p ↦ panics p
    ]

-- What a goroutine does between its sections, on a wait group that counts nothing. An error of `New`
-- is logged.
unfoldable pub temper_node :
    {W : Type 0} → Methods W → Reply (Unit {0}) → String → Config → W → Result (Unit {0})
temper_node m tls name cfg w = tempering m (new_node tls name cfg) w
