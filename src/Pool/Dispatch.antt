-- ===== src/Pool/Dispatch.antt =====
-- pkg/temper/dispatcher.go and the channels of pkg/temper/worker.go: how jobs find their workers. A
-- channel of the program holds nothing, so a send and its receive are one step of two goroutines.
pub mod Workers
pub mod Jobs
pub mod Progress
pub mod Rest
pub mod Stopping
pub mod Contract
use ironic_temper.Base.{
  ℕ, zero, suc, ◌+◌, ◌*◌, ◌≡◌, ◌<◌, Bool, true, false, Option, none, some, List, [], ◌∷◌, length,
  get_elem?, ◌==◌, if◌then◌else◌,
}

-- A job is a pointer to a node; the number tells pointers apart.
abbrev pub Job : Type 0
Job = ℕ

-- Where a worker is: sending its channel to the queue, waiting at its channel and at `Quit`, tempering
-- a node, or out of its loop.
pub data Phase : Type 0 where
  offering selecting gone : Phase
  working : Job → Phase

-- Where `run` is: waiting for a job, waiting at the queue with a job, or sending the job to the
-- channel of a worker that it has taken from the queue.
pub data Hand : Type 0 where
  idle : Hand
  holding : Job → Hand
  assigned : Job → ℕ → Hand

-- Where `Stop` is: not called, waiting at the queue, or sending on `quit`, with the number of rounds
-- that it has to begin.
pub data Stopper : Type 0 where
  not_called : Stopper
  at_queue at_quit : ℕ → Stopper

pub record Dispatcher : Type 0 where
  -- the jobs whose `Dispatch` waits at the work channel
  pub waiting : List Job
  pub hand : Hand
  pub workers : List Phase
  -- the jobs that a worker is done with, however they went
  pub finished : List Job
  pub stopper : Stopper

abbrev all_offering : ℕ → List Phase
all_offering zero = []
all_offering (suc n) = offering ∷ all_offering n

-- `NewDispatcher` and `Start`
unfoldable pub started : ℕ → Dispatcher
started num = record {
  waiting = [];
  hand = idle;
  workers = all_offering num;
  finished = [];
  stopper = not_called;
}

-- One of the waiting jobs is received; the others go on waiting.
unfoldable pub without : Job → List Job → List Job
without j [] = []
without j (k ∷ ks) = let rest = without j ks in if k == j then ks else k ∷ rest

unfoldable pub count : Job → List Job → ℕ
count j [] = 0
count j (k ∷ ks) = let rest = count j ks in if k == j then suc rest else rest

-- Worker `i` goes on to the phase `p`.
unfoldable pub set_phase : ℕ → Phase → List Phase → List Phase
set_phase i p [] = []
set_phase zero p (q ∷ qs) = p ∷ qs
set_phase (suc i) p (q ∷ qs) = q ∷ set_phase i p qs

abbrev pub to_phase : ℕ → Phase → Dispatcher → Dispatcher
to_phase i p s = record s { workers = set_phase i p s.workers }

-- `Dispatch`
unfoldable pub submit : Job → Dispatcher → Dispatcher
submit j s = record s { waiting = j ∷ s.waiting }

-- `job := <-d.WorkChan`
unfoldable pub receive : Job → Dispatcher → Dispatcher
receive j s = record s { waiting = without j s.waiting; hand = holding j }

-- `jobChan := <-d.Queue`, with `w.Queue <- w.JobChan` of worker `i`
unfoldable pub choose : Job → ℕ → Dispatcher → Dispatcher
choose j i s = record (to_phase i selecting s) { hand = assigned j i }

-- `jobChan <- job`, with `job := <-w.JobChan`
unfoldable pub hand_over : Job → ℕ → Dispatcher → Dispatcher
hand_over j i s = record (to_phase i (working j) s) { hand = idle }

-- The worker is done with the job, and goes back to the queue or returns.
unfoldable pub finish : Job → ℕ → Phase → Dispatcher → Dispatcher
finish j i p s = record (to_phase i p s) { finished = j ∷ s.finished }

-- What the dispatcher and the workers do with the jobs that they have. A send to a worker that took
-- the message of `Stop` is one on a closed channel: the program ends in a panic, and there is no step.
pub data Move : Dispatcher → Dispatcher → Type 0 where
  receives :
      (j : Job) (s : Dispatcher) → s.hand ≡ idle → 0 < count j s.waiting → Move s (receive j s)
  chooses :
      (j : Job) (i : ℕ) (s : Dispatcher)
      → s.hand ≡ holding j
      → get_elem? s.workers i ≡ some offering
      → Move s (choose j i s)
  hands_over :
      (j : Job) (i : ℕ) (s : Dispatcher)
      → s.hand ≡ assigned j i
      → get_elem? s.workers i ≡ some selecting
      → Move s (hand_over j i s)
  comes_back :
      (j : Job) (i : ℕ) (s : Dispatcher)
      → get_elem? s.workers i ≡ some (working j)
      → Move s (finish j i offering s)
  returns :
      (j : Job) (i : ℕ) (s : Dispatcher)
      → get_elem? s.workers i ≡ some (working j)
      → Move s (finish j i gone s)

-- The rounds of `Stop`.
pub data Stop : Dispatcher → Dispatcher → Type 0 where
  begins :
      (s : Dispatcher)
      → s.stopper ≡ not_called
      → Stop s (record s { stopper = at_queue (length s.workers) })
  takes :
      (i k : ℕ) (s : Dispatcher)
      → s.stopper ≡ at_queue (suc k)
      → get_elem? s.workers i ≡ some offering
      → Stop s (record (to_phase i selecting s) { stopper = at_quit k })
  quits :
      (i k : ℕ) (s : Dispatcher)
      → s.stopper ≡ at_quit k
      → get_elem? s.workers i ≡ some selecting
      → Stop s (record (to_phase i gone s) { stopper = at_queue k })

-- Any number of steps, with the jobs that were submitted on the way.
pub data Steps : Dispatcher → List Job → Dispatcher → Type 0 where
  stays : (s : Dispatcher) → Steps s [] s
  submits :
      (j : Job) (js : List Job) (s t : Dispatcher) → Steps (submit j s) js t → Steps s (j ∷ js) t
  moves : (js : List Job) (s t u : Dispatcher) → Move s t → Steps t js u → Steps s js u
  stops : (js : List Job) (s t u : Dispatcher) → Stop s t → Steps t js u → Steps s js u
