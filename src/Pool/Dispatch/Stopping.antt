-- ===== src/Pool/Dispatch/Stopping.antt =====
-- `Stop` after a worker has been lost.
use ironic_temper.Base.{ℕ, suc, ◌≡◌, ◌≢◌, ◌<◌, List, arith, length}
use ironic_temper.Pool.Dispatch.{
  Job, offering, selecting, gone, working, Stopper, not_called, at_queue, at_quit, Dispatcher,
  submit, receive, choose, hand_over, finish, Move, receives, chooses, hands_over, comes_back,
  returns, Stop, begins, takes, quits, Steps, stays, submits, moves, stops,
}
use ironic_temper.Pool.Dispatch.Workers.{total, total-set_phase, length-set_phase}
use ironic_temper.Pool.Dispatch.Rest.{alive}

-- The workers that `Stop` still has to meet.
abbrev owed : Stopper → ℕ → ℕ
owed not_called n = n
owed (at_queue k) n = k
owed (at_quit k) n = suc k

-- `Stop` has to meet more workers than are left.
abbrev pub IsShort : Dispatcher → Type 0
IsShort s = total alive s.workers < owed s.stopper (length s.workers)

Move-IsShort : (s t : Dispatcher) → Move s t → IsShort s → IsShort t
unfolding receive choose hand_over finish
Move-IsShort s t (receives j _ h e) v = v
Move-IsShort s t (chooses j i _ h e) v = ground (
  arith,
  total-set_phase alive i offering selecting s.workers e,
  length-set_phase i selecting s.workers,
)
Move-IsShort s t (hands_over j i _ h e) v = ground (
  arith,
  total-set_phase alive i selecting (working j) s.workers e,
  length-set_phase i (working j) s.workers,
)
Move-IsShort s t (comes_back j i _ e) v = ground (
  arith,
  total-set_phase alive i (working j) offering s.workers e,
  length-set_phase i offering s.workers,
)
Move-IsShort s t (returns j i _ e) v =
    ground (
      arith,
      total-set_phase alive i (working j) gone s.workers e,
      length-set_phase i gone s.workers,
    )

Stop-IsShort : (s t : Dispatcher) → Stop s t → IsShort s → IsShort t
Stop-IsShort s t (begins _ h) v = ground (arith, h)
Stop-IsShort s t (takes i k _ h e) v =
    ground (arith, h, total-set_phase alive i offering selecting s.workers e)
Stop-IsShort s t (quits i k _ h e) v =
    ground (arith, h, total-set_phase alive i selecting gone s.workers e)

Steps-IsShort : (s t : Dispatcher) (js : List Job) → Steps s js t → IsShort s → IsShort t
unfolding submit
Steps-IsShort s t _ (stays _) v = v
Steps-IsShort s t _ (submits j js _ _ p) v = Steps-IsShort (submit j s) t js p v
Steps-IsShort s t js (moves _ _ u _ m p) v = Steps-IsShort u t js p (Move-IsShort s u m v)
Steps-IsShort s t js (stops _ _ u _ m p) v = Steps-IsShort u t js p (Stop-IsShort s u m v)

-- If a worker has left its loop before `Stop` is called, `Stop` never comes to its end.
pub stop_never_ends :
    (s t : Dispatcher) (js : List Job)
    → s.stopper ≡ not_called
    → total alive s.workers < length s.workers
    → Steps s js t
    → t.stopper ≢ at_queue 0
stop_never_ends s t js calm lost p e =
    let short = Steps-IsShort s t js p (ground (arith, calm)) in ground (arith, short)
