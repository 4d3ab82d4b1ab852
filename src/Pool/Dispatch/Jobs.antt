-- ===== src/Pool/Dispatch/Jobs.antt =====
-- Where the jobs are, step by step.
use ironic_temper.Base.{ℕ, zero, suc, ◌+◌, ◌≡◌, refl, List, [], arith, ◌==◌, if◌then◌else◌}
use ironic_temper.Pool.Dispatch.{
  Job, Phase, offering, selecting, gone, working, Hand, idle, holding, assigned, Dispatcher,
  started, count, submit, receive, choose, hand_over, finish, Move, receives, chooses, hands_over,
  comes_back, returns, Stop, begins, takes, quits, Steps, stays, submits, moves, stops,
}
use ironic_temper.Pool.Dispatch.Workers.{total, total-set_phase, count-without}

-- 1 for a worker that tempers the job.
abbrev pub works_on : Job → Phase → ℕ
works_on j (working k) = if k == j then 1 else 0
works_on j _ = 0

-- 1 for the job between the work channel and a worker.
abbrev pub in_hand : Job → Hand → ℕ
in_hand j idle = 0
in_hand j (holding k) = if k == j then 1 else 0
in_hand j (assigned k i) = if k == j then 1 else 0

-- The workers that temper the job.
abbrev pub running : Job → Dispatcher → ℕ
running j s = total (works_on j) s.workers

-- All places of a job.
abbrev pub places : Job → Dispatcher → ℕ
places j s = count j s.waiting + in_hand j s.hand + running j s + count j s.finished

pub places-submit :
    (j k : Job) (s : Dispatcher)
    → places k (submit j s) ≡ (if j == k then suc (places k s) else places k s)
unfolding submit count
places-submit j k s = ground arith

pub Move-places : (k : Job) (s t : Dispatcher) → Move s t → places k t ≡ places k s
unfolding receive choose hand_over finish count
Move-places k s t (receives j _ h e) = ground (arith, h, count-without j k s.waiting)
Move-places k s t (chooses j i _ h e) =
    ground (arith, h, total-set_phase (works_on k) i offering selecting s.workers e)
Move-places k s t (hands_over j i _ h e) =
    ground (arith, h, total-set_phase (works_on k) i selecting (working j) s.workers e)
Move-places k s t (comes_back j i _ e) =
    ground (arith, total-set_phase (works_on k) i (working j) offering s.workers e)
Move-places k s t (returns j i _ e) =
    ground (arith, total-set_phase (works_on k) i (working j) gone s.workers e)

pub Stop-places : (k : Job) (s t : Dispatcher) → Stop s t → places k t ≡ places k s
Stop-places k s t (begins _ h) = refl
Stop-places k s t (takes i n _ h e) =
    ground (arith, total-set_phase (works_on k) i offering selecting s.workers e)
Stop-places k s t (quits i n _ h e) =
    ground (arith, total-set_phase (works_on k) i selecting gone s.workers e)

Steps-places :
    (k : Job) (s t : Dispatcher) (js : List Job)
    → Steps s js t
    → places k t ≡ count k js + places k s
unfolding count
Steps-places k s t [] (stays _) = omega arith
Steps-places k s t _ (submits j js _ _ p) =
    ground (arith, Steps-places k (submit j s) t js p, places-submit j k s)
Steps-places k s t js (moves _ _ u _ m p) =
    ground (arith, Steps-places k u t js p, Move-places k s u m)
Steps-places k s t js (stops _ _ u _ m p) =
    ground (arith, Steps-places k u t js p, Stop-places k s u m)

pub started-places : (k : Job) (num : ℕ) → places k (started num) ≡ 0
unfolding started total count
started-places k zero = refl
started-places k (suc n) = ground (arith, started-places k n)

-- In whatever order the goroutines take their steps, with `Stop` and with workers that return, each
-- submitted job is in exactly one place for each time that it was submitted: it waits, is in the hand
-- of the dispatcher, is tempered by one worker, or is finished.
pub Steps-count :
    (num : ℕ) (js : List Job) (t : Dispatcher)
    → Steps (started num) js t
    → (k : Job)
    → count k t.waiting + in_hand k t.hand + running k t + count k t.finished ≡ count k js
Steps-count num js t p k = ground (arith, Steps-places k (started num) t js p, started-places k num)
