-- ===== src/Pool/Dispatch/Rest.antt =====
-- Where the pool comes to rest: with a worker left, and with none.
use ironic_temper.Base.{
  ℕ, zero, suc, ◌≡◌, ◌≢◌, ◌≤◌, refl, ◌∙◌, true, Option, none, some, List, [], ◌∷◌, arith, get_elem?,
  ◌==◌,
}
use ironic_temper.Pool.Dispatch.{
  Job, Phase, offering, selecting, gone, working, Hand, idle, holding, assigned, not_called,
  Dispatcher, started, count, submit, receive, Move, receives, chooses, hands_over, comes_back,
  returns, Stop, begins, takes, quits, Steps, stays, submits, moves, stops,
}
use ironic_temper.Pool.Dispatch.Workers.{total}
use ironic_temper.Pool.Dispatch.Jobs.{works_on, Steps-count}
use ironic_temper.Pool.Dispatch.Progress.{selects, IsReady, Steps-ReadyIfCalm, started-ReadyIfCalm}

-- A worker that has not left its loop.
abbrev pub HasWorker : Dispatcher → Type 0
HasWorker s = (i : ℕ) × (p : Phase) × (get_elem? s.workers i ≡ some p) × (p ≢ gone)

-- Neither the dispatcher nor a worker can go on.
abbrev pub IsAtRest : Dispatcher → Type 0
IsAtRest s = (t : Dispatcher) → ¬ Move s t

selects-selecting : (o : Option Phase) → selects o ≡ true → o ≡ some selecting
selects-selecting none h = cc
selects-selecting (some selecting) h = refl
selects-selecting (some offering) h = cc
selects-selecting (some gone) h = cc
selects-selecting (some (working j)) h = cc

eq_self : (i : ℕ) → (i == i) ≡ true
eq_self i = ground arith

-- At rest, with a worker left, the dispatcher has nothing in its hand.
rest-idle : (s : Dispatcher) → IsReady s → HasWorker s → IsAtRest s → s.hand ≡ idle
rest-idle s v (i, p, e, alive) r = hand_of s.hand refl p e alive
  where
    hand_of :
        (h : Hand) → s.hand ≡ h → (p : Phase) → get_elem? s.workers i ≡ some p → p ≢ gone → h ≡ idle
    hand_of idle h p e a = refl
    hand_of (assigned j k) h p e a = absurd (
        r _ (
          hands_over j k s h
            (selects-selecting (get_elem? s.workers k) (ground (arith, v k, h, eq_self k)))))
    hand_of (holding j) h offering e a = absurd (r _ (chooses j i s h e))
    hand_of (holding j) h selecting e a = absurd (ground (arith, v i, h, e))
    hand_of (holding j) h gone e a = absurd (a refl)
    hand_of (holding j) h (working k) e a = absurd (r _ (comes_back k i s e))

rest-waiting : (s : Dispatcher) → s.hand ≡ idle → IsAtRest s → s.waiting ≡ []
unfolding count
rest-waiting s h r = waiting_of s.waiting refl
  where
    waiting_of : (js : List Job) → s.waiting ≡ js → js ≡ []
    waiting_of [] e = refl
    waiting_of (j ∷ js) e = absurd (r _ (receives j s h (ground (arith, e))))

-- A list of workers none of whom tempers a node.
no_work :
    (k : Job) (ws : List Phase)
    → ((i : ℕ) (j : Job) → get_elem? ws i ≢ some (working j))
    → total (works_on k) ws ≡ 0
unfolding total
no_work k [] h = refl
no_work k (offering ∷ ws) h = omega (arith, no_work k ws (λ i j. h (suc i) j))
no_work k (selecting ∷ ws) h = omega (arith, no_work k ws (λ i j. h (suc i) j))
no_work k (gone ∷ ws) h = omega (arith, no_work k ws (λ i j. h (suc i) j))
no_work k (working j ∷ ws) h = absurd (h zero j refl)

-- Unless `Stop` has been called: where the goroutines of the pool are at rest and a worker is left,
-- every job has been finished as many times as it was submitted.
pub rest-finished :
    (num : ℕ) (js : List Job) (t : Dispatcher)
    → Steps (started num) js t
    → t.stopper ≡ not_called
    → HasWorker t
    → IsAtRest t
    → (k : Job) → count k t.finished ≡ count k js
unfolding count
rest-finished num js t p calm w r k =
    let hand =
      rest-idle t (Steps-ReadyIfCalm (started num) t js p (started-ReadyIfCalm num) calm) w r in
    let waiting = rest-waiting t hand r in
    let idle_workers = no_work k t.workers (λ i j e. r _ (comes_back j i t e)) in
    ground (arith, Steps-count num js t p k, hand, waiting, idle_workers)

-- 1 for a worker that has not left its loop.
abbrev pub alive : Phase → ℕ
alive gone = 0
alive _ = 1

pub le-total :
    (i : ℕ) (p : Phase) (ws : List Phase) → get_elem? ws i ≡ some p → alive p ≤ total alive ws
unfolding total
le-total i p [] h = absurd (ground arith)
le-total zero p (w ∷ ws) h = ground arith
le-total (suc i) p (w ∷ ws) h = ground (arith, le-total i p ws h)

-- With no worker left, a step starts no job and ends none.
abbrev pub SameEnd : Dispatcher → Dispatcher → Type 0
SameEnd s t = (t.finished ≡ s.finished) × (total alive t.workers ≡ 0)

pub Move-SameEnd : (s t : Dispatcher) → total alive s.workers ≡ 0 → Move s t → SameEnd s t
unfolding receive
Move-SameEnd s t z (receives j _ h e) = (refl, z)
Move-SameEnd s t z (chooses j i _ h e) = absurd (ground (arith, le-total i offering s.workers e))
Move-SameEnd s t z (hands_over j i _ h e) =
    absurd (ground (arith, le-total i selecting s.workers e))
Move-SameEnd s t z (comes_back j i _ e) =
    absurd (ground (arith, le-total i (working j) s.workers e))
Move-SameEnd s t z (returns j i _ e) = absurd (ground (arith, le-total i (working j) s.workers e))

pub Stop-SameEnd : (s t : Dispatcher) → total alive s.workers ≡ 0 → Stop s t → SameEnd s t
Stop-SameEnd s t z (begins _ h) = (refl, z)
Stop-SameEnd s t z (takes i k _ h e) = absurd (ground (arith, le-total i offering s.workers e))
Stop-SameEnd s t z (quits i k _ h e) = absurd (ground (arith, le-total i selecting s.workers e))

-- When every worker has left its loop, nothing that is submitted afterwards is ever finished.
pub Steps-finished :
    (s t : Dispatcher) (js : List Job)
    → total alive s.workers ≡ 0
    → Steps s js t
    → t.finished ≡ s.finished
unfolding submit
Steps-finished s t _ z (stays _) = refl
Steps-finished s t _ z (submits j js _ _ p) = Steps-finished (submit j s) t js z p
Steps-finished s t js z (moves _ _ u _ m p) =
    let (e, z') = Move-SameEnd s u z m in Steps-finished u t js z' p ∙ e
Steps-finished s t js z (stops _ _ u _ m p) =
    let (e, z') = Stop-SameEnd s u z m in Steps-finished u t js z' p ∙ e
