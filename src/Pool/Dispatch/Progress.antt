-- ===== src/Pool/Dispatch/Progress.antt =====
-- How many moves the dispatcher and the workers have left, and which workers wait at their channel.
use ironic_temper.Base.{
  ℕ, zero, suc, ◌+◌, ◌*◌, ◌≡◌, ◌≢◌, refl, sym, ◌∙◌, Bool, true, false, Option, some, List, arith,
  length, get_elem?, ◌==◌,
}
use ironic_temper.Pool.Dispatch.{
  Job, Phase, offering, selecting, gone, working, Hand, idle, holding, assigned, not_called,
  Dispatcher, all_offering, started, submit, receive, choose, hand_over, finish, Move, receives,
  chooses, hands_over, comes_back, returns, Stop, begins, takes, quits, Steps, stays, submits,
  moves, stops,
}
use ironic_temper.Pool.Dispatch.Workers.{total, total-set_phase, get_elem-set_phase, length-without}

abbrev pub selects : Option Phase → Bool
selects (some selecting) = true
selects _ = false

abbrev pub assigned_to : ℕ → Hand → Bool
assigned_to k (assigned j i) = i == k
assigned_to k _ = false

-- The workers that wait at their channel are the one that the dispatcher is about to serve.
abbrev pub IsReady : Dispatcher → Type 0
IsReady s = (k : ℕ) → selects (get_elem? s.workers k) ≡ assigned_to k s.hand

Move-IsReady : (s t : Dispatcher) → Move s t → IsReady s → IsReady t
unfolding receive choose hand_over finish
Move-IsReady s t (receives j _ h e) v k = ground (arith, h, v k)
Move-IsReady s t (chooses j i _ h e) v k =
    ground (arith, h, v k, get_elem-set_phase i k offering selecting s.workers e)
Move-IsReady s t (hands_over j i _ h e) v k =
    ground (arith, h, v k, get_elem-set_phase i k selecting (working j) s.workers e)
Move-IsReady s t (comes_back j i _ e) v k =
    ground (arith, v k, v i, get_elem-set_phase i k (working j) offering s.workers e)
Move-IsReady s t (returns j i _ e) v k =
    ground (arith, v k, v i, get_elem-set_phase i k (working j) gone s.workers e)

-- Unless `Stop` has been called.
abbrev pub ReadyIfCalm : Dispatcher → Type 0
ReadyIfCalm s = s.stopper ≡ not_called → IsReady s

Move-stopper : (s t : Dispatcher) → Move s t → t.stopper ≡ s.stopper
unfolding receive choose hand_over finish
Move-stopper s t (receives j _ h e) = refl
Move-stopper s t (chooses j i _ h e) = refl
Move-stopper s t (hands_over j i _ h e) = refl
Move-stopper s t (comes_back j i _ e) = refl
Move-stopper s t (returns j i _ e) = refl

Stop-called : (s t : Dispatcher) → Stop s t → t.stopper ≢ not_called
Stop-called s t (begins _ h) e = cc
Stop-called s t (takes i k _ h e') e = cc
Stop-called s t (quits i k _ h e') e = cc

pub Steps-ReadyIfCalm :
    (s t : Dispatcher) (js : List Job) → Steps s js t → ReadyIfCalm s → ReadyIfCalm t
unfolding submit
Steps-ReadyIfCalm s t _ (stays _) v = v
Steps-ReadyIfCalm s t _ (submits j js _ _ p) v = Steps-ReadyIfCalm (submit j s) t js p v
Steps-ReadyIfCalm s t js (moves _ _ u _ m p) v =
    Steps-ReadyIfCalm u t js p (λ e. Move-IsReady s u m (v (sym (Move-stopper s u m) ∙ e)))
Steps-ReadyIfCalm s t js (stops _ _ u _ m p) v =
    Steps-ReadyIfCalm u t js p (λ e. absurd (Stop-called s u m e))

all_offering-selects : (num k : ℕ) → selects (get_elem? (all_offering num) k) ≡ false
all_offering-selects zero k = refl
all_offering-selects (suc n) zero = refl
all_offering-selects (suc n) (suc k) = all_offering-selects n k

pub started-ReadyIfCalm : (num : ℕ) → ReadyIfCalm (started num)
unfolding started
started-ReadyIfCalm num e k = all_offering-selects num k

abbrev pub load : Phase → ℕ
load (working j) = 1
load _ = 0

abbrev pub load_of_hand : Hand → ℕ
load_of_hand idle = 0
load_of_hand (holding j) = 3
load_of_hand (assigned j i) = 2

-- The moves that are left: four for a waiting job, and fewer for one that is on its way.
abbrev pub moves_left : Dispatcher → ℕ
moves_left s = 4 * length s.waiting + load_of_hand s.hand + total load s.workers

Move-moves_left : (s t : Dispatcher) → Move s t → moves_left t + 1 ≡ moves_left s
unfolding receive choose hand_over finish
Move-moves_left s t (receives j _ h e) = ground (arith, h, length-without j s.waiting e)
Move-moves_left s t (chooses j i _ h e) =
    ground (arith, h, total-set_phase load i offering selecting s.workers e)
Move-moves_left s t (hands_over j i _ h e) =
    ground (arith, h, total-set_phase load i selecting (working j) s.workers e)
Move-moves_left s t (comes_back j i _ e) =
    ground (arith, total-set_phase load i (working j) offering s.workers e)
Move-moves_left s t (returns j i _ e) =
    ground (arith, total-set_phase load i (working j) gone s.workers e)

-- `n` moves, one after another.
pub data Moves : ℕ → Dispatcher → Dispatcher → Type 0 where
  rests : (s : Dispatcher) → Moves zero s s
  goes : (n : ℕ) (s t u : Dispatcher) → Move s t → Moves n t u → Moves (suc n) s u

-- With no more jobs submitted and no call of `Stop`, `n` moves of the dispatcher and the workers leave
-- `n` fewer to be made, of four for each waiting job, three or two for the one in the dispatcher's
-- hand, and one for each that is tempered.
pub Moves-moves_left : (n : ℕ) (s t : Dispatcher) → Moves n s t → n + moves_left t ≡ moves_left s
Moves-moves_left _ s t (rests _) = omega arith
Moves-moves_left _ s t (goes n _ u _ m p) =
    omega (arith, Moves-moves_left n u t p, Move-moves_left s u m)
