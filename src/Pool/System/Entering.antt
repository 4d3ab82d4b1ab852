-- ===== src/Pool/System/Entering.antt =====
-- How many calls of `AddNode` get the lock, once every worker has left its loop.
use ironic_temper.Base.{
  ℕ, ◌+◌, ◌-◌, ◌≡◌, ◌≤◌, ◌<◌, refl, String, Option, some, none, List, [], ◌∷◌, arith, length, ◌∙◌,
}
use ironic_temper.Go.{Reply}
use ironic_temper.Node.{Node, Task}
use ironic_temper.Node.Temper.{Methods}
use ironic_temper.Pool.Dispatch.{
  Job, offering, selecting, working, Hand, idle, Dispatcher, started, count, without, submit,
  receive, choose, hand_over, finish, Move, receives, chooses, hands_over, comes_back, returns,
  Stop, begins, takes, quits,
}
use ironic_temper.Pool.Dispatch.Workers.{total, length-without}
use ironic_temper.Pool.Dispatch.Rest.{alive, le-total, Move-SameEnd, Stop-SameEnd}
use ironic_temper.Pool.System.{
  System, new_system, add, unlock, clean_up, end_job, Turn, unlocks, cleans, passes, stopping, ends,
  Turns, over, adds, turns,
}

-- Nothing waits at the work channel but the job of the call that has the lock.
abbrev InTurn : Option Job → List Job → Type 0
InTurn none js = length js ≡ 0
InTurn (some j) js = (length js ≤ 1) × (count j js ≡ length js)

le_length : (j : Job) (js : List Job) → count j js ≤ length js
unfolding count
le_length j [] = omega arith
le_length j (k ∷ ks) = ground (arith, le_length j ks)

without-InTurn :
    (o : Option Job) (k : Job) (js : List Job)
    → 0 < count k js
    → InTurn o js
    → InTurn o (without k js)
without-InTurn none k js h v = absurd (ground (arith, h, v, le_length k js))
without-InTurn (some j) k js h v =
    ground (arith, length-without k js h, v.0, le_length j (without k js))

Move-InTurn :
    (o : Option Job) (b c : Dispatcher) → Move b c → InTurn o b.waiting → InTurn o c.waiting
unfolding receive choose hand_over finish
Move-InTurn o b c (receives k _ i h) v = without-InTurn o k b.waiting h v
Move-InTurn o b c (chooses j i _ x y) v = v
Move-InTurn o b c (hands_over j i _ x y) v = v
Move-InTurn o b c (comes_back j i _ x) v = v
Move-InTurn o b c (returns j i _ x) v = v

Stop-InTurn :
    (o : Option Job) (b c : Dispatcher) → Stop b c → InTurn o b.waiting → InTurn o c.waiting
Stop-InTurn o b c (begins _ h) v = v
Stop-InTurn o b c (takes i n _ h e) v = v
Stop-InTurn o b c (quits i n _ h e) v = v

at_most_one : (o : Option Job) (js : List Job) → InTurn o js → length js ≤ 1
at_most_one none js v = omega (arith, v)
at_most_one (some j) js v = v.0

-- How many jobs can still be sent where no worker is left: one to the dispatcher, one that waits.
abbrev empty_hand : Hand → ℕ
empty_hand idle = 1
empty_hand _ = 0

abbrev room : Dispatcher → ℕ
room b = empty_hand b.hand + (1 - length b.waiting)

-- No worker is left.
abbrev pub IsLost : Dispatcher → Type 0
IsLost b = total alive b.workers ≡ 0

Move-room :
    (o : Option Job) (b c : Dispatcher) → IsLost b → InTurn o b.waiting → Move b c → room c ≡ room b
unfolding receive
Move-room o b c z v (receives k _ i h) =
    ground (arith, i, length-without k b.waiting h, at_most_one o b.waiting v)
Move-room o b c z v (chooses j i _ x y) =
    absurd (ground (arith, z, le-total i offering b.workers y))
Move-room o b c z v (hands_over j i _ x y) =
    absurd (ground (arith, z, le-total i selecting b.workers y))
Move-room o b c z v (comes_back j i _ y) =
    absurd (ground (arith, z, le-total i (working j) b.workers y))
Move-room o b c z v (returns j i _ y) =
    absurd (ground (arith, z, le-total i (working j) b.workers y))

Stop-room : (b c : Dispatcher) → Stop b c → room c ≡ room b
Stop-room b c (begins _ h) = refl
Stop-room b c (takes i n _ h e) = refl
Stop-room b c (quits i n _ h e) = refl

module _ {W : Type 0} (m : Methods W) (unmarshal : String → Reply (List Task)) where
  add-InTurn :
      (j : Job) (s : System)
      → s.adding ≡ none
      → InTurn s.adding s.board.waiting
      → InTurn (add j s).adding (add j s).board.waiting
  unfolding add submit count
  add-InTurn j s h v =
      let v' : InTurn none s.board.waiting = rw h at v in
      ground (arith, v', le_length j s.board.waiting)

  Turn-InTurn :
      (s t : System)
      → Turn m unmarshal s t
      → InTurn s.adding s.board.waiting
      → InTurn t.adding t.board.waiting
  unfolding unlock clean_up end_job finish
  Turn-InTurn s t (unlocks j _ h z) v =
      let v' : InTurn (some j) s.board.waiting = rw h at v in ground (arith, v', z)
  Turn-InTurn s t (cleans _ h z) v = v
  Turn-InTurn s t (passes b _ h f) v = Move-InTurn s.adding s.board b h v
  Turn-InTurn s t (stopping b _ h) v = Stop-InTurn s.adding s.board b h v
  Turn-InTurn s t (ends j i p w _ e h) v = v

  Turns-InTurn :
      (s t : System) (js : List Job)
      → Turns m unmarshal s js t
      → InTurn s.adding s.board.waiting
      → InTurn t.adding t.board.waiting
  Turns-InTurn s t _ (over _) v = v
  Turns-InTurn s t _ (adds j js _ _ h p) v = Turns-InTurn (add j s) t js p (add-InTurn j s h v)
  Turns-InTurn s t js (turns _ _ u _ h p) v = Turns-InTurn u t js p (Turn-InTurn s u h v)

  Turn-room :
      (s t : System)
      → Turn m unmarshal s t
      → IsLost s.board
      → InTurn s.adding s.board.waiting
      → (room t.board ≡ room s.board) × IsLost t.board
  unfolding unlock clean_up end_job finish
  Turn-room s t (unlocks j _ h z) y v = (refl, y)
  Turn-room s t (cleans _ h z) y v = (refl, y)
  Turn-room s t (passes b _ h f) y v =
      (Move-room s.adding s.board b y v h, (Move-SameEnd s.board b y h).1)
  Turn-room s t (stopping b _ h) y v = (Stop-room s.board b h, (Stop-SameEnd s.board b y h).1)
  Turn-room s t (ends j i p w _ e h) y v =
      absurd (ground (arith, y, le-total i (working j) s.board.workers e))

  Turns-room :
      (s t : System) (js : List Job)
      → Turns m unmarshal s js t
      → IsLost s.board
      → InTurn s.adding s.board.waiting
      → length js + room t.board ≡ room s.board
  unfolding add submit
  Turns-room s t _ (over _) y v = omega arith
  Turns-room s t _ (adds j js _ _ h p) y v =
      let ih = Turns-room (add j s) t js p y (add-InTurn j s h v) in
      let v' : InTurn none s.board.waiting = rw h at v in ground (arith, ih, v')
  Turns-room s t js (turns _ _ u _ h p) y v =
      let (same, lost) = Turn-room s u h y v in
      Turns-room u t js p lost (Turn-InTurn s u h v) ∙ same

  -- Once every worker of a pool has left its loop, at most two more calls of AddNode get the lock,
  -- whatever steps follow.
  pub at_most_two_more :
      (num_workers : ℕ) (given : Job → Node) (before : List Job) (s t : System) (js : List Job)
      → Turns m unmarshal (new_system num_workers given) before s
      → IsLost s.board
      → Turns m unmarshal s js t
      → length js ≤ 2
  unfolding new_system started
  at_most_two_more num_workers given before s t js reached y h =
      let orderly = Turns-InTurn (new_system num_workers given) s before reached refl in
      ground (arith, Turns-room s t js h y orderly)
