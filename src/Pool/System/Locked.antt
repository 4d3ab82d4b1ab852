-- ===== src/Pool/System/Locked.antt =====
-- The lock of the node map, once every worker has left its loop.
use mathlib.Core.Option.{some-injective}
use ironic_temper.Base.{none, sym, ◌≡◌, ◌<◌, refl, String, some, List, [], arith, ◌∙◌}
use ironic_temper.Go.{Reply}
use ironic_temper.Node.{Task}
use ironic_temper.Node.Temper.{Methods}
use ironic_temper.Pool.Dispatch.{
  Job, offering, selecting, working, holding, Dispatcher, count, Move, receives, chooses,
  hands_over, comes_back, returns, Stop, begins, takes, quits,
}
use ironic_temper.Pool.Dispatch.Workers.{total}
use ironic_temper.Pool.Dispatch.Rest.{alive, le-total}
use ironic_temper.Pool.System.{
  get_nodes, System, Turn, unlocks, cleans, passes, stopping, ends, Turns, over, adds, turns,
}

-- A call of AddNode has the lock and waits for the dispatcher, which has another job in its hand, and
-- no worker is left to take it.
abbrev pub IsStuck : Job → Job → System → Type 0
IsStuck j h s =
    (s.adding ≡ some j)
    × (0 < count j s.board.waiting)
    × (s.board.hand ≡ holding h)
    × (total alive s.board.workers ≡ 0)

no_Move :
    (h : Job) (b c : Dispatcher) → b.hand ≡ holding h → total alive b.workers ≡ 0 → Move b c → ⊥
no_Move h b c e z (receives j _ i x) = absurd (ground (arith, e, i))
no_Move h b c e z (chooses j i _ x y) = absurd (ground (arith, z, le-total i offering b.workers y))
no_Move h b c e z (hands_over j i _ x y) = absurd (ground (arith, e, x))
no_Move h b c e z (comes_back j i _ y) =
    absurd (ground (arith, z, le-total i (working j) b.workers y))
no_Move h b c e z (returns j i _ y) = absurd (ground (arith, z, le-total i (working j) b.workers y))

Stop-IsStuck :
    (j h : Job) (s : System) (b : Dispatcher)
    → IsStuck j h s
    → Stop s.board b
    → IsStuck j h (record s { board = b })
Stop-IsStuck j h s b (a, w, e, z) (begins _ x) = (a, w, e, z)
Stop-IsStuck j h s b (a, w, e, z) (takes i k _ x y) =
    absurd (ground (arith, z, le-total i offering s.board.workers y))
Stop-IsStuck j h s b (a, w, e, z) (quits i k _ x y) =
    absurd (ground (arith, z, le-total i selecting s.board.workers y))

same_adding : (j k : Job) (s : System) → s.adding ≡ some j → s.adding ≡ some k → j ≡ k
same_adding j k s a x = some-injective j k (sym a ∙ x)

module _ {W : Type 0} (m : Methods W) (unmarshal : String → Reply (List Task)) where
  Turn-IsStuck : (j h : Job) (s t : System) → IsStuck j h s → Turn m unmarshal s t → IsStuck j h t
  Turn-IsStuck j h s t (a, w, e, z) (unlocks k _ x y) =
      absurd (ground (arith, w, y, same_adding j k s a x))
  Turn-IsStuck j h s t (a, w, e, z) (cleans _ x y) = absurd (ground (arith, a, x))
  Turn-IsStuck j h s t (a, w, e, z) (passes b _ x y) = absurd (no_Move h s.board b e z x)
  Turn-IsStuck j h s t v (stopping b _ x) = Stop-IsStuck j h s b v x
  Turn-IsStuck j h s t (a, w, e, z) (ends k i p u _ x y) =
      absurd (ground (arith, z, le-total i (working k) s.board.workers x))

  -- Once the last worker has left its loop, the dispatcher has a job for which it looks for a worker,
  -- and a call of AddNode waits to send the next one, that call never gives the lock back: whatever
  -- steps follow, it has the lock, no other call of AddNode enters, and GetNodes has no answer.
  pub locked_for_ever :
      (j h : Job) (s t : System) (js : List Job)
      → IsStuck j h s
      → Turns m unmarshal s js t
      → (t.adding ≡ some j) × (js ≡ []) × (get_nodes t ≡ none)
  unfolding get_nodes
  locked_for_ever j h s t _ v (over _) = (v.0, refl, ground (arith, v.0))
  locked_for_ever j h s t _ v (adds k js _ _ x p) = absurd (ground (arith, v.0, x))
  locked_for_ever j h s t js v (turns _ _ u _ x p) =
      locked_for_ever j h u t js (Turn-IsStuck j h s u v x) p
