-- ===== src/Pool/System/Wasted.antt =====
-- The pool where no configuration context can be read.
use ironic_temper.Base.{
  ℕ, zero, suc, ◌+◌, ◌≡◌, ◌≤◌, refl, ap, String, some, List, arith, length, Option-cases, inl, inr,
}
use ironic_temper.Go.{Error, Reply, reply, refused}
use ironic_temper.Node.{Node, Task}
use ironic_temper.Node.Temper.{Methods}
use ironic_temper.Pool.{unmarshal_config_context, work}
use ironic_temper.Pool.Dispatch.{
  Job, Phase, offering, selecting, gone, working, Dispatcher, started, submit, receive, choose,
  hand_over, finish, Move, receives, chooses, hands_over, comes_back, returns, Stop, begins, takes,
  quits,
}
use ironic_temper.Pool.Dispatch.Workers.{total, total-set_phase}
use ironic_temper.Pool.Dispatch.Rest.{alive}
use ironic_temper.Pool.System.{
  System, new_system, add, unlock, clean_up, phase_after, worked, end_job, Turn, unlocks, cleans,
  passes, stopping, ends, Turns, over, adds, turns,
}

-- No output of the one encoder is an input of the other decoder.
abbrev pub IsForeign : (String → Reply String) → (String → Reply (List Task)) → Type 0
IsForeign encode decode =
    (text bytes : String) → encode text ≡ reply bytes → (e : Error) × (decode bytes ≡ refused e)

pub context_refused :
    (encode : String → Reply String) (decode : String → Reply (List Task))
    → IsForeign encode decode
    → (text : String) → (e : Error) × (unmarshal_config_context encode decode text ≡ refused e)
unfolding unmarshal_config_context
context_refused encode decode f text = by_code (encode text) refl
  where
    by_code :
        (r : Reply String)
        → encode text ≡ r
        → (e : Error) × (unmarshal_config_context encode decode text ≡ refused e)
    by_code (refused e) h = (e, ground (arith, h))
    by_code (reply bytes) h = let (e, d) = f text bytes h in (e, ground (arith, h, d))

-- The workers that are left and the jobs that are finished.
abbrev spent : Dispatcher → ℕ
spent b = total alive b.workers + length b.finished

Move-spent : (b c : Dispatcher) → Move b c → c.finished ≡ b.finished → spent c ≡ spent b
unfolding receive choose hand_over finish
Move-spent b c (receives j _ h e) f = refl
Move-spent b c (chooses j i _ h e) f =
    ground (arith, total-set_phase alive i offering selecting b.workers e)
Move-spent b c (hands_over j i _ h e) f =
    ground (arith, total-set_phase alive i selecting (working j) b.workers e)
Move-spent b c (comes_back j i _ e) f = absurd (ground (arith, ap length f))
Move-spent b c (returns j i _ e) f = absurd (ground (arith, ap length f))

Stop-spent : (b c : Dispatcher) → Stop b c → spent c ≤ spent b
Stop-spent b c (begins _ h) = omega arith
Stop-spent b c (takes i k _ h e) =
    ground (arith, total-set_phase alive i offering selecting b.workers e)
Stop-spent b c (quits i k _ h e) =
    ground (arith, total-set_phase alive i selecting gone b.workers e)

module _ {W : Type 0} (m : Methods W) (encode : String → Reply String)
    (decode : String → Reply (List Task)) (foreign : IsForeign encode decode) where
  abbrev context : String → Reply (List Task)
  context = unmarshal_config_context encode decode

  -- A worker that goes on after a job has left its loop.
  leaves_loop :
      (j : Job) (w : W) (s : System) (p : Phase)
      → phase_after (worked m context j w s).0 ≡ some p
      → p ≡ gone
  unfolding work phase_after
  leaves_loop j w s p h = elim (Option-cases (s.node_of j).device_config) [
    | inl e ↦ absurd (ground (arith, e))
    | inr (d, e) ↦
        let (x, r) = context_refused encode decode foreign d.config_context in ground (arith, e, r)
  ]

  Turn-spent : (s t : System) → Turn m context s t → spent t.board ≤ spent s.board
  unfolding unlock clean_up end_job finish
  Turn-spent s t (unlocks j _ h z) = omega arith
  Turn-spent s t (cleans _ h z) = omega arith
  Turn-spent s t (passes b _ h f) = omega (arith, Move-spent s.board b h f)
  Turn-spent s t (stopping b _ h) = Stop-spent s.board b h
  Turn-spent s t (ends j i p w _ e h) =
      let lost = leaves_loop j w s p h in
      ground (arith, lost, total-set_phase alive i (working j) p s.board.workers e)

  Turns-spent :
      (s t : System) (js : List Job) → Turns m context s js t → spent t.board ≤ spent s.board
  unfolding add submit
  Turns-spent s t _ (over _) = omega arith
  Turns-spent s t _ (adds j js _ _ h p) = Turns-spent (add j s) t js p
  Turns-spent s t js (turns _ _ u _ h p) = omega (arith, Turn-spent s u h, Turns-spent u t js p)

started-spent : (num : ℕ) → spent (started num) ≡ num
unfolding started total
started-spent zero = refl
started-spent (suc n) = ground (arith, started-spent n)

module _ {W : Type 0} (m : Methods W) where
  -- Where no output of gob is JSON, a pool finishes at most one job for each of its workers, however
  -- many it is given.
  pub finished-num_workers :
      (encode : String → Reply String) (decode : String → Reply (List Task))
      → IsForeign encode decode
      → (num_workers : ℕ) (given : Job → Node) (js : List Job) (t : System)
      → Turns m (unmarshal_config_context encode decode) (new_system num_workers given) js t
      → length t.board.finished ≤ num_workers
  unfolding new_system
  finished-num_workers encode decode foreign num_workers given js t h = ground (
    arith,
    Turns-spent m encode decode foreign (new_system num_workers given) t js h,
    started-spent num_workers,
  )
