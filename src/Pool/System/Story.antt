-- ===== src/Pool/System/Story.antt =====
-- The node of a job, turn by turn.
use mathlib.Core.Path.{subst}
use ironic_temper.Base.{
  ℕ, ◌≡◌, ◌≤◌, ◌<◌, refl, ap, ◌∙◌, String, some, List, arith, ◌==◌, inl, inr, get_elem?, Bool-cases,
  sym,
}
use ironic_temper.Go.{Reply}
use ironic_temper.Node.{Node, Task}
use ironic_temper.Node.Temper.{Methods}
use ironic_temper.Pool.{Fate, waits, returns, crashes}
use ironic_temper.Pool.Dispatch.{
  Job, Phase, offering, gone, working, Dispatcher, count, submit, finish, Move, comes_back, Stop,
  begins, takes, quits, Steps, stays, submits, started, moves, stops, not_called,
}
use ironic_temper.Pool.Dispatch.Jobs.{
  places, places-submit, Move-places, Stop-places, started-places, Steps-count, running, works_on,
}
use mathlib.Core.Option.{some-injective}
use ironic_temper.Pool.Dispatch.Workers.{total-set_phase}
use ironic_temper.Pool.Dispatch.Rest.{HasWorker, IsAtRest, rest-finished}
use ironic_temper.Pool.System.{
  System, new_system, write_node, begun, add, unlock, clean_up, phase_after, worked, end_job, Turn,
  unlocks, cleans, passes, stopping, ends, Turns, over, adds, turns,
}

-- The end of a job is a move of the dispatcher.
end_Move :
    (i : ℕ) (j : Job) (f : Fate) (p : Phase) (b : Dispatcher)
    → get_elem? b.workers i ≡ some (working j)
    → phase_after f ≡ some p
    → Move b (finish j i p b)
unfolding phase_after
end_Move i j waits p b e h =
    subst (λ q. Move b (finish j i q b)) (some-injective offering p h) (comes_back j i b e)
end_Move i j returns p b e h =
    subst (λ q. Move b (finish j i q b)) (some-injective gone p h)
      (ironic_temper.Pool.Dispatch.returns j i b e)
end_Move i j (crashes x) p b e h = absurd (ground (arith, h))

finished-places : (k : Job) (b : Dispatcher) → count k b.finished ≤ places k b
finished-places k b = omega arith

Stop-finished : (k : Job) (b c : Dispatcher) → Stop b c → count k c.finished ≡ count k b.finished
Stop-finished k b c (begins _ h) = refl
Stop-finished k b c (takes i n _ h e) = refl
Stop-finished k b c (quits i n _ h e) = refl

-- A step of the dispatcher by which no job ends.
abbrev Unended : Job → System → System → Type 0
Unended k s t =
    (places k t.board ≡ places k s.board)
    × (count k t.board.finished ≡ count k s.board.finished)
    × (t.node_of k ≡ s.node_of k)

module _ {W : Type 0} (m : Methods W) (unmarshal : String → Reply (List Task))
    (Outcome : Node → Node → Type 0)
    (worked-Outcome : (j : Job) (w : W) (p : Phase) (s : System)
      → phase_after (worked m unmarshal j w s).0 ≡ some p
      → Outcome (s.node_of j) (worked m unmarshal j w s).1.node) where
  -- The node of a job that is given once: as it was, begun, or worked on.
  record Story (before : Node) (k : Job) (s : System) : Type 0 where
    untouched : places k s.board ≡ 0 → s.node_of k ≡ before
    taken : places k s.board ≡ 1 → count k s.board.finished ≡ 0 → s.node_of k ≡ begun before
    done :
        places k s.board ≡ 1 → 0 < count k s.board.finished → Outcome (begun before) (s.node_of k)

  Story-same :
      (before : Node) (k : Job) (s t : System) → Unended k s t → Story before k s → Story before k t
  Story-same before k s t (p, f, n) v = record {
    untouched = λ h. n ∙ v.untouched (ground (arith, p, h));
    taken = λ h z. n ∙ v.taken (ground (arith, p, h)) (ground (arith, f, z));
    done = λ h z.
        subst (Outcome (begun before)) (sym n)
          (v.done (ground (arith, p, h)) (ground (arith, f, z)));
  }

  add-Story_self :
      (before : Node) (j : Job) (s : System) → Story before j s → Story before j (add j s)
  unfolding add write_node submit
  add-Story_self before j s v = record {
    untouched = λ h. absurd (ground (arith, h, places-submit j j s.board));
    taken = λ h z. ground (arith, v.untouched (ground (arith, h, places-submit j j s.board)));
    done =
        λ h z. absurd (ground (arith, h, z, places-submit j j s.board, finished-places j s.board));
  }

  add-Story : (before : Node) (j k : Job) (s : System) → Story before k s → Story before k (add j s)
  unfolding add write_node submit
  add-Story before j k s v = elim (Bool-cases (j == k)) [
    | inl e ↦
        subst (λ x. Story before x s → Story before x (add j s)) (ground (arith, e))
          (add-Story_self before j s) v
    | inr e ↦
        Story-same before k s (add j s)
          (ground (arith, e, places-submit j k s.board), refl, ground (arith, e)) v
  ]

  end_job-Story_self :
      (before : Node) (j : Job) (i : ℕ) (p : Phase) (w : W) (s : System)
      → get_elem? s.board.workers i ≡ some (working j)
      → phase_after (worked m unmarshal j w s).0 ≡ some p
      → Story before j s
      → Story before j (end_job m unmarshal j i p w s)
  unfolding end_job write_node finish count
  end_job-Story_self before j i p w s e h v =
      let same =
        Move-places j s.board (finish j i p s.board)
          (end_Move i j (worked m unmarshal j w s).0 p s.board e h) in
      let here : 1 ≤ running j s.board =
        ground (arith, total-set_phase (works_on j) i (working j) gone s.board.workers e) in
      record {
        untouched = λ x. absurd (ground (arith, same, here, x));
        taken = λ x z. absurd (ground (arith, z));
        done = λ x z.
            let was : s.node_of j ≡ begun before =
              v.taken (ground (arith, same, x)) (ground (arith, same, x, here)) in
            subst (λ n. Outcome n ((end_job m unmarshal j i p w s).node_of j)) was
              (subst (Outcome (s.node_of j)) (ground arith) (worked-Outcome j w p s h));
      }

  end_job-Story :
      (before : Node) (k j : Job) (i : ℕ) (p : Phase) (w : W) (s : System)
      → get_elem? s.board.workers i ≡ some (working j)
      → phase_after (worked m unmarshal j w s).0 ≡ some p
      → Story before k s
      → Story before k (end_job m unmarshal j i p w s)
  unfolding end_job write_node finish count
  end_job-Story before k j i p w s e h v = elim (Bool-cases (j == k)) [
    | inl same ↦
        subst (λ x. Story before x s → Story before x (end_job m unmarshal j i p w s))
          (ground (arith, same)) (end_job-Story_self before j i p w s e h) v
    | inr other ↦
        Story-same before k s (end_job m unmarshal j i p w s)
          (
            Move-places k s.board (finish j i p s.board)
                (end_Move i j (worked m unmarshal j w s).0 p s.board e h),
            ground (arith, other),
            ground (arith, other),
          )
          v
  ]

  Turn-Story :
      (before : Node) (k : Job) (s t : System)
      → Turn m unmarshal s t
      → Story before k s
      → Story before k t
  unfolding unlock clean_up
  Turn-Story before k s t (unlocks j _ h z) v = Story-same before k s t (refl, refl, refl) v
  Turn-Story before k s t (cleans _ h z) v = Story-same before k s t (refl, refl, refl) v
  Turn-Story before k s t (passes b _ h f) v =
      Story-same before k s t (Move-places k s.board b h, ap (count k) f, refl) v
  Turn-Story before k s t (stopping b _ h) v =
      Story-same before k s t (Stop-places k s.board b h, Stop-finished k s.board b h, refl) v
  Turn-Story before k s t (ends j i p w _ e h) v = end_job-Story before k j i p w s e h v

  Turns-Story :
      (before : Node) (k : Job) (s t : System) (js : List Job)
      → Turns m unmarshal s js t
      → Story before k s
      → Story before k t
  Turns-Story before k s t _ (over _) v = v
  Turns-Story before k s t _ (adds j js _ _ h p) v =
      Turns-Story before k (add j s) t js p (add-Story before j k s v)
  Turns-Story before k s t js (turns _ _ u _ h p) v =
      Turns-Story before k u t js p (Turn-Story before k s u h v)

  new_system-Story :
      (num_workers : ℕ) (given : Job → Node) (k : Job)
      → Story (given k) k (new_system num_workers given)
  unfolding new_system
  new_system-Story num_workers given k = record {
    untouched = λ h. refl;
    taken = λ h z. absurd (ground (arith, h, started-places k num_workers));
    done = λ h z. absurd (ground (arith, h, started-places k num_workers));
  }

  Turn-Move :
      (s t u : System) (js : List Job)
      → Turn m unmarshal s t
      → Steps t.board js u.board
      → Steps s.board js u.board
  unfolding unlock clean_up end_job
  Turn-Move s t u js (unlocks j _ h z) p = p
  Turn-Move s t u js (cleans _ h z) p = p
  Turn-Move s t u js (passes b _ h f) p = moves js s.board b u.board h p
  Turn-Move s t u js (stopping b _ h) p = stops js s.board b u.board h p
  Turn-Move s t u js (ends j i q w _ e h) p =
      moves js s.board (finish j i q s.board) u.board
        (end_Move i j (worked m unmarshal j w s).0 q s.board e h) p

  -- The turns of the system are steps of the dispatcher.
  pub Turns-Steps :
      (s t : System) (js : List Job) → Turns m unmarshal s js t → Steps s.board js t.board
  unfolding add
  Turns-Steps s t _ (over _) = stays s.board
  Turns-Steps s t _ (adds j js _ _ h p) =
      submits j js s.board t.board (Turns-Steps (add j s) t js p)
  Turns-Steps s t js (turns _ _ u _ h p) = Turn-Move s u t js h (Turns-Steps u t js p)

  pub rest-Outcome :
      (num_workers : ℕ) (given : Job → Node) (js : List Job) (t : System)
      → Turns m unmarshal (new_system num_workers given) js t
      → t.board.stopper ≡ not_called
      → HasWorker t.board
      → IsAtRest t.board
      → (k : Job) → count k js ≡ 1
      → Outcome (begun (given k)) (t.node_of k)
  unfolding new_system
  rest-Outcome num_workers given js t h calm w r k once =
      let s = new_system num_workers given in
      let steps : Steps (started num_workers) js t.board = Turns-Steps s t js h in
      let ended = rest-finished num_workers js t.board steps calm w r k in
      let there = Steps-count num_workers js t.board steps k in
      (Turns-Story (given k) k s t js h (new_system-Story num_workers given k)).done
        (ground (arith, there, once)) (ground (arith, ended, once))
