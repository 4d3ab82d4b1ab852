-- ===== src/Pool/System/Fresh.antt =====
-- A node without its device in the pool.
use ironic_temper.Base.{ℕ, ◌≡◌, refl, String, Bool-cases, inl, inr, none, some, List, arith, ◌==◌}
use ironic_temper.Go.{Reply, ok}
use ironic_temper.Node.{Node, Task, Config}
use ironic_temper.Node.New.{new_node}
use ironic_temper.Node.New.Tasks.{new_node_no_device}
use ironic_temper.Node.Temper.{Methods}
use ironic_temper.Pool.{work}
use ironic_temper.Pool.Dispatch.{
  Job, Phase, Dispatcher, started, count, submit, finish, Stop, begins, takes, quits,
}
use ironic_temper.Pool.System.{
  System, new_system, write_node, add, unlock, clean_up, phase_after, worked, end_job, Turn,
  unlocks, cleans, passes, stopping, ends, Turns, over, adds, turns,
}

-- The node of the job has no device, and the job was never finished.
abbrev Unfinished : Job → System → Type 0
Unfinished k s = ((s.node_of k).device_config ≡ none) × (count k s.board.finished ≡ 0)

Stop-finished : (b c : Dispatcher) → Stop b c → c.finished ≡ b.finished
Stop-finished b c (begins _ h) = refl
Stop-finished b c (takes i n _ h e) = refl
Stop-finished b c (quits i n _ h e) = refl

module _ {W : Type 0} (m : Methods W) (unmarshal : String → Reply (List Task)) where
  -- No worker gets past the job of a node without its device.
  no_end :
      (j : Job) (w : W) (p : Phase) (s : System)
      → (s.node_of j).device_config ≡ none
      → phase_after (worked m unmarshal j w s).0 ≡ some p
      → ⊥
  unfolding work phase_after
  no_end j w p s e h = ground (arith, e, h)

  end_job-Unfinished :
      (k j : Job) (i : ℕ) (p : Phase) (w : W) (s : System)
      → phase_after (worked m unmarshal j w s).0 ≡ some p
      → Unfinished k s
      → Unfinished k (end_job m unmarshal j i p w s)
  unfolding end_job write_node finish count
  end_job-Unfinished k j i p w s h v = elim (Bool-cases (j == k)) [
    | inl same ↦ let here : j ≡ k = ground (arith, same) in absurd (no_end j w p s (rw here v.0) h)
    | inr other ↦ (ground (arith, other, v.0), ground (arith, other, v.1))
  ]

  Turn-Unfinished :
      (k : Job) (s t : System) → Turn m unmarshal s t → Unfinished k s → Unfinished k t
  unfolding unlock clean_up
  Turn-Unfinished k s t (unlocks j _ h z) v = v
  Turn-Unfinished k s t (cleans _ h z) v = v
  Turn-Unfinished k s t (passes b _ h f) v = (v.0, rw f v.1)
  Turn-Unfinished k s t (stopping b _ h) v = (v.0, rw (Stop-finished s.board b h) v.1)
  Turn-Unfinished k s t (ends j i p w _ e h) v = end_job-Unfinished k j i p w s h v

  add-Unfinished : (k j : Job) (s : System) → Unfinished k s → Unfinished k (add j s)
  unfolding add write_node submit
  add-Unfinished k j s v = elim (Bool-cases (j == k)) [
    | inl same ↦ let here : j ≡ k = ground (arith, same) in (rw here (ground (arith, v.0)), v.1)
    | inr other ↦ (ground (arith, other, v.0), v.1)
  ]

  Turns-Unfinished :
      (k : Job) (s t : System) (js : List Job)
      → Turns m unmarshal s js t
      → Unfinished k s
      → Unfinished k t
  Turns-Unfinished k s t _ (over _) v = v
  Turns-Unfinished k s t _ (adds j js _ _ h p) v =
      Turns-Unfinished k (add j s) t js p (add-Unfinished k j s v)
  Turns-Unfinished k s t js (turns _ _ u _ h p) v =
      Turns-Unfinished k u t js p (Turn-Unfinished k s u h v)

  -- A node that New made and that is given to the pool as it is, as the webhook does, is never finished,
  -- whatever steps are taken and however often it is given.
  pub new_node_unfinished :
      (tls : Reply (Unit {0})) (name : String) (cfg : Config) (num_workers : ℕ) (given : Job → Node)
      (js : List Job) (t : System) (k : Job)
      → new_node tls name cfg ≡ (ok tt, given k)
      → Turns m unmarshal (new_system num_workers given) js t
      → count k t.board.finished ≡ 0
  unfolding new_system started count
  new_node_unfinished tls name cfg num_workers given js t k h p =
      let no_device = new_node_no_device tls name cfg (given k) h in
      (Turns-Unfinished k (new_system num_workers given) t js p (no_device, refl)).1
