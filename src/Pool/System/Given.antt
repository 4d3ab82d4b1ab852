-- ===== src/Pool/System/Given.antt =====
-- What becomes of a node that the program's pool is given.
use ironic_temper.Base.{ℕ, ◌≡◌, String, some, List, arith, Option-cases, inl, inr}
use ironic_temper.Go.{Reply}
use ironic_temper.Node.{Node, Task}
use ironic_temper.Node.Temper.{Methods}
use ironic_temper.Pool.{unmarshal_config_context, work}
use ironic_temper.Pool.Dispatch.{Job, Phase, count, not_called}
use ironic_temper.Pool.Dispatch.Rest.{HasWorker, IsAtRest}
use ironic_temper.Pool.System.{System, new_system, phase_after, worked, Turns}
use ironic_temper.Pool.System.Story.{rest-Outcome}
use ironic_temper.Pool.System.Wasted.{IsForeign, context_refused}

module _ {W : Type 0} (m : Methods W) (encode : String → Reply String)
    (decode : String → Reply (List Task)) where
  abbrev context : String → Reply (List Task)
  context = unmarshal_config_context encode decode

  -- A worker that goes on after a job has failed its node.
  worked_failed :
      IsForeign encode decode
      → (j : Job) (w : W) (p : Phase) (s : System) → phase_after (worked m context j w s).0 ≡ some p
      → (worked m context j w s).1.node.status ≡ "failed"
  unfolding work phase_after
  worked_failed foreign j w p s h = elim (Option-cases (s.node_of j).device_config) [
    | inl e ↦ absurd (ground (arith, e))
    | inr (d, e) ↦
        let (x, r) = context_refused encode decode foreign d.config_context in ground (arith, e, r)
  ]

  -- Where no output of gob is JSON: when a pool on which Stop was not called has come to rest with a
  -- worker left, each node that it was given once is failed.
  pub given_once_failed :
      IsForeign encode decode
      → (num_workers : ℕ) (given : Job → Node) (js : List Job) (t : System)
      → Turns m (unmarshal_config_context encode decode) (new_system num_workers given) js t
      → t.board.stopper ≡ not_called
      → HasWorker t.board
      → IsAtRest t.board
      → (k : Job) → count k js ≡ 1
      → (t.node_of k).status ≡ "failed"
  given_once_failed foreign num_workers given js t =
      rest-Outcome m context (λ before after. after.status ≡ "failed") (worked_failed foreign)
        num_workers given js t
