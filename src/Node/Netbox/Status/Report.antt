-- ===== src/Node/Netbox/Status/Report.antt =====
-- What netbox is told at the end of a run: it goes by the errors of the tasks alone.
use ironic_temper.Base.{◌≡◌, refl, ◌∙◌, ap, String, List, [], ◌∷◌, Bool, true, false, arith}
use ironic_temper.Go.{
  Error, Result, ok, err, panics, Reply, reply, refused, ◌>>=◌, ◌>>◌, continue, pure, fail, inspect,
  drop_error, branch,
}
use ironic_temper.Node.{St, Method}
use ironic_temper.Node.Temper.{set_status_to}
use ironic_temper.Node.Netbox.{NetboxApi, DeviceUpdate, update_node_info}
use ironic_temper.Node.Netbox.Status.{
  failed_status, report, set_status, set_status_failed, set_status_staged, write_local_context_data,
  task_errors,
}

-- The method does the same on a node of another status, and leaves it with that status.
record Blind {W A : Type 0} (m : Method W A) : Type 0 where
  alike : (x : String) (s : St W) → m (set_status_to x s) ≡ ((m s).0, set_status_to x (m s).1)

module _ {W : Type 0} where
  pure-Blind : {A : Type 0} (a : A) → Blind {W = W} (pure a)
  pure-Blind a = record { alike = λ x s. refl }

  fail-Blind : {A : Type 0} (e : Error) → Blind {W = W} {A = A} (fail e)
  fail-Blind e = record { alike = λ x s. refl }

  inspect-Blind : {A : Type 0} (m : Method W A) → Blind m → Blind (inspect m)
  inspect-Blind m b = record { alike = λ x s. ground (arith, b.alike x s) }

  drop_error-Blind : (m : Method W (Unit {0})) → Blind m → Blind (drop_error m)
  drop_error-Blind m b = record { alike = λ x s. ground (arith, b.alike x s) }

  branch-Blind :
      {A : Type 0} (c : Bool) (m n : Method W A) → Blind m → Blind n → Blind (branch c m n)
  branch-Blind true m n k l = record { alike = k.alike }
  branch-Blind false m n k l = record { alike = l.alike }

  bind-Blind :
      {A B : Type 0} (m : Method W A) (f : A → Method W B)
      → Blind m
      → ((a : A) → Blind (f a))
      → Blind (m >>= f)
  bind-Blind m f k l = record {
    alike = λ x s. ap (λ p. continue p.0 f p.1) (k.alike x s) ∙ later x (m s).0 (m s).1;
  }
    where
      later :
          (x : String) (r : Result _) (t : St W)
          → continue r f (set_status_to x t)
            ≡ ((continue r f t).0, set_status_to x (continue r f t).1)
      later x (ok a) t = (l a).alike x t
      later x (err e) t = refl
      later x (panics p) t = refl

  seq-Blind : {A B : Type 0} (m : Method W A) (n : Method W B) → Blind m → Blind n → Blind (m >> n)
  seq-Blind m n k l = bind-Blind m (λ _. n) k (λ _. l)

module _ {W : Type 0} (api : NetboxApi W) where
  update_node_info-Blind : (d : DeviceUpdate) → Blind (update_node_info api d)
  unfolding update_node_info
  update_node_info-Blind d = record { alike = λ x s. ground arith }

  failed_status-Blind : (r : Reply String) → Blind (failed_status api r)
  unfolding failed_status
  failed_status-Blind (reply s) = search (branch-Blind, pure-Blind, fail-Blind) depth 20
  failed_status-Blind (refused e) = search pure-Blind depth 20

  local_context-Blind : Blind (write_local_context_data api)
  unfolding write_local_context_data
  local_context-Blind = record {
    alike = λ x s.
        (seq-Blind (update_node_info api _) (pure tt) (update_node_info-Blind _)
            (pure-Blind tt)).alike
          x s;
  }

  report-Blind : (texts : List String) → Blind (report api texts)
  unfolding report set_status_staged set_status_failed
  report-Blind [] =
      search (local_context-Blind, update_node_info-Blind, pure-Blind, seq-Blind, drop_error-Blind)
        depth 20
  report-Blind (e ∷ es) =
      search (update_node_info-Blind, failed_status-Blind, inspect-Blind, bind-Blind) depth 20

  -- What is sent to netbox at the end of a run does not depend on the status that the run gave the
  -- node: with another status of the node and the same tasks, the calls and their result are the
  -- same.
  pub set_status-Blind :
      (status : String) (s : St W)
      → set_status api (set_status_to status s)
        ≡ ((set_status api s).0, set_status_to status (set_status api s).1)
  unfolding set_status
  set_status-Blind status s = (report-Blind (task_errors s.node.tasks)).alike status s
