-- ===== src/Node/Keeps.antt =====
-- Methods that leave a node's status and its tasks alone, and a rule for each way to build one.
use ironic_temper.Base.{
  ℕ, ◌≡◌, refl, ◌∙◌, String, Bool, true, false, Option, none, some, List, [], ◌∷◌, zero, suc, arith,
}
use ironic_temper.Go.{
  Error, Reply, reply, refused, Result, ok, err, panics, Call, ◌>>=◌, ◌>>◌, pure, fail, panic,
  branch, unless, for_each, continue, inspect, of_reply, drop_error, deref, at_index,
}
use ironic_temper.Node.{Node, St, Method, call, this, write}

-- The method leaves the status and the tasks of the node alone, however it ends.
pub record Keeps {W A : Type 0} (m : Method W A) : Type 0 where
  pub status : (s : St W) → (m s).1.node.status ≡ s.node.status
  pub tasks : (s : St W) → (m s).1.node.tasks ≡ s.node.tasks

module _ {W A : Type 0} where
  pub call-Keeps : (c : Call W A) → Keeps (call c)
  call-Keeps c = record { status = λ s. ground arith; tasks = λ s. ground arith }

  pub pure-Keeps : (a : A) → Keeps {W = W} (pure a)
  pure-Keeps a = record { status = λ s. refl; tasks = λ s. refl }

  pub fail-Keeps : (e : Error) → Keeps {W = W} {A = A} (fail e)
  fail-Keeps e = record { status = λ s. refl; tasks = λ s. refl }

  pub panic-Keeps : (m : String) → Keeps {W = W} {A = A} (panic m)
  panic-Keeps m = record { status = λ s. refl; tasks = λ s. refl }

  pub of_reply-Keeps : (r : Reply A) → Keeps {W = W} (of_reply r)
  of_reply-Keeps (reply a) = record { status = λ s. refl; tasks = λ s. refl }
  of_reply-Keeps (refused e) = record { status = λ s. refl; tasks = λ s. refl }

  pub deref-Keeps : (o : Option A) → Keeps {W = W} (deref o)
  deref-Keeps none = record { status = λ s. refl; tasks = λ s. refl }
  deref-Keeps (some a) = record { status = λ s. refl; tasks = λ s. refl }

  pub at_index-Keeps : (xs : List A) (i : ℕ) → Keeps {W = W} (at_index xs i)
  at_index-Keeps [] i = record { status = λ s. refl; tasks = λ s. refl }
  at_index-Keeps (x ∷ xs) zero = record { status = λ s. refl; tasks = λ s. refl }
  at_index-Keeps (x ∷ xs) (suc i) =
      let k = at_index-Keeps xs i in record { status = k.status; tasks = k.tasks }

  pub inspect-Keeps : (m : Method W A) → Keeps m → Keeps (inspect m)
  inspect-Keeps m k = record {
    status = λ s. ground (arith, k.status s);
    tasks = λ s. ground (arith, k.tasks s);
  }

  pub branch-Keeps : (b : Bool) (m n : Method W A) → Keeps m → Keeps n → Keeps (branch b m n)
  branch-Keeps true m n k l = record { status = k.status; tasks = k.tasks }
  branch-Keeps false m n k l = record { status = l.status; tasks = l.tasks }

module _ {W : Type 0} where
  pub this-Keeps : Keeps {W = W} this
  this-Keeps = record { status = λ s. refl; tasks = λ s. refl }

  pub write-Keeps :
      (f : Node → Node)
      → ((n : Node) → (f n).status ≡ n.status)
      → ((n : Node) → (f n).tasks ≡ n.tasks)
      → Keeps {W = W} (write f)
  write-Keeps f k l = record { status = λ s. k s.node; tasks = λ s. l s.node }

  pub unless-Keeps : (b : Bool) (m : Method W (Unit {0})) → Keeps m → Keeps (unless b m)
  unless-Keeps true m k = record { status = λ s. refl; tasks = λ s. refl }
  unless-Keeps false m k = record { status = k.status; tasks = k.tasks }

  pub drop_error-Keeps : (m : Method W (Unit {0})) → Keeps m → Keeps (drop_error m)
  drop_error-Keeps m k = record {
    status = λ s. ground (arith, k.status s);
    tasks = λ s. ground (arith, k.tasks s);
  }

module _ {W A B : Type 0} where
  pub bind-Keeps :
      (m : Method W A) (f : A → Method W B) → Keeps m → ((a : A) → Keeps (f a)) → Keeps (m >>= f)
  bind-Keeps m f k l = record {
    status = λ s. then_status (m s).0 (m s).1 ∙ k.status s;
    tasks = λ s. then_tasks (m s).0 (m s).1 ∙ k.tasks s;
  }
    where
      then_status : (r : Result A) (t : St W) → (continue r f t).1.node.status ≡ t.node.status
      then_status (ok a) t = (l a).status t
      then_status (err e) t = refl
      then_status (panics p) t = refl

      then_tasks : (r : Result A) (t : St W) → (continue r f t).1.node.tasks ≡ t.node.tasks
      then_tasks (ok a) t = (l a).tasks t
      then_tasks (err e) t = refl
      then_tasks (panics p) t = refl

  pub seq-Keeps : (m : Method W A) (n : Method W B) → Keeps m → Keeps n → Keeps (m >> n)
  seq-Keeps m n k l = bind-Keeps m (λ _. n) k (λ _. l)

module _ {W A : Type 0} where
  pub for_each-Keeps :
      (xs : List A) (body : A → Method W (Unit {0}))
      → ((a : A) → Keeps (body a))
      → Keeps (for_each xs body)
  for_each-Keeps [] body k = record { status = λ s. refl; tasks = λ s. refl }
  for_each-Keeps (x ∷ xs) body k =
      let rest =
        bind-Keeps (body x) (λ _. for_each xs body) (k x) (λ _. for_each-Keeps xs body k) in
      record { status = rest.status; tasks = rest.tasks }

pub ruleset keeps_rules = (
  refl, call-Keeps, pure-Keeps, fail-Keeps, panic-Keeps, of_reply-Keeps, deref-Keeps,
  at_index-Keeps, inspect-Keeps, branch-Keeps, this-Keeps, write-Keeps, unless-Keeps,
  drop_error-Keeps, bind-Keeps, seq-Keeps, for_each-Keeps,
)
