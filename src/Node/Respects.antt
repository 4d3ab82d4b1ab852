-- ===== src/Node/Respects.antt =====
-- Methods whose write to the node respects a relation, and a rule for each way to build one.
use mathlib.Core.Path.{subst}
use ironic_temper.Base.{
  ◌≡◌, sym, String, Bool, true, false, Option, none, some, List, [], ◌∷◌, arith,
}
use ironic_temper.Go.{
  Error, Reply, reply, refused, Result, ok, err, panics, Call, ◌>>=◌, ◌>>◌, pure, fail, panic,
  branch, for_each, continue, inspect, of_reply, deref,
}
use ironic_temper.Node.{Node, St, Method, call, this, write}

module _ (R : Node → Node → Type 0) (stays : (n : Node) → R n n)
    (goes_on : (a b c : Node) → R a b → R b c → R a c) where
  -- The node before and the node after are in the relation, however the method ends.
  pub record Respects {W A : Type 0} (m : Method W A) : Type 0 where
    pub related : (s : St W) → R s.node (m s).1.node

  module _ {W A : Type 0} where
    unchanged : (m : Method W A) → ((s : St W) → (m s).1.node ≡ s.node) → Respects m
    unchanged m h = record { related = λ s. subst (R s.node) (sym (h s)) (stays s.node) }

    pub call-Respects : (c : Call W A) → Respects (call c)
    call-Respects c = unchanged (call c) (λ s. ground arith)

    pub pure-Respects : (a : A) → Respects {W = W} (pure a)
    pure-Respects a = record { related = λ s. stays s.node }

    pub fail-Respects : (e : Error) → Respects {W = W} {A = A} (fail e)
    fail-Respects e = record { related = λ s. stays s.node }

    pub panic-Respects : (p : String) → Respects {W = W} {A = A} (panic p)
    panic-Respects p = record { related = λ s. stays s.node }

    pub of_reply-Respects : (r : Reply A) → Respects {W = W} (of_reply r)
    of_reply-Respects (reply a) = record { related = λ s. stays s.node }
    of_reply-Respects (refused e) = record { related = λ s. stays s.node }

    pub deref-Respects : (o : Option A) → Respects {W = W} (deref o)
    deref-Respects none = record { related = λ s. stays s.node }
    deref-Respects (some a) = record { related = λ s. stays s.node }

    pub inspect-Respects : (m : Method W A) → Respects m → Respects (inspect m)
    inspect-Respects m k = record { related = λ s. subst (R s.node) (ground arith) (k.related s) }

    pub branch-Respects :
        (b : Bool) (m n : Method W A) → Respects m → Respects n → Respects (branch b m n)
    branch-Respects true m n k l = record { related = k.related }
    branch-Respects false m n k l = record { related = l.related }

  pub this-Respects : {W : Type 0} → Respects {W = W} this
  this-Respects = record { related = λ s. stays s.node }

  module _ {W A B : Type 0} where
    pub bind-Respects :
        (m : Method W A) (f : A → Method W B)
        → Respects m
        → ((a : A) → Respects (f a))
        → Respects (m >>= f)
    bind-Respects m f k l = record { related = λ s. after s (m s).0 (m s).1 (k.related s) }
      where
        after :
            (s : St W) (r : Result A) (t : St W)
            → R s.node t.node
            → R s.node (continue r f t).1.node
        after s (ok a) t v = goes_on s.node t.node (f a t).1.node v ((l a).related t)
        after s (err e) t v = v
        after s (panics p) t v = v

    pub seq-Respects :
        (m : Method W A) (n : Method W B) → Respects m → Respects n → Respects (m >> n)
    seq-Respects m n k l = bind-Respects m (λ _. n) k (λ _. l)

  pub write-Respects :
      {W : Type 0} (f : Node → Node) → ((n : Node) → R n (f n)) → Respects {W = W} (write f)
  write-Respects f h = record { related = λ s. h s.node }

  module _ {W A : Type 0} where
    pub for_each-Respects :
        (xs : List A) (body : A → Method W (Unit {0}))
        → ((a : A) → Respects (body a))
        → Respects (for_each xs body)
    for_each-Respects [] body k = record { related = λ s. stays s.node }
    for_each-Respects (x ∷ xs) body k =
        let rest =
          bind-Respects (body x) (λ _. for_each xs body) (k x) (λ _. for_each-Respects xs body k) in
        record { related = rest.related }
