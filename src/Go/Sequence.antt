-- ===== src/Go/Sequence.antt =====
-- A sequence of statements that ends without an error ran each of them to its end.
use mathlib.Core.Path.{subst}
use ironic_temper.Base.{List, [], ◌∷◌, Option, none, some, ◌≡◌, refl, arith}
use ironic_temper.Go.{
  Reply, refused, for_each, of_reply, deref, reply, Result, ok, err, panics, Exec, Call, continue,
  ◌>>=◌,
}
use ironic_temper.Node.{St, Method, call}

module _ {S A B : Type 0} where
  -- The result and the state between two statements.
  abbrev pub Between : Exec S A → (A → Exec S B) → S → B → S → Type 0
  Between m f s b t = (a : A) × (u : S) × (m s ≡ (ok a, u)) × (f a u ≡ (ok b, t))

  continue_ok :
      (f : A → Exec S B) (r : Result A) (u t : S) (b : B)
      → continue r f u ≡ (ok b, t)
      → (a : A) × (r ≡ ok a) × (f a u ≡ (ok b, t))
  continue_ok f (ok a) u t b h = (a, refl, h)
  continue_ok f (err e) u t b h = absurd (ground arith)
  continue_ok f (panics p) u t b h = absurd (ground arith)

  -- A sequence that ends well was between its two statements once.
  pub >>=-ok :
      (m : Exec S A) (f : A → Exec S B) (s t : S) (b : B)
      → (m >>= f) s ≡ (ok b, t)
      → Between m f s b t
  >>=-ok m f s t b h =
      let (a, e, g) = continue_ok f (m s).0 (m s).1 t b h in (a, (m s).1, ground arith, g)

-- A call that is answered leaves the node as it was.
pub call_ok :
    {W A : Type 0} (c : Call W A) (s t : St W) (a : A)
    → call c s ≡ (ok a, t)
    → (c s.world ≡ (reply a, t.world)) × (t.node ≡ s.node)
call_ok c s t a h = ground arith

pub of_reply_ok :
    {S A : Type 0} (r : Reply A) (a : A) (s t : S)
    → of_reply r s ≡ (ok a, t)
    → (r ≡ reply a) × (t ≡ s)
of_reply_ok (reply x) a s t h = ground arith
of_reply_ok (refused e) a s t h = absurd (ground arith)

-- One round for each member, in order, from the first world to the last.
pub data Rounds {W A : Type 0} (Round : A → W → W → Type 0) : List A → W → W → Type 0 where
  no_round : (w : W) → Rounds Round [] w w
  round :
      (x : A) (xs : List A) (w u v : W)
      → Round x w u
      → Rounds Round xs u v
      → Rounds Round (x ∷ xs) w v

-- A loop that ends well ran each of its rounds to its end.
pub for_each-Rounds :
    {W A : Type 0} (Round : A → W → W → Type 0) (body : A → Method W (Unit {0}))
    → ((x : A) (s t : St W) → body x s ≡ (ok tt, t) → Round x s.world t.world)
    → (xs : List A) (s t : St W) → for_each xs body s ≡ (ok tt, t)
    → Rounds Round xs s.world t.world
for_each-Rounds Round body f [] s t h =
    subst (λ u. Rounds Round [] s.world u) (ground (arith, h)) (no_round s.world)
for_each-Rounds Round body f (x ∷ xs) s t h =
    let (_, u, e, g) = >>=-ok (body x) (λ _. for_each xs body) s t tt h in
    round x xs s.world u.world t.world (f x s u e) (for_each-Rounds Round body f xs u t g)

pub deref_ok :
    {S A : Type 0} (o : Option A) (a : A) (s t : S) → deref o s ≡ (ok a, t) → (o ≡ some a) × (t ≡ s)
deref_ok none a s t h = absurd (ground arith)
deref_ok (some x) a s t h = ground arith
