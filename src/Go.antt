-- ===== src/Go.antt =====
-- What the program uses of Go itself: error values, panics, methods on shared state, and the
-- calls of other packages, whose answers the model takes from outside.
pub mod Polling
pub mod Pages
pub mod Sequence
use ironic_temper.Base.{
  ℕ, zero, suc, ◌≡◌, refl, String, Option, none, some, List, [], ◌∷◌, Bool, true, false, get_elem?,
}

-- An error value. `AlreadyExists` (pkg/node/baremetal.go), `NodeNotFoundError` (pkg/clients) and
-- gophercloud's `ErrDefault409` are told apart by type switches; all others by their text alone.
pub data Error : Type 0 where
  already_exists : Error
  not_found : String → Error
  conflict : String → Error
  message : String → Error

-- `err.Error()`. The program builds `AlreadyExists` with an empty text.
abbrev pub error_text : Error → String
error_text already_exists = ""
error_text (not_found s) = s
error_text (conflict s) = s
error_text (message s) = s

-- How a function ends: it returns a value, or an error beside it, or it panics.
pub data Result {ℓ} (A : Type ℓ) : Type ℓ where
  ok : A → Result A
  err : Error → Result A
  panics : String → Result A

-- What a call of another package returns.
pub data Reply {ℓ} (A : Type ℓ) : Type ℓ where
  reply : A → Reply A
  refused : Error → Reply A

-- A method on the state `S`: what it has written stays written, however it ends.
abbrev pub Exec : Type 0 → Type 0 → Type 0
Exec S A = S → Result A × S

-- A call of another package on the outer world `W`.
abbrev pub Call : Type 0 → Type 0 → Type 0
Call W A = W → Reply A × W

abbrev pub pure : {S A : Type 0} → A → Exec S A
pure a s = (ok a, s)

abbrev pub fail : {S A : Type 0} → Error → Exec S A
fail e s = (err e, s)

abbrev pub panic : {S A : Type 0} → String → Exec S A
panic m s = (panics m, s)

abbrev pub continue : {S A B : Type 0} → Result A → (A → Exec S B) → Exec S B
continue (ok a) f s = f a s
continue (err e) f s = (err e, s)
continue (panics m) f s = (panics m, s)

-- `x, err := m; if err != nil { return err }`.
infixl 10 ◌>>=◌ ◌>>◌
abbrev pub ◌>>=◌ : {S A B : Type 0} → Exec S A → (A → Exec S B) → Exec S B
◌>>=◌ m f s = let (r, s') = m s in continue r f s'

abbrev pub ◌>>◌ : {S A B : Type 0} → Exec S A → Exec S B → Exec S B
m >> n = m >>= λ _. n

-- `x, err := m` where the code goes on to look at `err`. A panic is no error value.
abbrev pub inspected : {S A : Type 0} → Result A → S → Result (Reply A) × S
inspected (ok a) s = (ok (reply a), s)
inspected (err e) s = (ok (refused e), s)
inspected (panics m) s = (panics m, s)

abbrev pub inspect : {S A : Type 0} → Exec S A → Exec S (Reply A)
inspect m s = let (r, s') = m s in inspected r s'

abbrev pub of_reply : {S A : Type 0} → Reply A → Exec S A
of_reply (reply a) s = (ok a, s)
of_reply (refused e) s = (err e, s)

-- A nil pointer is `none`.
abbrev pub deref : {S A : Type 0} → Option A → Exec S A
deref none s = (panics "nil pointer dereference", s)
deref (some a) s = (ok a, s)

-- `xs[i]`
abbrev pub at_index : {S A : Type 0} → List A → ℕ → Exec S A
at_index [] i s = (panics "index out of range", s)
at_index (x ∷ xs) zero s = (ok x, s)
at_index (x ∷ xs) (suc i) s = at_index xs i s

-- A call whose error is logged and dropped.
abbrev pub dropping : {S : Type 0} → Result (Unit {0}) → S → Result (Unit {0}) × S
dropping (ok u) s = (ok tt, s)
dropping (err e) s = (ok tt, s)
dropping (panics m) s = (panics m, s)

abbrev pub drop_error : {S : Type 0} → Exec S (Unit {0}) → Exec S (Unit {0})
drop_error m s = let (r, s') = m s in dropping r s'

abbrev pub branch : {S A : Type 0} → Bool → Exec S A → Exec S A → Exec S A
branch true m n s = m s
branch false m n s = n s

abbrev pub unless : {S : Type 0} → Bool → Exec S (Unit {0}) → Exec S (Unit {0})
unless true m s = (ok tt, s)
unless false m s = m s

abbrev pub gets : {S A : Type 0} → (S → A) → Exec S A
gets f s = (ok (f s), s)

abbrev pub modify : {S : Type 0} → (S → S) → Exec S (Unit {0})
modify f s = (ok tt, f s)

-- `for _, x := range xs { if err := body(x); err != nil { return err } }`
abbrev pub for_each : {S A : Type 0} → List A → (A → Exec S (Unit {0})) → Exec S (Unit {0})
for_each [] body s = (ok tt, s)
for_each (x ∷ xs) body s = let (r, s') = body x s in continue r (λ _. for_each xs body) s'

abbrev pub IsOk : {A : Type 0} → Result A → Type 0
IsOk (ok a) = Unit
IsOk (err e) = ⊥
IsOk (panics m) = ⊥
