-- ===== src/Go/Polling.antt =====
-- `wait.Poll` of k8s.io/apimachinery, which the program calls and does not contain. Its documented
-- behaviour: the condition is run at least once, again after every interval, until it reports
-- true, returns an error, or the time is over.
use ironic_temper.Base.{ℕ, zero, suc, ◌≡◌, refl, sym, ◌∙◌, Bool, true, false, arith}
use ironic_temper.Go.{Error, message, Reply, reply, refused, Call}

abbrev pub timed_out : Error
timed_out = message "timed out waiting for the condition"

abbrev decided : {S : Type 0} → Reply Bool → S → Call S (Unit {0}) → Reply (Unit {0}) × S
decided (reply true) s later = (reply tt, s)
decided (reply false) s later = later s
decided (refused e) s later = (refused e, s)

-- `suc k` runs of the condition at most.
unfoldable pub attempts : {S : Type 0} → ℕ → Call S Bool → Call S (Unit {0})
attempts zero c s = let (r, s') = c s in decided r s' (λ t. (refused timed_out, t))
attempts (suc k) c s = let (r, s') = c s in decided r s' (attempts k c)

-- `Poll(interval, timeout, condition)`, in seconds.
abbrev pub Poll : Type 0 → Type 0
Poll S = ℕ → ℕ → Call S Bool → Call S (Unit {0})

-- The clock decides how many times the condition runs.
pub record IsPoll {S : Type 0} (poll : Poll S) : Type 0 where
  pub runs :
      (interval timeout : ℕ) (c : Call S Bool) (s : S)
      → (k : ℕ) × (poll interval timeout c s ≡ attempts k c s)

-- A run of the condition that reported true, with the state that it left.
abbrev pub ReportedTrue : {S : Type 0} → Call S Bool → S → Type 0
ReportedTrue {S} c t = (s : S) × (c s ≡ (reply true, t))

-- How one run of a condition can end.
data Ended {S : Type 0} (r : Reply Bool × S) : Type 0 where
  yes_it_holds : r ≡ (reply true, r.1) → Ended r
  not_yet : r ≡ (reply false, r.1) → Ended r
  broken : (e : Error) → r ≡ (refused e, r.1) → Ended r

ended : {S : Type 0} (r : Reply Bool × S) → Ended r
ended (reply true, s) = yes_it_holds refl
ended (reply false, s) = not_yet refl
ended (refused e, s) = broken e refl

attempts-ReportedTrue :
    {S : Type 0} (k : ℕ) (c : Call S Bool) (s t : S)
    → attempts k c s ≡ (reply tt, t)
    → ReportedTrue c t
unfolding attempts
attempts-ReportedTrue zero c s t h = elim (ended (c s)) [
  | yes_it_holds e ↦ (s, ground arith)
  | not_yet e ↦ absurd (ground arith)
  | broken x e ↦ absurd (ground arith)
]
attempts-ReportedTrue (suc k) c s t h = elim (ended (c s)) [
  | yes_it_holds e ↦ (s, ground arith)
  | not_yet e ↦ attempts-ReportedTrue k c (c s).1 t (ground arith)
  | broken x e ↦ absurd (ground arith)
]

-- A poll that returns no error saw its condition hold.
pub poll-ReportedTrue :
    {S : Type 0} {poll : Poll S}
    → IsPoll poll
    → (interval timeout : ℕ) (c : Call S Bool) (s t : S) → poll interval timeout c s ≡ (reply tt, t)
    → ReportedTrue c t
poll-ReportedTrue law interval timeout c s t h =
    let (k, e) = law.runs interval timeout c s in attempts-ReportedTrue k c s t (sym e ∙ h)

attempts-Held :
    {S : Type 0} (P : S → Type 0) (k : ℕ) (c : Call S Bool) (s t : S)
    → ((x y : S) → P x → c x ≡ (reply false, y) → P y)
    → P s
    → attempts k c s ≡ (reply tt, t)
    → (x : S) × P x × (c x ≡ (reply true, t))
unfolding attempts
attempts-Held P zero c s t keeps p h = elim (ended (c s)) [
  | yes_it_holds e ↦ (s, p, ground arith)
  | not_yet e ↦ absurd (ground arith)
  | broken x e ↦ absurd (ground arith)
]
attempts-Held P (suc k) c s t keeps p h = elim (ended (c s)) [
  | yes_it_holds e ↦ (s, p, ground arith)
  | not_yet e ↦ attempts-Held P k c (c s).1 t keeps (keeps s (c s).1 p e) (ground arith)
  | broken x e ↦ absurd (ground arith)
]

-- The state in which the condition of a poll held has what each run of it that reports false keeps.
pub poll-Held :
    {S : Type 0} {poll : Poll S} (P : S → Type 0)
    → IsPoll poll
    → (interval timeout : ℕ) (c : Call S Bool) (s t : S)
    → ((x y : S) → P x → c x ≡ (reply false, y) → P y)
    → P s
    → poll interval timeout c s ≡ (reply tt, t)
    → (x : S) × P x × (c x ≡ (reply true, t))
poll-Held P law interval timeout c s t keeps p h =
    let (k, e) = law.runs interval timeout c s in attempts-Held P k c s t keeps p (sym e ∙ h)
