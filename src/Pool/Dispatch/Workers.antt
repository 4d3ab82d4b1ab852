-- ===== src/Pool/Dispatch/Workers.antt =====
-- The list of workers, one of whom changes his phase.
use ironic_temper.Base.{
  ℕ, zero, suc, ◌+◌, ◌-◌, ◌≡◌, ◌<◌, refl, some, List, [], ◌∷◌, arith, length, get_elem?, ◌==◌,
  if◌then◌else◌,
}
use ironic_temper.Pool.Dispatch.{Phase, Job, set_phase, without, count}

-- The sum of a number of each worker.
unfoldable pub total : (Phase → ℕ) → List Phase → ℕ
total f [] = 0
total f (p ∷ ps) = f p + total f ps

pub total-set_phase :
    (f : Phase → ℕ) (i : ℕ) (p q : Phase) (ws : List Phase)
    → get_elem? ws i ≡ some p
    → total f (set_phase i q ws) + f p ≡ total f ws + f q
unfolding total set_phase
total-set_phase f i p q [] h = absurd (ground arith)
total-set_phase f zero p q (w ∷ ws) h = ground arith
total-set_phase f (suc i) p q (w ∷ ws) h = ground (arith, total-set_phase f i p q ws h)

pub get_elem-set_phase :
    (i k : ℕ) (p q : Phase) (ws : List Phase)
    → get_elem? ws i ≡ some p
    → get_elem? (set_phase i q ws) k ≡ (if i == k then some q else get_elem? ws k)
unfolding set_phase
get_elem-set_phase i k p q [] h = absurd (ground arith)
get_elem-set_phase zero zero p q (w ∷ ws) h = refl
get_elem-set_phase zero (suc k) p q (w ∷ ws) h = ground arith
get_elem-set_phase (suc i) zero p q (w ∷ ws) h = ground arith
get_elem-set_phase (suc i) (suc k) p q (w ∷ ws) h = ground (arith, get_elem-set_phase i k p q ws h)

pub length-set_phase : (i : ℕ) (q : Phase) (ws : List Phase) → length (set_phase i q ws) ≡ length ws
unfolding set_phase
length-set_phase i q [] = refl
length-set_phase zero q (w ∷ ws) = refl
length-set_phase (suc i) q (w ∷ ws) = ground (arith, length-set_phase i q ws)

pub count-without :
    (j k : Job) (js : List Job)
    → count k (without j js) ≡ (if j == k then count k js - 1 else count k js)
unfolding count without
count-without j k [] = ground arith
count-without j k (x ∷ xs) = ground (arith, count-without j k xs)

pub length-without :
    (j : Job) (js : List Job) → 0 < count j js → length (without j js) + 1 ≡ length js
unfolding count without
length-without j [] h = absurd (ground arith)
length-without j (x ∷ xs) h = ground (arith, length-without j xs)
