-- ===== src/Scheduler/Exclusion.antt =====
-- At most one goroutine is at work on a node, and what becomes of a node that could not be made.
use ironic_temper.Base.{
  ◌-◌, ◌≡◌, refl, ◌≤◌, String, none, some, List, [], ◌∷◌, arith, eq_iff, ◌=ₛ◌, if◌then◌else◌,
}
use ironic_temper.Base.Dict.{lookup, lookup-insert, lookup-erase}
use ironic_temper.Scheduler.{
  Scheduler, enter, without, leave, abandon, at_work, Step, enters, leaves, abandons, Steps, stays,
  goes, new_scheduler,
}

at_work-without :
    (n k : String) (ms : List String)
    → at_work k (without n ms) ≡ (if n =ₛ k then at_work k ms - 1 else at_work k ms)
unfolding at_work without
at_work-without n k [] = ground arith
at_work-without n k (m ∷ ms) =
    ground (arith, at_work-without n k ms, eq_iff m n, eq_iff n k, eq_iff m k)

-- At most one goroutine is at work on a node, and none on a node that is not in progress.
abbrev pub IsExclusive : Scheduler → Type 0
IsExclusive s =
    (k : String)
    → (at_work k s.running ≤ 1) × (lookup k s.nodes_in_progress ≡ none → at_work k s.running ≡ 0)

enter-IsExclusive : (n : String) (s : Scheduler) → IsExclusive s → IsExclusive (enter n s)
unfolding enter at_work
enter-IsExclusive n s v k =
    ground (arith, v k, v n, lookup-insert n k tt s.nodes_in_progress, eq_iff n k)

leave-IsExclusive : (n : String) (s : Scheduler) → IsExclusive s → IsExclusive (leave n s)
unfolding leave
leave-IsExclusive n s v k =
    ground
      (arith, v k, lookup-erase n k s.nodes_in_progress, at_work-without n k s.running, eq_iff n k)

abandon-IsExclusive : (n : String) (s : Scheduler) → IsExclusive s → IsExclusive (abandon n s)
unfolding abandon
abandon-IsExclusive n s v k = ground (arith, v k, at_work-without n k s.running, eq_iff n k)

Step-IsExclusive : (s t : Scheduler) → Step s t → IsExclusive s → IsExclusive t
Step-IsExclusive s t (enters n _) v = enter-IsExclusive n s v
Step-IsExclusive s t (leaves n _ h) v = leave-IsExclusive n s v
Step-IsExclusive s t (abandons n _ h) v = abandon-IsExclusive n s v

Steps-IsExclusive : (s t : Scheduler) → Steps s t → IsExclusive s → IsExclusive t
Steps-IsExclusive s t (stays _) v = v
Steps-IsExclusive s t (goes _ u _ p q) v = Steps-IsExclusive u t q (Step-IsExclusive s u p v)

-- In whatever order the goroutines of a new scheduler take their steps, at most one of them is at
-- work on a node at a time.
pub never_two : (s : Scheduler) → Steps new_scheduler s → (n : String) → at_work n s.running ≤ 1
unfolding lookup at_work
never_two s p n = (Steps-IsExclusive new_scheduler s p (λ k. (ground arith, λ _. refl)) n).0

-- A node that is in progress, and that no goroutine is at work on.
abbrev pub IsStuck : String → Scheduler → Type 0
IsStuck n s = (lookup n s.nodes_in_progress ≡ some tt) × (at_work n s.running ≡ 0)

-- After the return of a goroutine whose node could not be made, that node is in progress with no
-- goroutine at work on it, if there was no other.
abandoned :
    (n : String) (s : Scheduler)
    → at_work n s.running ≡ 1
    → lookup n s.nodes_in_progress ≡ some tt
    → IsStuck n (abandon n s)
unfolding abandon
abandoned n s h k = ground (arith, at_work-without n n s.running, eq_iff n n)

Step-IsStuck : (n : String) (s t : Scheduler) → Step s t → IsStuck n s → IsStuck n t
unfolding enter leave abandon at_work
Step-IsStuck n s t (enters m _) v =
    ground (arith, v, lookup-insert m n tt s.nodes_in_progress, eq_iff m n)
Step-IsStuck n s t (leaves m _ h) v =
    ground
      (arith, v, lookup-erase m n s.nodes_in_progress, at_work-without m n s.running, eq_iff m n)
Step-IsStuck n s t (abandons m _ h) v = ground (arith, v, at_work-without m n s.running, eq_iff m n)

Steps-IsStuck : (n : String) (s t : Scheduler) → Steps s t → IsStuck n s → IsStuck n t
Steps-IsStuck n s t (stays _) v = v
Steps-IsStuck n s t (goes _ u _ p q) v = Steps-IsStuck n u t q (Step-IsStuck n s u p v)

-- A node in progress whose only goroutine returns because the node could not be made stays in
-- progress with no goroutine at work on it, whatever the scheduler does next.
pub abandoned_forever :
    (n : String) (s t : Scheduler)
    → at_work n s.running ≡ 1
    → lookup n s.nodes_in_progress ≡ some tt
    → Steps (abandon n s) t
    → IsStuck n t
abandoned_forever n s t h k p = Steps-IsStuck n (abandon n s) t p (abandoned n s h k)
