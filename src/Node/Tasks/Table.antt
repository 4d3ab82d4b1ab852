-- ===== src/Node/Tasks/Table.antt =====
-- The table of `initTaskExecs` is made of maps.
use ironic_temper.Base.{
  ◌≡◌, refl, String, Bool, true, false, List, [], ◌∷◌, All, Bool-cases, inl, inr, ◌=ₛ◌,
  if◌then◌else◌,
}
use ironic_temper.Base.Dict.{Dict, lookup}
use ironic_temper.Node.{TaskExec}
use ironic_temper.Node.Tasks.{
  diagnostics_plain, diagnostics_with_image, ironic_tasks, no_execs, task_execs, or_nil,
}
use ironic_temper.Node.Tasks.Registry.{IsMap}
use ironic_temper.Text.{is_empty}

-- What holds of every entry holds of the one that is found.
pub lookup-IsMap :
    (service : String) (table : Dict (Dict (List TaskExec)))
    → All (λ p. IsMap p.1) table
    → IsMap (or_nil (lookup service table))
unfolding lookup
lookup-IsMap service [] h = tt
lookup-IsMap service ((first, d) ∷ rest) h = elim (Bool-cases (first =ₛ service)) [
  | inl e ↦ rw e h.0
  | inr e ↦ rw e (lookup-IsMap service rest h.1)
]

diagnostics-IsMap : (b : Bool) → IsMap (if b then diagnostics_plain else diagnostics_with_image)
unfolding lookup
diagnostics-IsMap true = (refl, (refl, (refl, tt)))
diagnostics-IsMap false = (refl, (refl, tt))

ironic_tasks-IsMap : IsMap ironic_tasks
unfolding lookup
ironic_tasks-IsMap = (refl, (refl, (refl, (refl, tt))))

no_execs-IsMap : IsMap no_execs
unfolding lookup
no_execs-IsMap = (refl, (refl, tt))

one-IsMap :
    (name : String) (execs : List TaskExec) → name =ₛ name ≡ true → IsMap ((name, execs) ∷ [])
unfolding lookup
one-IsMap name execs e = rw e (refl, tt)

pub task_execs-IsMap : (image : String) → All (λ p. IsMap p.1) (task_execs image)
unfolding task_execs
task_execs-IsMap image = (
  one-IsMap "create" _ refl,
  (
    diagnostics-IsMap (is_empty image),
    (ironic_tasks-IsMap, (one-IsMap "sync" _ refl, (no_execs-IsMap, (no_execs-IsMap, tt)))),
  ),
)
