-- ===== src/Pool/Jobs.antt =====
-- What becomes of the nodes that the pool is given, and of its workers.
use ironic_temper.Base.{
  ◌≡◌, refl, String, Option, none, some, [], ◌∷◌, arith, eq_iff, ◌=ₛ◌, if◌then◌else◌,
}
use ironic_temper.Base.Dict.{Dict, lookup, insert, lookup-insert}
use ironic_temper.Node.{Node}
use ironic_temper.Pool.{Pool, keep_staged, cleanup}

-- The keys of the map are different.
abbrev pub IsKeyed : Dict Node → Type 0
IsKeyed [] = Unit
IsKeyed ((name, n) ∷ rest) = (lookup name rest ≡ none) × IsKeyed rest

-- The entry, if it is that of a staged node.
abbrev pub if_staged : Option Node → Option Node
if_staged none = none
if_staged (some n) = if n.status =ₛ "staged" then some n else none

lookup-keep_staged :
    (key : String) (m : Dict Node)
    → IsKeyed m
    → lookup key (keep_staged m) ≡ if_staged (lookup key m)
unfolding lookup keep_staged
lookup-keep_staged key [] v = refl
lookup-keep_staged key ((name, n) ∷ rest) v =
    ground (arith, lookup-keep_staged key rest v.1, eq_iff name key, v.0)

-- The clean-up of the pool keeps exactly the staged nodes, if the keys of its map are different.
pub lookup-cleanup :
    (key : String) (t : Pool)
    → IsKeyed t.nodes
    → lookup key (cleanup t).nodes ≡ if_staged (lookup key t.nodes)
unfolding cleanup
lookup-cleanup key t v = lookup-keep_staged key t.nodes v

pub insert-IsKeyed :
    (name : String) (n : Node) (m : Dict Node) → IsKeyed m → IsKeyed (insert name n m)
unfolding insert lookup
insert-IsKeyed name n [] v = (refl, tt)
insert-IsKeyed name n ((first, k) ∷ rest) v = ground (
  arith,
  insert-IsKeyed name n rest v.1,
  lookup-insert name first n rest,
  eq_iff name first,
  eq_iff first name,
)
