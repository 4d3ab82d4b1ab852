-- ===== src/Pool/System/Listed.antt =====
-- The map of pointers, seen as the map of nodes that the server lists, and what a clean-up leaves.
use ironic_temper.Base.{
  ◌≡◌, refl, ap, String, false, [], ◌∷◌, arith, ◌==◌, ◌∙◌, none, eq_iff, ◌=ₛ◌, if◌then◌else◌,
}
use ironic_temper.Base.Dict.{Dict, insert, lookup, lookup-insert}
use ironic_temper.Node.{Node}
use ironic_temper.Pool.{Pool, returned, add_node, keep_staged, cleanup}
use ironic_temper.Pool.Jobs.{IsKeyed, if_staged, lookup-cleanup, insert-IsKeyed}
use ironic_temper.Pool.Dispatch.{Job}
use ironic_temper.Pool.System.{
  System, add, unlock, clean_up, keep_staged_jobs, nodes_at, write_node, begun,
}

abbrev pub pool_of : System → Pool
pool_of s = record { nodes = nodes_at s.node_of s.nodes }

keep_staged-nodes_at :
    (given : Job → Node) (m : Dict Job)
    → nodes_at given (keep_staged_jobs given m) ≡ keep_staged (nodes_at given m)
unfolding nodes_at keep_staged keep_staged_jobs
keep_staged-nodes_at given [] = refl
keep_staged-nodes_at given ((name, j) ∷ rest) = ground (arith, keep_staged-nodes_at given rest)

-- No name of the map leads to the node of the job.
abbrev pub IsNew : Job → Dict Job → Type 0
IsNew j [] = Unit
IsNew j ((name, k) ∷ rest) = ((j == k) ≡ false) × IsNew j rest

nodes_at-write_node :
    (given : Job → Node) (j : Job) (n : Node) (m : Dict Job)
    → IsNew j m
    → nodes_at (write_node j n given) m ≡ nodes_at given m
unfolding nodes_at write_node
nodes_at-write_node given j n [] v = refl
nodes_at-write_node given j n ((name, k) ∷ rest) v =
    ground (arith, v.0, nodes_at-write_node given j n rest v.1)

nodes_at-insert :
    (given : Job → Node) (name : String) (j : Job) (n : Node) (m : Dict Job)
    → IsNew j m
    → nodes_at (write_node j n given) (insert name j m) ≡ insert name n (nodes_at given m)
unfolding nodes_at insert write_node
nodes_at-insert given name j n [] v = ground arith
nodes_at-insert given name j n ((first, k) ∷ rest) v =
    ground
      (arith, v.0, nodes_at-insert given name j n rest v.1, nodes_at-write_node given j n rest v.1)

-- Seen as the map of nodes, the clean-up of the map of pointers is that of the pool.
clean_up-refines : (s : System) → pool_of (clean_up s) ≡ cleanup (pool_of s)
unfolding clean_up cleanup
clean_up-refines s = ap (λ m. record { nodes = m }) (keep_staged-nodes_at s.node_of s.nodes)

-- So is an addition, if no name of the map leads to the node that is added.
add-refines :
    (j : Job) (s : System)
    → IsNew j s.nodes
    → pool_of (unlock (add j s)) ≡ add_node returned (s.node_of j) (pool_of s)
unfolding add unlock add_node
add-refines j s v =
    ap (λ m. record { nodes = m })
      (nodes_at-insert s.node_of (s.node_of j).name j (begun (s.node_of j)) s.nodes v)

lookup-add_node :
    (name : String) (n : Node) (t : Pool)
    → IsKeyed t.nodes
    → lookup name (cleanup (add_node returned n t)).nodes
      ≡ (if n.name =ₛ name then none else if_staged (lookup name t.nodes))
unfolding add_node
lookup-add_node name n t v =
    let n' : Node = record n { status = "progress" } in
    ground (
      arith,
      lookup-cleanup name (add_node returned n t) (insert-IsKeyed n.name n' t.nodes v),
      lookup-insert n.name name n' t.nodes,
      eq_iff n.name name,
      eq_iff "progress" "staged",
    )

-- Where the names of the map are different and none of them leads to the node: a clean-up right behind
-- an addition leaves in the map under the name of the new node nothing, and under every other name the
-- node that was there if it is staged, and nothing if it is not.
pub lookup-clean_up :
    (j : Job) (s : System) (name : String)
    → IsNew j s.nodes
    → IsKeyed (pool_of s).nodes
    → lookup name (pool_of (clean_up (unlock (add j s)))).nodes
      ≡ (if (s.node_of j).name =ₛ name then none else if_staged (lookup name (pool_of s).nodes))
lookup-clean_up j s name v keyed =
    ap (λ t. lookup name t.nodes)
      (clean_up-refines (unlock (add j s)) ∙ ap cleanup (add-refines j s v))
    ∙ lookup-add_node name (s.node_of j) (pool_of s) keyed
