-- ===== src/Examples/Graphs.antt =====
-- The order of tasks, on a chain, a cycle and an unknown dependency.
use aegis_fs.Prelude.{ℕ, String, Bool, true, List, [], ◌∷◌, map, any, Elem, ◌≡◌, ◌↔◌, refl}
use aegis_fs.Prelude.BTree
use aegis_fs.Prelude.Map
use aegis_fs.Domain.Dag.{topo_order, admit}
use aegis_fs.Domain.Dag.Depends.{named, names}
use aegis_fs.Prelude.Names.{Distinct, Before}
use aegis_fs.Domain.Dag.Order.{topo_order_lem}
use aegis_fs.Domain.Dag.Stuck.{topo_order-cycle}
use aegis_fs.Domain.Workflow.{TaskSpec}
use aegis_fs.Examples.Data.{task}

abbrev chain : List (TaskSpec ℕ ℕ)
chain = task "c" ("a" ∷ "b" ∷ []) ∷ task "b" ("a" ∷ []) ∷ task "a" [] ∷ []

abbrev cycle : List (TaskSpec ℕ ℕ)
cycle = task "a" ("b" ∷ []) ∷ task "b" ("a" ∷ []) ∷ task "c" [] ∷ []

topo_order_lem_example :
    Distinct ("a" ∷ "b" ∷ "c" ∷ [])
    × ((n : String) → Elem n ("a" ∷ "b" ∷ "c" ∷ []) ↔ Elem n (map (λ t. t.name) chain))
    × ((t : TaskSpec ℕ ℕ) (d : String)
        → Elem t chain
        → Elem d t.depends_on
        → Before d t.name ("a" ∷ "b" ∷ "c" ∷ []))
unfolding topo_order BTree.insert Map.lookup Map.remove admit
topo_order_lem_example = topo_order_lem chain ("a" ∷ "b" ∷ "c" ∷ []) refl

topo_order-cycle_example :
    (stuck : String → Bool) × ((n : String) × (stuck n ≡ true))
    × ((n : String)
        → stuck n ≡ true
        → (named n cycle ≡ true) × (d : String) × (any (names n d) cycle ≡ true) × (stuck d ≡ true))
unfolding topo_order BTree.insert Map.lookup Map.remove admit
topo_order-cycle_example = topo_order-cycle cycle refl
