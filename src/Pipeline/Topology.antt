-- ===== src/Pipeline/Topology.antt =====
-- `topoSort` of apps/web/src/lib/dag-topology.ts.
pub mod Count
pub mod Relax
pub mod Edges
pub mod Order
pub mod Laws
pub mod Promise
use lattik_studio.Prelude.{
  ℕ, zero, suc, ◌-◌, Bool, true, false, Option, none, some, List, [], ◌∷◌, ◌++◌, Text, text_eq,
  length, ◌==◌, if◌then◌else◌, Dict, get, put,
}

-- A task of a pipeline; one with no `dependsOn` has the empty list.
pub record TaskDef : Type 0 where
  pub id : Text
  pub fn : Text
  pub depends_on : List Text
  pub timeout : Option Text

unfoldable pub by_id : List TaskDef → Dict TaskDef → Dict TaskDef
by_id [] m = m
by_id (t ∷ ts) m = by_id ts (put t.id t m)

abbrev pub or_nil : Option (List Text) → List Text
or_nil none = []
or_nil (some xs) = xs

abbrev pub or_zero : Option ℕ → ℕ
or_zero none = 0
or_zero (some n) = n

-- The two maps that the first loop fills, or the task and the unknown dependency it meets.
pub data Built : Type 0 where
  unknown_dep : Text → Text → Built
  built : Dict ℕ → Dict (List Text) → Built

-- The children of a task.
abbrev pub children : Text → Dict (List Text) → List Text
children d adj = or_nil (get d adj)

abbrev pub add_child : Text → Text → Dict (List Text) → Dict (List Text)
add_child d t adj = put d (children d adj ++ t ∷ []) adj

-- The inner loop, over the dependencies of the task `t`.
unfoldable pub add_edges : Dict TaskDef → Text → List Text → Dict ℕ → Dict (List Text) → Built
add_edges ids t [] degrees adj = built degrees adj
add_edges ids t (d ∷ ds) degrees adj = elim (get d ids) [
  | none ↦ unknown_dep t d
  | some x ↦ add_edges ids t ds degrees (add_child d t adj)
]

unfoldable pub build : Dict TaskDef → List TaskDef → Dict ℕ → Dict (List Text) → Built
unfolding add_edges
build ids [] degrees adj = built degrees adj
build ids (t ∷ ts) degrees adj =
    elim (add_edges ids t.id t.depends_on (put t.id (length t.depends_on) degrees) adj) [
      | unknown_dep x d ↦ unknown_dep x d
      | built degrees' adj' ↦ build ids ts degrees' adj'
    ]

-- The tasks with no dependency, in the order of the map.
unfoldable pub start_ready : Dict ℕ → List Text
start_ready [] = []
start_ready ((t, n) ∷ m) = if n == 0 then t ∷ start_ready m else start_ready m

-- The loop over the children of a task that is done. A count that would fall below zero stays
-- there: neither is ever zero again.
unfoldable pub relax : List Text → Dict ℕ → List Text → Dict ℕ × List Text
relax [] degrees ready = (degrees, ready)
relax (c ∷ cs) degrees ready =
    let n = or_zero (get c degrees) in
    relax cs (put c (n - 1) degrees) (if n == 1 then ready ++ c ∷ [] else ready)

abbrev pub push_task : Option TaskDef → List TaskDef → List TaskDef
push_task none out = out
push_task (some t) out = out ++ t ∷ []

-- `while (ready.length)`, a unit of fuel for each round.
unfoldable pub sort_loop :
    ℕ → Dict TaskDef → Dict (List Text) → Dict ℕ → List Text → List TaskDef → Option (List TaskDef)
unfolding relax
sort_loop f ids adj degrees [] out = some out
sort_loop zero ids adj degrees (x ∷ ready) out = none
sort_loop (suc f) ids adj degrees (x ∷ ready) out =
    let r = relax (children x adj) degrees ready in
    sort_loop f ids adj r.0 r.1 (push_task (get x ids) out)

pub data TopoResult : Type 0 where
  unknown_task : Text → Text → TopoResult
  has_cycle : TopoResult
  sorted : List TaskDef → TopoResult
  out_of_fuel : TopoResult

abbrev pub conclude : List TaskDef → Option (List TaskDef) → TopoResult
conclude ts none = out_of_fuel
conclude ts (some out) = if length out == length ts then sorted out else has_cycle

abbrev pub sort_built : List TaskDef → Dict TaskDef → Built → TopoResult
sort_built ts ids (unknown_dep t d) = unknown_task t d
sort_built ts ids (built degrees adj) =
    conclude ts (sort_loop (length degrees) ids adj degrees (start_ready degrees) [])

-- A round takes one task off the queue, and a task is queued once at most, so a unit of fuel for
-- each entry of the counts is enough.
unfoldable pub topo_sort : List TaskDef → TopoResult
unfolding by_id build start_ready sort_loop
topo_sort ts = let ids = by_id ts [] in sort_built ts ids (build ids ts [] [])
