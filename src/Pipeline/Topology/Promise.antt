-- ===== src/Pipeline/Topology/Promise.antt =====
-- What `topoSort` promises of a list of tasks with distinct ids (apps/web/src/lib/dag-topology.ts).
use lattik_studio.Prelude.{
  ℕ, zero, suc, dec_lt, ◌≤◌, ◌<◌, ◌≡◌, ◌≢◌, inl, inr, refl, sym, ap, subst, ◌∙◌, true, Option, none,
  some, List, [], ◌∷◌, Text, text_eq, text_eq_sound, text_eq_refl, mem_text, length, length-map,
  arith, if◌then◌else◌, ◌==◌, Dict, get, put, Bool-cases, Option-cases, Member, All, All-Member,
  All-of-Member,
}
use lattik_studio.Pipeline.Topology.{
  TaskDef, by_id, unknown_dep, built, start_ready, sort_loop, add_child, add_edges, build,
  TopoResult, sorted, unknown_task, has_cycle, conclude, sort_built, topo_sort,
}
use lattik_studio.Pipeline.Topology.Count.{occ, length-le_of_occ, occ_of_length}
use lattik_studio.Pipeline.Topology.Edges.{
  ids_of, DistinctIds, last_of, last_of-some, get-by_id, Built-cases,
}
use lattik_studio.Pipeline.Topology.Order.{InOrder}
use lattik_studio.Pipeline.Topology.Laws.{
  mem_text-occ, occ-mem_text, task_of_occ, Member-occ, DistinctIds-occ, Outcome, built_Outcome,
}

abbrev judged : List TaskDef → List TaskDef → TopoResult
judged ts o = if length o == length ts then sorted o else has_cycle

topo_sort-built :
    (ts : List TaskDef) (n : Dict ℕ) (adj : Dict (List Text)) (o : List TaskDef)
    → build (by_id ts []) ts [] [] ≡ built n adj
    → sort_loop (length n) (by_id ts []) adj n (start_ready n) [] ≡ some o
    → topo_sort ts ≡ judged ts o
unfolding topo_sort
topo_sort-built ts n adj o e p = ap (sort_built ts (by_id ts [])) e ∙ ap (conclude ts) p

topo_sort-unknown :
    (ts : List TaskDef) (t d : Text)
    → build (by_id ts []) ts [] [] ≡ unknown_dep t d
    → topo_sort ts ≡ unknown_task t d
unfolding topo_sort
topo_sort-unknown ts t d e = ap (sort_built ts (by_id ts [])) e

judged-sorted :
    (ts o out : List TaskDef) → judged ts o ≡ sorted out → (o ≡ out) × (length o ≡ length ts)
judged-sorted ts o out h = elim (Bool-cases (length o == length ts)) [
  | inl e ↦ (ground (arith, h, e), ground (arith, e))
  | inr e ↦ absurd (ground (arith, h, e))
]

-- Every occurrence in the sorted list is one in the given list.
Outcome-occ :
    (ts out : List TaskDef) → Outcome ts out → (x : Text) → occ x (ids_of out) ≤ occ x (ids_of ts)
Outcome-occ ts out o x = elim (dec_lt 0 (occ x (ids_of out))) [
  | no q ↦ omega (arith, q)
  | yes q ↦
      let (t, m, e) = task_of_occ x out q in
      let k = Member-occ t ts (All-Member (λ u. Member u ts) o.members m) in
      omega (arith, o.once x, subst (λ (y : Text). 0 < occ y (ids_of ts)) e k)
]

Outcome-full :
    (ts out : List TaskDef)
    → Outcome ts out
    → length out ≡ length ts
    → All (λ t. mem_text t.id (ids_of out) ≡ true) ts
Outcome-full ts out o l =
    All-of-Member (λ t. mem_text t.id (ids_of out) ≡ true) ts
      (λ t m. occ-mem_text t.id (ids_of out) (
        occ_of_length (ids_of out) (ids_of ts) t.id (Outcome-occ ts out o)
          (length-map out _ ∙ l ∙ sym (length-map ts _)) (Member-occ t ts m)))

pub topo_sort-Outcome :
    (ts out : List TaskDef)
    → DistinctIds ts
    → topo_sort ts ≡ sorted out
    → Outcome ts out × (length out ≡ length ts)
topo_sort-Outcome ts out u h = elim (Built-cases (build (by_id ts []) ts [] [])) [
  | inl (t, d, e) ↦ absurd (unknown-ne-sorted t d (sym (topo_sort-unknown ts t d e) ∙ h))
  | inr (n, adj, e) ↦
      let (o, p, c) = built_Outcome ts n adj u e in
      let (q, l) = judged-sorted ts o out (sym (topo_sort-built ts n adj o e p) ∙ h) in
      subst (λ (v : List TaskDef). Outcome ts v × (length v ≡ length ts)) q (c, l)
]
  where
    unknown-ne-sorted : (t d : Text) → unknown_task t d ≢ sorted out
    unknown-ne-sorted t d k = cc

-- For tasks with distinct ids: if `topoSort` returns a list, then it holds tasks of the given list
-- only, each of them, and as many, and every task stands behind all tasks it depends on.
pub topo_sort_sound :
    (ts out : List TaskDef)
    → DistinctIds ts
    → topo_sort ts ≡ sorted out
    → InOrder [] out
      × All (λ t. Member t ts) out
      × All (λ t. mem_text t.id (ids_of out) ≡ true) ts
      × (length out ≡ length ts)
topo_sort_sound ts out u h =
    let (o, l) = topo_sort-Outcome ts out u h in (o.order, o.members, Outcome-full ts out o l, l)

once-DistinctIds : (ts : List TaskDef) → ((x : Text) → occ x (ids_of ts) ≤ 1) → DistinctIds ts
unfolding occ
once-DistinctIds [] f = tt
once-DistinctIds (t ∷ ts) f = (
  elim (Bool-cases (mem_text t.id (ids_of ts))) [
    | inr e ↦ e
    | inl e ↦ absurd (ground (arith, f t.id, mem_text-occ t.id (ids_of ts) e, text_eq_refl t.id))
  ],
  once-DistinctIds ts (λ x. ground (arith, f x)),
)

pub topo_sort-DistinctIds :
    (ts out : List TaskDef) → DistinctIds ts → topo_sort ts ≡ sorted out → DistinctIds out
topo_sort-DistinctIds ts out u h = once-DistinctIds out (topo_sort-Outcome ts out u h).0.once

last_of-known :
    (x : Text) (ts : List TaskDef) (o : Option TaskDef)
    → mem_text x (ids_of ts) ≡ true
    → last_of x ts o ≢ none
unfolding last_of mem_text
last_of-known x [] o h e = ground arith
last_of-known x (t ∷ ts) o h e = elim (Bool-cases (text_eq t.id x)) [
  | inl f ↦ last_of-some x ts t (rw f at e)
  | inr f ↦
      last_of-known x ts o (ground (arith, h, f, text_eq_sound x t.id, text_eq_refl x)) (rw f at e)
]

add_edges-built :
    (ids : Dict TaskDef) (t : Text) (ds : List Text) (n : Dict ℕ) (adj : Dict (List Text))
    → All (λ d. get d ids ≢ none) ds
    → (a : Dict (List Text)) × (add_edges ids t ds n adj ≡ built n a)
unfolding add_edges
add_edges-built ids t [] n adj h = (adj, refl)
add_edges-built ids t (d ∷ ds) n adj h = elim (Option-cases (get d ids)) [
  | inl e ↦ absurd (h.0 e)
  | inr (u, e) ↦ rw (e, add_edges) (add_edges-built ids t ds n (add_child d t adj) h.1)
]

build-built :
    (ids : Dict TaskDef) (ts : List TaskDef) (n : Dict ℕ) (adj : Dict (List Text))
    → All (λ t. All (λ d. get d ids ≢ none) t.depends_on) ts
    → (m : Dict ℕ) × (a : Dict (List Text)) × (build ids ts n adj ≡ built m a)
unfolding build
build-built ids [] n adj h = (n, adj, refl)
build-built ids (t ∷ ts) n adj h =
    let n' = put t.id (length t.depends_on) n in
    let (a, e) = add_edges-built ids t.id t.depends_on n' adj h.0 in
    rw (e, build) (build-built ids ts n' a h.1)

-- A dependency that is known and of a smaller rank.
abbrev pub RankedDep : (Text → ℕ) → List TaskDef → TaskDef → Text → Type 0
RankedDep rank ts t d = (mem_text d (ids_of ts) ≡ true) × (rank d < rank t.id)

abbrev pub RankedDeps : (Text → ℕ) → List TaskDef → TaskDef → Type 0
RankedDeps rank ts t = All (RankedDep rank ts t) t.depends_on

abbrev pub Ranked : (Text → ℕ) → List TaskDef → Type 0
Ranked rank ts = All (RankedDeps rank ts) ts

module _ (ts out : List TaskDef) (rank : Text → ℕ) (o : Outcome ts out) (r : Ranked rank ts) where
  dep_full :
      (d : Text)
      → ((v : TaskDef) → v.id ≡ d → Member v ts → 0 < occ v.id (ids_of out))
      → mem_text d (ids_of ts) ≡ true
      → mem_text d (ids_of out) ≡ true
  dep_full d f known =
      let (v, n, e) = task_of_occ d ts (mem_text-occ d (ids_of ts) known) in
      subst (λ (y : Text). mem_text y (ids_of out) ≡ true) e
        (occ-mem_text v.id (ids_of out) (f v e n))

  -- By induction on the rank.
  rank_full : (k : ℕ) (t : TaskDef) → rank t.id < k → Member t ts → 0 < occ t.id (ids_of out)
  rank_full zero t h m = absurd (omega arith)
  rank_full (suc k) t h m =
      let deps = All-Member (λ v. RankedDeps rank ts v) r m in
      o.full t m (
        All-of-Member (λ d. mem_text d (ids_of out) ≡ true) t.depends_on
          (λ d n.
            let less = All-Member (λ c. RankedDep rank ts t c) deps n in
            dep_full d (λ v e w. rank_full k v (omega (arith, h, less.1, ap rank e)) w) less.0))

  rank_length : DistinctIds ts → length out ≡ length ts
  rank_length u = omega (
    arith,
    length-le_of_occ (ids_of out) (ids_of ts) (Outcome-occ ts out o),
    length-le_of_occ (ids_of ts) (ids_of out) each,
    length-map out (λ (t : TaskDef). t.id),
    length-map ts (λ (t : TaskDef). t.id),
  )
    where
      each : (x : Text) → occ x (ids_of ts) ≤ occ x (ids_of out)
      each x = elim (dec_lt 0 (occ x (ids_of ts))) [
        | no q ↦ omega (arith, q)
        | yes q ↦
            let (t, m, e) = task_of_occ x ts q in
            let p = rank_full (suc (rank t.id)) t (omega arith) m in
            omega (arith, DistinctIds-occ x ts u, subst (λ (y : Text). 0 < occ y (ids_of out)) e p)
      ]

-- `topoSort` returns a list for tasks with distinct ids that depend on tasks of the list only, if
-- the ids have ranks by which every task is above those it depends on.
pub topo_sort_complete :
    (ts : List TaskDef) (rank : Text → ℕ)
    → DistinctIds ts
    → Ranked rank ts
    → (out : List TaskDef) × (topo_sort ts ≡ sorted out)
unfolding get
topo_sort_complete ts rank u r =
    let known =
      All-of-Member (λ t. All (λ d. get d (by_id ts []) ≢ none) t.depends_on) ts
        (λ t m.
          All-of-Member (λ d. get d (by_id ts []) ≢ none) t.depends_on
            (λ d n e.
              last_of-known d ts none
                (All-Member (λ c. RankedDep rank ts t c)
                  (All-Member (λ v. RankedDeps rank ts v) r m) n).0
                (sym (get-by_id d ts []) ∙ e))) in
    let (n, adj, e) = build-built (by_id ts []) ts [] [] known in
    let (o, p, c) = built_Outcome ts n adj u e in
    (o, topo_sort-built ts n adj o e p ∙ rw (same (rank_length ts o rank c r u)) refl)
  where
    same : {a b : ℕ} → a ≡ b → (a == b) ≡ true
    same h = ground (arith, h)
