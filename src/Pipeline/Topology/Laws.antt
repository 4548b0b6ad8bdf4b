-- ===== src/Pipeline/Topology/Laws.antt =====
-- What `topoSort` promises (apps/web/src/lib/dag-topology.ts).
use lattik_studio.Prelude.{
  ℕ, zero, suc, ◌+◌, ◌≤◌, ◌<◌, ◌≡◌, ◌≢◌, inl, inr, refl, sym, ap, ◌∙◌, true, Option, none, some,
  List, [], ◌∷◌, Text, text_eq, text_eq_sound, text_eq_refl, mem_text, length, arith, Dict, get,
  Bool-cases, Member, here, there, All,
}
use lattik_studio.Pipeline.Topology.{
  TaskDef, by_id, Built, unknown_dep, built, children, relax, start_ready, push_task, sort_loop,
  build, out_of_fuel, conclude, sort_built, topo_sort,
}
use lattik_studio.Pipeline.Topology.Count.{occ, pending-none, zero-pending}
use lattik_studio.Pipeline.Topology.Relax.{positives, relax_work}
use lattik_studio.Pipeline.Topology.Edges.{
  ids_of, DistinctIds, get-by_id, degree_of, KeysOnce, build_lem, ids_of-Member, degree_of-Member,
  edges-Member, edges-degree_of, degree_of-last_of,
}
use lattik_studio.Pipeline.Topology.Order.{
  InOrder, Between, some-ne-none, start-Settled, start_work, sort_loop_lem,
}

loop_total :
    (f : ℕ) (ids : Dict TaskDef) (adj : Dict (List Text)) (degrees : Dict ℕ) (ready : List Text)
    (out : List TaskDef)
    → positives degrees + length ready ≤ f
    → sort_loop f ids adj degrees ready out ≢ none
unfolding sort_loop
loop_total f ids adj degrees [] out h e = cc
loop_total zero ids adj degrees (x ∷ ready) out h e = absurd (omega arith)
loop_total (suc f) ids adj degrees (x ∷ ready) out h e =
    let r = relax (children x adj) degrees ready in
    loop_total f ids adj r.0 r.1 (push_task (get x ids) out)
      (omega (arith, h, relax_work (children x adj) degrees ready)) e

conclude_total :
    (ts : List TaskDef) (o : Option (List TaskDef)) → o ≢ none → conclude ts o ≢ out_of_fuel
conclude_total ts none h e = h refl
conclude_total ts (some out) h e = ground (arith, e)

-- `topoSort` ends on every list of tasks.
pub topo_sort_total : (ts : List TaskDef) → topo_sort ts ≢ out_of_fuel
unfolding topo_sort
topo_sort_total ts = go (build (by_id ts []) ts [] [])
  where
    go : (b : Built) → sort_built ts (by_id ts []) b ≢ out_of_fuel
    go (unknown_dep t d) e = cc
    go (built n adj) e =
        conclude_total ts (sort_loop (length n) (by_id ts []) adj n (start_ready n) [])
          (loop_total (length n) (by_id ts []) adj n (start_ready n) []
            (omega (arith, start_work n)))
          e

pub mem_text-occ : (x : Text) (xs : List Text) → mem_text x xs ≡ true → 0 < occ x xs
unfolding mem_text occ
mem_text-occ x [] h = cc
mem_text-occ x (y ∷ xs) h = ground (arith, h, mem_text-occ x xs, text_eq_sound x y, text_eq_refl x)

pub occ-mem_text : (x : Text) (xs : List Text) → 0 < occ x xs → mem_text x xs ≡ true
unfolding mem_text occ
occ-mem_text x [] h = absurd (omega arith)
occ-mem_text x (y ∷ xs) h = ground (arith, h, occ-mem_text x xs, text_eq_sound y x, text_eq_refl x)

pub task_of_occ :
    (x : Text) (ts : List TaskDef)
    → 0 < occ x (ids_of ts)
    → (t : TaskDef) × Member t ts × (t.id ≡ x)
unfolding occ
task_of_occ x [] h = absurd (omega arith)
task_of_occ x (t ∷ ts) h = elim (Bool-cases (text_eq t.id x)) [
  | inl e ↦ (t, here, text_eq_sound t.id x e)
  | inr e ↦ let (u, m, q) = task_of_occ x ts (ground (arith, h, e)) in (u, there m, q)
]

pub Member-occ : (t : TaskDef) (ts : List TaskDef) → Member t ts → 0 < occ t.id (ids_of ts)
Member-occ t ts m = mem_text-occ t.id (ids_of ts) (ids_of-Member t ts m)

pub DistinctIds-occ : (x : Text) (ts : List TaskDef) → DistinctIds ts → occ x (ids_of ts) ≤ 1
unfolding occ
DistinctIds-occ x [] u = omega arith
DistinctIds-occ x (t ∷ ts) u =
    ground (arith, u.0, DistinctIds-occ x ts u.1, text_eq_sound t.id x, occ-mem_text x (ids_of ts))

-- What the sort of a list with distinct ids has when its loop ends.
pub record Outcome (ts out : List TaskDef) : Type 0 where
  pub order : InOrder [] out
  pub members : All (λ t. Member t ts) out
  pub once : (x : Text) → occ x (ids_of out) ≤ 1
  pub full :
      (t : TaskDef)
      → Member t ts
      → All (λ d. mem_text d (ids_of out) ≡ true) t.depends_on
      → 0 < occ t.id (ids_of out)

-- The state that the loop starts from.
start_Between :
    (ts : List TaskDef) (n : Dict ℕ) (adj : Dict (List Text))
    → DistinctIds ts
    → ((x : Text) → KeysOnce n × (get x n ≡ degree_of x ts none))
    → Between ts adj n (start_ready n) []
unfolding occ
start_Between ts n adj u facts = record {
  settled = λ x. start-Settled x n (facts x).0;
  counts = λ t m.
      (facts t.id).1 ∙ degree_of-Member t ts none u m ∙ ap some (sym (pending-none t.depends_on));
  keys = λ x k e. k (sym (facts x).1 ∙ e);
  named = λ x p e. elim (start-Settled x n (facts x).0) [
    | inl (z, q) ↦ absurd (omega (arith, z, p))
    | inr (z, q) ↦
        absurd (some-ne-none (sym q ∙ (facts x).1 ∙ degree_of-last_of x ts none none (λ r. refl) e))
  ];
  order = tt;
  members = tt;
}

Between-Outcome :
    (ts : List TaskDef) (n : Dict ℕ) (adj : Dict (List Text)) (out : List TaskDef)
    → Between ts adj n [] out
    → Outcome ts out
unfolding occ
Between-Outcome ts n adj out b = record {
  order = b.order;
  members = b.members;
  once = λ x. ground (arith, b.settled x);
  full = λ t m a.
      ground (arith, b.settled t.id, b.counts t m, zero-pending (ids_of out) t.depends_on a);
}

pub built_Outcome :
    (ts : List TaskDef) (n : Dict ℕ) (adj : Dict (List Text))
    → DistinctIds ts
    → build (by_id ts []) ts [] [] ≡ built n adj
    → (out : List TaskDef) × (sort_loop (length n) (by_id ts []) adj n (start_ready n) []
        ≡ some out)
      × Outcome ts out
unfolding get occ
built_Outcome ts n adj u e =
    let facts = λ (x d : Text). build_lem (by_id ts []) ts [] n [] adj x d tt e in
    let (out, m, p, b) =
      sort_loop_lem ts adj (by_id ts []) (λ x. get-by_id x ts [])
        (λ t d m. omega (arith, (facts t.id d).2, edges-Member t ts d u m))
        (λ x d p. edges-degree_of x d ts none (omega (arith, (facts x d).2, p)))
        (λ x k q. k (degree_of-last_of x ts none none (λ r. refl) q)) (length n) n (start_ready n)
        [] (omega (arith, start_work n))
        (start_Between ts n adj u (λ x. ((facts x []).0, (facts x []).1))) in
    (out, p, Between-Outcome ts m adj out b)
