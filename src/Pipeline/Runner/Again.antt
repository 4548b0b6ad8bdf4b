-- ===== src/Pipeline/Runner/Again.antt =====
-- A second execution of a run (apps/web/src/workflows/dag-runner.ts).
use lattik_studio.Prelude.{
  ◌≡◌, inl, inr, refl, sym, ap, ◌∙◌, true, some, List, [], ◌∷◌, ◌++◌, Text, text_eq_sound, mem_text,
  Dict, get, All, All-Member, All-of-Member, arith,
}
use lattik_studio.Pipeline.Topology.{TaskDef, sorted, topo_sort}
use lattik_studio.Pipeline.Topology.Count.{mem_text-concat}
use lattik_studio.Pipeline.Topology.Edges.{DistinctIds}
use lattik_studio.Pipeline.Topology.Order.{InOrder}
use lattik_studio.Pipeline.Topology.Promise.{topo_sort_sound}
use lattik_studio.Pipeline.Attempts.{TerminalStatus, Attempt}
use lattik_studio.Pipeline.Runner.{World, run_fresh, run_task_with_deps, run_tasks}
use lattik_studio.Pipeline.Runner.Statuses.{Solved, blocked_same, run_tasks-Solved}
use lattik_studio.Pipeline.Runner.Safety.{TerminalStatus-cases, skipped-blocked}

module _ (w w' : World) (run default : Text) where
  -- A task whose earned status is the one it got gives it again.
  task_again :
      (t : TaskDef) (s s' priors priors' : Dict TerminalStatus)
      → get t.id priors' ≡ some (run_task_with_deps w run default t s priors []).0
      → All (λ d. get d s ≡ get d s') t.depends_on
      → (run_task_with_deps w' run default t s' priors' []).0
        ≡ (run_task_with_deps w run default t s priors []).0
  unfolding run_task_with_deps run_fresh
  task_again t s s' priors priors' e h =
      elim (TerminalStatus-cases (run_task_with_deps w run default t s priors []).0) [
        | inl f ↦ rw (e, f, run_task_with_deps) refl
        | inr (inl f) ↦ rw (e, f, run_task_with_deps) refl
        | inr (inr f) ↦
            rw
              (
                e,
                f,
                run_task_with_deps,
                run_fresh,
                sym (blocked_same t.depends_on s s' h) ∙ skipped-blocked w run default t s priors f,
              )
              refl
      ]

  again :
      (before : List Text) (ts : List TaskDef) (s s' priors priors' : Dict TerminalStatus)
      → InOrder before ts
      → ((d : Text) → mem_text d before ≡ true → get d s ≡ get d s')
      → All (λ t. get t.id priors' ≡ get t.id s) ts
      → All (Solved w run default priors s) ts
      → All (Solved w' run default priors' s') ts
      → All (λ t. get t.id s' ≡ get t.id s) ts
  unfolding mem_text
  again before [] s s' priors priors' o f p a b = tt
  again before (t ∷ ts) s s' priors priors' o f p a b =
      let deps =
        All-of-Member (λ d. get d s ≡ get d s') t.depends_on
          (λ d m. f d (All-Member (λ c. mem_text c before ≡ true) o.0 m)) in
      let same = b.0 ∙ ap some (task_again t s s' priors priors' (p.0 ∙ a.0) deps) ∙ sym a.0 in
      (
        same,
        again (before ++ t.id ∷ []) ts s s' priors priors' o.1
            (λ d k.
              ground (arith, k, f d, mem_text-concat d t.id before, same, text_eq_sound d t.id))
            p.1 a.1 b.1,
      )

-- For pipelines whose tasks have distinct ids and that the sort accepts: if a second execution
-- finds the final status of each task of the first, then it ends with the same statuses, whatever
-- its sandboxes would give.
pub run_again_same :
    (w w' : World) (run default : Text) (ts out : List TaskDef)
    (priors priors' : Dict TerminalStatus) (rows rows' : List Attempt)
    → DistinctIds ts
    → topo_sort ts ≡ sorted out
    → All (λ t. get t.id priors' ≡ get t.id (run_tasks w run default out [] priors rows).0) out
    → All
        (λ t.
          get t.id (run_tasks w' run default out [] priors' rows').0
          ≡ get t.id (run_tasks w run default out [] priors rows).0)
        out
unfolding mem_text
run_again_same w w' run default ts out priors priors' rows rows' u h p =
    again w w' run default [] out (run_tasks w run default out [] priors rows).0
      (run_tasks w' run default out [] priors' rows').0 priors priors'
      (topo_sort_sound ts out u h).0 (λ d k. absurd (ground (arith, k))) p
      (run_tasks-Solved w run default ts out priors rows u h)
      (run_tasks-Solved w' run default ts out priors' rows' u h)
