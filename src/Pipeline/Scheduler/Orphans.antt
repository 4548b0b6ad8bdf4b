-- ===== src/Pipeline/Scheduler/Orphans.antt =====
-- What is closed (apps/web/src/lib/dag-scheduler.ts, `reconcileOrphanedRuns`).
use lattik_studio.Prelude.{
  ℕ, ◌≡◌, inl, inr, refl, sym, ap, ◌∙◌, false, Option, none, some, List, [], ◌∷◌, Text, text_eq,
  text_eq_refl, text_eq_sound, if◌then◌else◌, map, Bool-cases, arith, subst,
}
use lattik_studio.Pipeline.Runs.{DagRun, RunStatus, update_runs, any_run}
use lattik_studio.Pipeline.Enqueueing.{Outside}
use lattik_studio.Pipeline.Orphans.{
  Tables, is_candidate, candidates, status_of_workflow, close_run, add_note, run_note, close_orphan,
  close_orphans, reconcile_orphaned_runs,
}
use lattik_studio.Pipeline.Dispatching.{has_id}
use lattik_studio.Pipeline.Scheduler.Dispatch.{IdsOnce}

module _ (o : Outside) (now : ℕ) where
  abbrev mirror_status : Option RunStatus → DagRun → DagRun
  mirror_status none r = r
  mirror_status (some s) r = close_run now s (add_note r.notes (run_note r s)) r

  -- What becomes of a run: a candidate gets the status of its workflow, if that failed or was
  -- cancelled.
  abbrev pub mirror : DagRun → DagRun
  mirror r =
      if is_candidate now r then mirror_status (status_of_workflow o r.workflow_run_id) r else r

  abbrev close_by_id : DagRun → Option RunStatus → List DagRun → List DagRun
  close_by_id r none rs = rs
  close_by_id r (some s) rs =
      update_runs (has_id r.id) (close_run now s (add_note r.notes (run_note r s))) rs

  close_runs : List DagRun → List DagRun → List DagRun
  close_runs [] rs = rs
  close_runs (c ∷ cs) rs = close_runs cs (close_by_id c (status_of_workflow o c.workflow_run_id) rs)

  orphan_runs :
      (c : DagRun) (s : Option RunStatus) (db : Tables)
      → (close_orphan now c s db).runs ≡ close_by_id c s db.runs
  orphan_runs c none db = refl
  orphan_runs c (some s) db = refl

  orphans_runs :
      (cs : List DagRun) (db : Tables) → (close_orphans o now cs db).runs ≡ close_runs cs db.runs
  unfolding close_orphans close_runs
  orphans_runs [] db = refl
  orphans_runs (c ∷ cs) db =
      orphans_runs cs _
      ∙ ap (close_runs cs) (orphan_runs c (status_of_workflow o c.workflow_run_id) db)

  absent-update :
      (id : Text) (change : DagRun → DagRun) (rs : List DagRun)
      → any_run (has_id id) rs ≡ false
      → update_runs (has_id id) change rs ≡ rs
  unfolding any_run update_runs
  absent-update id change [] h = refl
  absent-update id change (r ∷ rs) h = ground (arith, h, absent-update id change rs)

  other_id :
      (c r : DagRun) (s : Option RunStatus) (rs : List DagRun)
      → text_eq c.id r.id ≡ false
      → close_by_id c s (r ∷ rs) ≡ r ∷ close_by_id c s rs
  unfolding update_runs
  other_id c r none rs h = refl
  other_id c r (some s) rs h = ground (arith, h, text_eq_sound r.id c.id, text_eq_refl r.id)

  close_runs-cons :
      (cs : List DagRun) (r : DagRun) (rs : List DagRun)
      → any_run (has_id r.id) cs ≡ false
      → close_runs cs (r ∷ rs) ≡ r ∷ close_runs cs rs
  unfolding close_runs any_run
  close_runs-cons [] r rs h = refl
  close_runs-cons (c ∷ cs) r rs h =
      ap (close_runs cs)
        (other_id c r (status_of_workflow o c.workflow_run_id) rs (ground (arith, h)))
      ∙ close_runs-cons cs r _ (ground (arith, h))

  absent-candidates :
      (x : Text) (rs : List DagRun)
      → any_run (has_id x) rs ≡ false
      → any_run (has_id x) (candidates now rs) ≡ false
  unfolding any_run candidates
  absent-candidates x [] h = refl
  absent-candidates x (r ∷ rs) h = ground (arith, h, absent-candidates x rs)

  close_self :
      (r : DagRun) (s : Option RunStatus) (rs : List DagRun)
      → any_run (has_id r.id) rs ≡ false
      → (close_by_id r s (r ∷ rs) ≡ mirror_status s r ∷ rs) × ((mirror_status s r).id ≡ r.id)
  unfolding update_runs
  close_self r none rs h = (refl, refl)
  close_self r (some s) rs h = (
    rw
        (
          text_eq_refl r.id,
          absent-update r.id (close_run now s (add_note r.notes (run_note r s))) rs h,
        )
        refl,
    refl,
  )

  close_candidates :
      (rs : List DagRun) → IdsOnce rs → close_runs (candidates now rs) rs ≡ map mirror rs
  unfolding close_runs candidates
  close_candidates [] u = refl
  close_candidates (r ∷ rs) u = elim (Bool-cases (is_candidate now r)) [
    | inr e ↦
        rw (e, candidates)
          (close_runs-cons (candidates now rs) r rs (absent-candidates r.id rs u.0)
            ∙ ap (λ ss. r ∷ ss) (close_candidates rs u.1))
    | inl e ↦
        let s = status_of_workflow o r.workflow_run_id in
        let (f, g) = close_self r s rs u.0 in
        rw (e, candidates)
          (ap (close_runs (candidates now rs)) f
            ∙ close_runs-cons (candidates now rs) (mirror_status s r) rs (
                subst (λ (x : Text). any_run (has_id x) (candidates now rs) ≡ false) (sym g)
                  (absent-candidates r.id rs u.0))
            ∙ ap (λ ss. mirror_status s r ∷ ss) (close_candidates rs u.1))
  ]

-- On runs with distinct ids the loop over the candidates gives the table in which every run that is
-- running, has a workflow and was not updated for a minute has the status of its workflow, if that is
-- `failed` or `cancelled`, with the note and the times, and every other run is as it was.
pub reconcile_orphaned_lem :
    (o : Outside) (now : ℕ) (db : Tables)
    → IdsOnce db.runs
    → (reconcile_orphaned_runs o now db).runs ≡ map (mirror o now) db.runs
unfolding reconcile_orphaned_runs
reconcile_orphaned_lem o now db u =
    orphans_runs o now (candidates now db.runs) db ∙ close_candidates o now db.runs u
