-- ===== src/Pipeline/Scheduler/Enqueue.antt =====
-- What is enqueued (apps/web/src/lib/dag-scheduler.ts, `enqueueMissedRuns`).
use lattik_studio.Prelude.{
  ℕ, ◌≡◌, inl, inr, refl, sym, ap, ◌∙◌, Bool, true, ◌||◌, Option, some, List, [], ◌∷◌, ◌++◌,
  text_eq_refl, if◌then◌else◌, All, Member, here, there, Bool-cases, append_assoc, append-nil,
  arith, subst,
}
use lattik_studio.Pipeline.Runs.{DagRow, DagRun, any_run}
use lattik_studio.Pipeline.Enqueueing.{
  Outside, boundaries, boundary_cap, last_or, queued_run, queued_runs, conflicts, insert_runs,
  enqueue_at, enqueue_from, enqueue_parsed, enqueue_missed_runs, start_cursor, Start, from,
}
use lattik_studio.Pipeline.Scheduler.Moments.{Taken, boundaries-Taken}

module _ (o : Outside) (d : DagRow) (now : ℕ) where
  any-append :
      (test : DagRun → Bool) (rs ss : List DagRun)
      → any_run test (rs ++ ss) ≡ (any_run test rs || any_run test ss)
  unfolding any_run
  any-append test [] ss = refl
  any-append test (r ∷ rs) ss = ground (arith, any-append test rs ss)

  conflicts_self : (r : DagRun) → conflicts r r ≡ true
  conflicts_self r = rw (text_eq_refl r.id) refl

  more_queued :
      (new : DagRun) (news more : List DagRun)
      → ((r : DagRun) → Member r more → Member r news)
      → (r : DagRun) → Member r (new ∷ more)
      → Member r (new ∷ news)
  more_queued new news more k r here = here
  more_queued new news more k r (there m) = there (k r m)

  -- An insertion adds rows behind those there are, all of them rows to insert.
  insert-extends :
      (news runs : List DagRun)
      → (more : List DagRun) × (insert_runs news runs ≡ runs ++ more)
        × ((r : DagRun) → Member r more → Member r news)
  unfolding insert_runs
  insert-extends [] runs = ([], sym (append-nil runs), λ r m. m)
  insert-extends (new ∷ news) runs = elim (Bool-cases (any_run (conflicts new) runs)) [
    | inl e ↦
        let (more, f, k) = insert-extends news runs in
        (more, rw (e, insert_runs) f, λ r m. there (k r m))
    | inr e ↦
        let (more, f, k) = insert-extends news (runs ++ new ∷ []) in
        (
          new ∷ more,
          rw (e, insert_runs) (f ∙ append_assoc runs (new ∷ []) more),
          more_queued new news more k,
        )
  ]

  insert-covers :
      (news runs : List DagRun)
      → All (λ r. any_run (conflicts r) (insert_runs news runs) ≡ true) news
  unfolding insert_runs any_run
  insert-covers [] runs = tt
  insert-covers (new ∷ news) runs =
      let one = if any_run (conflicts new) runs then runs else runs ++ new ∷ [] in
      let (more, f, k) = insert-extends news one in
      (
        ap (any_run (conflicts new)) f
            ∙ ground (
              arith,
              any-append (conflicts new) one more,
              any-append (conflicts new) runs (new ∷ []),
              conflicts_self new,
            ),
        insert-covers news one,
      )

-- The interval of a pipeline's schedule behind a moment.
abbrev pub interval_at : (o : Outside) → DagRow → ℕ → Option o.Interval
interval_at o d c = o.cron_parse d.parsed.schedule d.parsed.timezone c

-- The row of the pipeline with the last of the moments as its bookmark.
abbrev pub bookmarked : DagRow → List ℕ → DagRow
bookmarked d [] = d
bookmarked d (t ∷ ts) = record d { last_enqueued = some (last_or t ts) }

pub bookmarked_twice :
    (d : DagRow) (ts us : List ℕ) → bookmarked (bookmarked d ts) us ≡ bookmarked d (ts ++ us)
bookmarked_twice d [] us = refl
bookmarked_twice d (t ∷ ts) [] = ap (λ (vs : List ℕ). bookmarked d (t ∷ vs)) (sym (append-nil ts))
bookmarked_twice d (t ∷ ts) (u ∷ us) =
    ap (λ (v : ℕ). record d { last_enqueued = some v }) (last_of t ts)
  where
    last_of : (t : ℕ) (ts : List ℕ) → last_or u us ≡ last_or t (ts ++ u ∷ us)
    last_of t [] = refl
    last_of t (v ∷ ts) = last_of v ts

module _ (o : Outside) (d : DagRow) (now : ℕ) where
  -- What the runs have behind the insertion of moments: rows are added behind those that were there,
  -- all for the moments, and each moment has a row of its id or of the pipeline, branch and moment.
  abbrev pub Enqueued : List DagRun → List ℕ → List DagRun → Type 0
  Enqueued runs ts runs' =
      ((more : List DagRun) × (runs' ≡ runs ++ more)
        × ((r : DagRun) → Member r more → (t : ℕ) × Member t ts × (r ≡ queued_run o d now t)))
      × All (λ t. any_run (conflicts (queued_run o d now t)) runs' ≡ true) ts

  each_queued :
      (ts : List ℕ) (runs : List DagRun)
      → All (λ r. any_run (conflicts r) runs ≡ true) (queued_runs o d now ts)
      → All (λ t. any_run (conflicts (queued_run o d now t)) runs ≡ true) ts
  unfolding queued_runs
  each_queued [] runs a = tt
  each_queued (t ∷ ts) runs a = (a.0, each_queued ts runs a.1)

  queued_of :
      (ts : List ℕ) (r : DagRun)
      → Member r (queued_runs o d now ts)
      → (t : ℕ) × Member t ts × (r ≡ queued_run o d now t)
  unfolding queued_runs
  queued_of [] r m = elim m [ ]
  queued_of (t ∷ ts) r here = (t, here, refl)
  queued_of (t ∷ ts) r (there m) = let (u, n, e) = queued_of ts r m in (u, there n, e)

  pub at_lem :
      (ts : List ℕ) (runs : List DagRun)
      → let x = enqueue_at o d now ts runs in
        (x.0 ≡ bookmarked d ts) × (x.2 ≡ ts) × Enqueued runs ts x.1
  at_lem [] runs = (refl, refl, (([], sym (append-nil runs), λ r m. elim m [ ]), tt))
  at_lem (t ∷ ts) runs =
      let news = queued_runs o d now (t ∷ ts) in
      let (more, f, k) = insert-extends o d now news runs in
      (
        refl,
        refl,
        (
          (more, f, λ r m. queued_of (t ∷ ts) r (k r m)),
          each_queued (t ∷ ts) _ (insert-covers o d now news runs),
        ),
      )

pub enqueue_missed-from :
    (o : Outside) (d : DagRow) (now c : ℕ) (i : o.Interval) (runs : List DagRun)
    → start_cursor o d now ≡ from c
    → interval_at o d c ≡ some i
    → enqueue_missed_runs o d now runs
      ≡ some (enqueue_at o d now (boundaries o.cron_next now boundary_cap i) runs)
unfolding enqueue_missed_runs
enqueue_missed-from o d now c i runs e p =
    ap (λ (s : Start). enqueue_from o d boundary_cap now s runs) e
    ∙ ap (λ (q : Option o.Interval). enqueue_parsed o d boundary_cap now q runs) p

-- A call of `enqueueMissedRuns` that starts from a moment, and whose schedule can be parsed,
-- returns. The moments that it enqueues are either all those of the schedule behind it that are not
-- in the future, in their order, or the first of them, as many as the cap. The last is the bookmark
-- of the pipeline's row, which is else unchanged; the runs that were there stay, those added are
-- queued runs of the moments, and every moment has a run of the pipeline and branch, or one of its
-- id.
pub enqueue_missed_lem :
    (o : Outside) (d : DagRow) (now c : ℕ) (i : o.Interval) (runs : List DagRun)
    → start_cursor o d now ≡ from c
    → interval_at o d c ≡ some i
    → (x : DagRow × List DagRun × List ℕ) × (enqueue_missed_runs o d now runs ≡ some x)
      × Taken o.cron_next now boundary_cap i x.2
      × (x.0 ≡ bookmarked d x.2)
      × Enqueued o d now runs x.2 x.1
enqueue_missed_lem o d now c i runs e p =
    let due = boundaries o.cron_next now boundary_cap i in
    let (f, g, k) = at_lem o d now due runs in
    (
      enqueue_at o d now due runs,
      enqueue_missed-from o d now c i runs e p,
      subst (Taken o.cron_next now boundary_cap i) (sym g)
          (boundaries-Taken o.cron_next now boundary_cap i),
      f ∙ ap (bookmarked d) (sym g),
      subst (λ ts. Enqueued o d now runs ts (enqueue_at o d now due runs).1) (sym g) k,
    )
