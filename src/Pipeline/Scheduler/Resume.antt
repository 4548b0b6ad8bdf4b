-- ===== src/Pipeline/Scheduler/Resume.antt =====
-- Calls of `enqueueMissedRuns` one after the other (apps/web/src/lib/dag-scheduler.ts).
use lattik_studio.Prelude.{
  ℕ, ◌-◌, ◌≤◌, ◌<◌, ◌≡◌, refl, sym, ap, ◌∙◌, some, List, [], ◌∷◌, ◌++◌, length, arith,
  length-append,
}
use lattik_studio.Pipeline.Runs.{DagRow, DagRun}
use lattik_studio.Pipeline.Enqueueing.{
  Outside, boundaries, boundary_cap, last_or, enqueue_at, enqueue_missed_runs, start_cursor, from,
}
use lattik_studio.Pipeline.Scheduler.Moments.{
  behind, boundaries_resume, boundaries_more, nothing_behind, GoesOn, boundaries-parse,
  length-boundaries_mono,
}
use lattik_studio.Pipeline.Scheduler.Enqueue.{
  interval_at, bookmarked, bookmarked_twice, at_lem, enqueue_missed-from,
}

module _ (o : Outside) (d : DagRow) (c : ℕ) (i : o.Interval)
    (g : GoesOn o.cron_next (interval_at o d)) (p : interval_at o d c ≡ some i) where
  -- The moments of a call at a time.
  abbrev due_at : ℕ → List ℕ
  due_at now = boundaries o.cron_next now boundary_cap i

  -- A call behind one that enqueued moments starts from the interval behind them.
  next_call :
      (now now' : ℕ) (due : List ℕ) (runs : List DagRun)
      → start_cursor o d now' ≡ from c
      → interval_at o d (last_or c due) ≡ some (behind o.cron_next i due)
      → let x = enqueue_at o d now due runs in
        enqueue_missed_runs o x.0 now' x.1
        ≡ some (
            enqueue_at o x.0 now'
              (boundaries o.cron_next now' boundary_cap (behind o.cron_next i due))
              x.1)
  unfolding behind
  next_call now now' [] runs e q = enqueue_missed-from o d now' c i runs e p
  next_call now now' (t ∷ ts) runs e q =
      let x = enqueue_at o d now (t ∷ ts) runs in
      enqueue_missed-from o x.0 now' (last_or t ts) (behind o.cron_next i (t ∷ ts)) x.1 refl q

  -- The moments of two calls are those of one at the later time.
  due-append :
      (now now' : ℕ)
      → now ≤ now'
      → length (due_at now') < boundary_cap
      → due_at now'
        ≡ due_at now ++ boundaries o.cron_next now' boundary_cap (behind o.cron_next i (due_at now))
  due-append now now' h l =
      let rest =
        boundaries o.cron_next now' (boundary_cap - length (due_at now))
          (behind o.cron_next i (due_at now)) in
      let split =
        boundaries_resume o.cron_next now now' boundary_cap i h
          (omega (arith, l, length-boundaries_mono o.cron_next now now' boundary_cap i h)) in
      split
      ∙ ap (λ ts. due_at now ++ ts)
          (sym (
            boundaries_more o.cron_next now' (boundary_cap - length (due_at now)) boundary_cap
              (behind o.cron_next i (due_at now)) (omega arith)
              (omega (arith, l, ap length split, length-append (due_at now) rest))))

-- A call that starts from a moment, with a schedule that can be parsed, and that is not cut off by
-- the cap leaves nothing to enqueue: a second one at the same time enqueues no moment, and changes
-- neither the pipeline's row nor the runs. An interval of the schedule that is parsed at a moment it
-- has given goes on in the same way.
pub enqueue_again :
    (o : Outside) (d : DagRow) (now c : ℕ) (i : o.Interval) (runs : List DagRun)
    → start_cursor o d now ≡ from c
    → interval_at o d c ≡ some i
    → GoesOn o.cron_next (interval_at o d)
    → length (boundaries o.cron_next now boundary_cap i) < boundary_cap
    → (x : DagRow × List DagRun × List ℕ) × (enqueue_missed_runs o d now runs ≡ some x)
      × (enqueue_missed_runs o x.0 now x.1 ≡ some (x.0, x.1, []))
enqueue_again o d now c i runs e p g l =
    let due = boundaries o.cron_next now boundary_cap i in
    let x = enqueue_at o d now due runs in
    (
      x,
      enqueue_missed-from o d now c i runs e p,
      next_call o d c i g p now now due runs e
            (boundaries-parse o.cron_next (interval_at o d) now boundary_cap c i g p)
          ∙ ap (λ ts. some (enqueue_at o x.0 now ts x.1))
              (nothing_behind o.cron_next now boundary_cap boundary_cap i l),
    )

-- Two calls, the second at a later time and on what the first left, enqueue together the moments
-- that one call at the later time enqueues, and leave the pipeline's row as it does. The start is the same at both times, the schedule can be
-- parsed, the one call is not cut off by the cap, and an interval of the schedule that is parsed at
-- a moment it has given goes on in the same way.
pub enqueue_resume :
    (o : Outside) (d : DagRow) (now now' c : ℕ) (i : o.Interval) (runs : List DagRun)
    → now ≤ now'
    → start_cursor o d now ≡ from c
    → start_cursor o d now' ≡ from c
    → interval_at o d c ≡ some i
    → GoesOn o.cron_next (interval_at o d)
    → length (boundaries o.cron_next now' boundary_cap i) < boundary_cap
    → (x : DagRow × List DagRun × List ℕ) × (y : DagRow × List DagRun × List ℕ) × (z : DagRow
        × List DagRun
        × List ℕ)
      × (enqueue_missed_runs o d now runs ≡ some x)
      × (enqueue_missed_runs o x.0 now' x.1 ≡ some y)
      × (enqueue_missed_runs o d now' runs ≡ some z)
      × (z.2 ≡ x.2 ++ y.2)
      × (z.0 ≡ y.0)
enqueue_resume o d now now' c i runs h e e' p g l =
    let a = boundaries o.cron_next now boundary_cap i in
    let b = boundaries o.cron_next now' boundary_cap (behind o.cron_next i a) in
    let full = boundaries o.cron_next now' boundary_cap i in
    let x = enqueue_at o d now a runs in
    let y = enqueue_at o x.0 now' b x.1 in
    let z = enqueue_at o d now' full runs in
    let (fx, gx, kx) = at_lem o d now a runs in
    let (fy, gy, ky) = at_lem o x.0 now' b x.1 in
    let (fz, gz, kz) = at_lem o d now' full runs in
    let joined = due-append o d c i g p now now' h l in
    (
      x,
      y,
      z,
      enqueue_missed-from o d now c i runs e p,
      next_call o d c i g p now now' a runs e'
          (boundaries-parse o.cron_next (interval_at o d) now boundary_cap c i g p),
      enqueue_missed-from o d now' c i runs e' p,
      gz ∙ joined ∙ sym (ap (λ ts. ts ++ y.2) gx ∙ ap (λ ts. a ++ ts) gy),
      fz
          ∙ ap (bookmarked d) joined
          ∙ sym (fy ∙ ap (λ (r : DagRow). bookmarked r b) fx ∙ bookmarked_twice d a b),
    )
