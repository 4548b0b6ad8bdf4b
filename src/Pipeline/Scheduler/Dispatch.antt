-- ===== src/Pipeline/Scheduler/Dispatch.antt =====
-- What is dispatched (apps/web/src/lib/dag-scheduler.ts, `dispatchQueued`).
use lattik_studio.Prelude.{
  ℕ, ◌+◌, ◌-◌, ◌≤◌, ◌≡◌, inl, inr, refl, ap, ◌∙◌, Bool, true, false, Option, none, some, List, [],
  ◌∷◌, Text, text_eq_sound, if◌then◌else◌, length, take, length-take, Bool-cases, arith,
}
use lattik_studio.Pipeline.Runs.{DagRow, DagRun, update_runs, any_run}
use lattik_studio.Pipeline.Enqueueing.{Outside}
use lattik_studio.Pipeline.Dispatching.{
  count_running, queued_by_date, has_id, claimable, claim_run, or_unknown, roll_back, link_run,
  start_claimed, dispatch_one, dispatch_all, dispatch_queued,
}

-- No two runs have the same id.
abbrev pub IdsOnce : List DagRun → Type 0
IdsOnce [] = Unit
IdsOnce (r ∷ rs) = (any_run (has_id r.id) rs ≡ false) × IdsOnce rs

-- A change that leaves the id of a run.
abbrev pub KeepsId : (DagRun → DagRun) → Type 0
KeepsId change = (r : DagRun) → (change r).id ≡ r.id

module _ (test : DagRun → Bool) (change : DagRun → DagRun) (k : KeepsId change) where
  any-update :
      (x : Text) (rs : List DagRun)
      → any_run (has_id x) (update_runs test change rs) ≡ any_run (has_id x) rs
  unfolding any_run update_runs
  any-update x [] = refl
  any-update x (r ∷ rs) = ground (arith, k r, any-update x rs)

  pub update-IdsOnce : (rs : List DagRun) → IdsOnce rs → IdsOnce (update_runs test change rs)
  unfolding update_runs
  update-IdsOnce [] u = tt
  update-IdsOnce (r ∷ rs) u = (
    ap (λ (x : Text). any_run (has_id x) (update_runs test change rs)) same_id
        ∙ any-update r.id rs
        ∙ u.0,
    update-IdsOnce rs u.1,
  )
    where
      same_id : (if test r then change r else r).id ≡ r.id
      same_id = ground (arith, k r)

module _ (d : DagRow) where
  count-untouched :
      (id : Text) (change : DagRun → DagRun) (rs : List DagRun)
      → any_run (has_id id) rs ≡ false
      → count_running d (update_runs (claimable id) change rs) ≡ count_running d rs
  unfolding any_run update_runs count_running
  count-untouched id change [] h = refl
  count-untouched id change (r ∷ rs) h = ground (arith, h, count-untouched id change rs)

  count-claim :
      (id : Text) (change : DagRun → DagRun) (rs : List DagRun)
      → IdsOnce rs
      → count_running d (update_runs (claimable id) change rs) ≤ count_running d rs + 1
  unfolding update_runs count_running
  count-claim id change [] u = omega arith
  count-claim id change (r ∷ rs) u = ground (
    arith,
    count-claim id change rs u.1,
    count-untouched id change rs,
    text_eq_sound r.id id,
    u.0,
  )

  count-roll_back :
      (id : Text) (now : ℕ) (rs : List DagRun)
      → count_running d (update_runs (has_id id) (roll_back now) rs) ≤ count_running d rs
  unfolding update_runs count_running
  count-roll_back id now [] = omega arith
  count-roll_back id now (r ∷ rs) = ground (arith, count-roll_back id now rs)

  count-link :
      (id : Text) (now : ℕ) (w : Text) (rs : List DagRun)
      → count_running d (update_runs (has_id id) (link_run now w) rs) ≡ count_running d rs
  unfolding update_runs count_running
  count-link id now w [] = refl
  count-link id now w (r ∷ rs) = ground (arith, count-link id now w rs)

  count-start :
      (now : ℕ) (run : DagRun) (w : Option Text) (links : Bool) (rs : List DagRun)
      → IdsOnce rs
      → (count_running d (start_claimed now run w links rs).0 ≤ count_running d rs)
        × IdsOnce (start_claimed now run w links rs).0
  count-start now run none links rs u =
      (count-roll_back run.id now rs, update-IdsOnce _ (roll_back now) (λ r. refl) rs u)
  count-start now run (some w) true rs u = (
    omega (arith, count-link run.id now w rs),
    update-IdsOnce _ (link_run now w) (λ r. refl) rs u,
  )
  count-start now run (some w) false rs u =
      (count-roll_back run.id now rs, update-IdsOnce _ (roll_back now) (λ r. refl) rs u)

  count-one :
      (o : Outside) (now : ℕ) (run : DagRun) (rs : List DagRun)
      → IdsOnce rs
      → (count_running d (dispatch_one o d now run rs).0 ≤ count_running d rs + 1)
        × IdsOnce (dispatch_one o d now run rs).0
  unfolding dispatch_one
  count-one o now run rs u = elim (Bool-cases (any_run (claimable run.id) rs)) [
    | inr e ↦ rw (e, dispatch_one) (omega arith, u)
    | inl e ↦
        rw (e, dispatch_one)
          (let (c, v) =
              count-start now run (o.start run) (o.links run) _
                (update-IdsOnce (claimable run.id) (claim_run now _) (λ r. refl) rs u) in
            (omega (arith, c, count-claim run.id (claim_run now _) rs u), v))
  ]

  count-all :
      (o : Outside) (now : ℕ) (queue rs : List DagRun)
      → IdsOnce rs
      → count_running d (dispatch_all o d now queue rs).0 ≤ count_running d rs + length queue
  unfolding dispatch_all
  count-all o now [] rs u = omega arith
  count-all o now (run ∷ queue) rs u =
      let (c, v) = count-one o now run rs u in
      omega (arith, c, count-all o now queue (dispatch_one o d now run rs).0 v)

-- On runs with distinct ids: if no more runs of a pipeline and branch are running than its limit
-- allows, then so it is behind a dispatch.
pub dispatch_bound :
    (o : Outside) (d : DagRow) (now : ℕ) (runs : List DagRun)
    → IdsOnce runs
    → count_running d runs ≤ d.max_active_runs
    → count_running d (dispatch_queued o d now runs).0 ≤ d.max_active_runs
unfolding dispatch_queued
dispatch_bound o d now runs u h =
    let slots = d.max_active_runs - count_running d runs in
    omega (
      arith,
      h,
      count-all d o now (take slots (queued_by_date d runs)) runs u,
      length-take slots (queued_by_date d runs),
    )

none-claimable :
    (id sha : Text) (now : ℕ) (rs : List DagRun)
    → any_run (claimable id) (update_runs (claimable id) (claim_run now sha) rs) ≡ false
unfolding any_run update_runs
none-claimable id sha now [] = refl
none-claimable id sha now (r ∷ rs) = ground (arith, none-claimable id sha now rs)

link-claimable :
    (id w : Text) (now : ℕ) (rs : List DagRun)
    → any_run (claimable id) (update_runs (has_id id) (link_run now w) rs)
      ≡ any_run (claimable id) rs
unfolding any_run update_runs
link-claimable id w now [] = refl
link-claimable id w now (r ∷ rs) = ground (arith, link-claimable id w now rs)

-- When a run has been selected by two ticks, and the workflow that the first one starts is linked:
-- the second tick, of any time, pipeline and surroundings, starts nothing and changes no row.
pub dispatch_once :
    (o o' : Outside) (d d' : DagRow) (now now' : ℕ) (run : DagRun) (runs : List DagRun) (w : Text)
    → o.start run ≡ some w
    → o.links run ≡ true
    → let first = (dispatch_one o d now run runs).0 in
      dispatch_one o' d' now' run first ≡ (first, [])
unfolding dispatch_one
dispatch_once o o' d d' now now' run runs w s l =
    elim (Bool-cases (any_run (claimable run.id) runs)) [
      | inr e ↦ rw (e, dispatch_one, e) refl
      | inl e ↦
          let sha = or_unknown (o.bundle_sha d.branch) in
          let claimed = update_runs (claimable run.id) (claim_run now sha) runs in
          let done = link-claimable run.id w now claimed ∙ none-claimable run.id sha now runs in
          rw (e, dispatch_one, s, l, done) refl
    ]
