-- ===== src/Pipeline/Reconciler/Promise.antt =====
-- Which rows of a branch are active behind a reconciliation
-- (apps/web/src/lib/dag-reconciler.ts).
use lattik_studio.Prelude.{
  ℕ, ◌+◌, ◌≡◌, ◌⊎◌, inl, inr, refl, sym, ap, ◌∙◌, true, false, Option, none, some, List, [], ◌∷◌,
  Text, text_eq, text_eq_refl, mem_text, length, All, All-Member, All-of-Member, Member, here,
  there, Bool-cases, some_injective, subst, arith,
}
use lattik_studio.Pipeline.Runs.{DagRow, ParsedDag}
use lattik_studio.Pipeline.Reconciler.{
  Entry, dag_row_id, existing_of, unchanged_row, is_archived, Progress, take_entry, take_entries,
  ReconcileResult, at_start, reconcile_dags,
}
use lattik_studio.Pipeline.Reconciler.Laws.{other_rows, OnlySeen, take_entries_lem, unseen_lem}
use lattik_studio.Pipeline.Reconciler.Kept.{has_active, archive_unseen-keeps}
use lattik_studio.Pipeline.Reconciler.Steps.{
  IdOf, added, is_id, is_id-eq, step_seen, added-IdOf, IdOf-added, Sound, step_id-has_active,
  step_rows,
}

module _ (load : Text → Option ParsedDag) (branch : Text) (before : List DagRow) where
  -- The row that an entry needs no write for.
  abbrev kept : Entry → Option DagRow
  kept e = unchanged_row e (existing_of branch e.path before none)

  abbrev taken : Entry → Progress → Progress
  taken e s = take_entry branch e (kept e) (load e.path) s

  step-Sound :
      (e : Entry) (s : Progress) → Sound load branch before s → Sound load branch before (taken e s)
  step-Sound e s k = (
    λ id m. elim (Bool-cases (is_id id (added load branch before (kept e) (load e.path)))) [
      | inl a ↦
          step_id-has_active load branch before e (kept e) (load e.path) s id refl k
            (is_id-eq id (added load branch before (kept e) (load e.path)) a)
      | inr a ↦ step_rows load branch before e (kept e) (load e.path) s id (
          k.0 id (ground (arith, m, a, step_seen load branch before e (kept e) (load e.path) s id)))
    ],
    λ id h. step_rows load branch before e (kept e) (load e.path) s id (k.1 id h),
  )

  take_entries-Sound :
      (es : List Entry) (s : Progress)
      → Sound load branch before s
      → Sound load branch before (take_entries load branch before es s)
  unfolding take_entries
  take_entries-Sound [] s k = k
  take_entries-Sound (e ∷ es) s k = take_entries-Sound es (taken e s) (step-Sound e s k)

  take_entries-seen :
      (es : List Entry) (s : Progress) (id : Text)
      → mem_text id s.seen ≡ true
      → mem_text id (take_entries load branch before es s).seen ≡ true
  unfolding take_entries
  take_entries-seen [] s id h = h
  take_entries-seen (e ∷ es) s id h =
      take_entries-seen es (taken e s) id
        (step_seen load branch before e (kept e) (load e.path) s id ∙ ground (arith, h))

  entry_seen :
      (e : Entry) (es : List Entry) (s : Progress) (id : Text)
      → Member e es
      → IdOf load branch before e id
      → mem_text id (take_entries load branch before es s).seen ≡ true
  unfolding take_entries
  entry_seen e [] s id m i = elim m [ ]
  entry_seen e (x ∷ es) s id here i = take_entries-seen es (taken e s) id (
      step_seen load branch before e (kept e) (load e.path) s id
      ∙ rw (IdOf-added load branch before e id i, text_eq_refl id) (ground arith))
  entry_seen e (x ∷ es) s id (there m) i = entry_seen e es (taken x s) id m i

  seen_origin :
      (es : List Entry) (s : Progress) (id : Text)
      → mem_text id (take_entries load branch before es s).seen ≡ true
      → (mem_text id s.seen ≡ true) ⊎ ((e : Entry) × Member e es × IdOf load branch before e id)
  unfolding take_entries
  seen_origin [] s id h = inl h
  seen_origin (e ∷ es) s id h = elim (seen_origin es (taken e s) id h) [
    | inr (x, m, i) ↦ inr (x, there m, i)
    | inl g ↦ elim (Bool-cases (is_id id (added load branch before (kept e) (load e.path)))) [
      | inl a ↦ inr (
        e,
        here,
        added-IdOf load branch before e (kept e) (load e.path) id refl refl
            (is_id-eq id (added load branch before (kept e) (load e.path)) a),
      )
      | inr a ↦
          inl (ground (arith, g, a, step_seen load branch before e (kept e) (load e.path) s id))
    ]
  ]

-- A row of the branch with the entry's id is active, or the entry's text cannot be fetched or parsed
-- and its path has no active row with its hash.
abbrev pub KeptOrFailed :
    (Text → Option ParsedDag) → Text → List DagRow → List DagRow → Entry → Type 0
KeptOrFailed load branch rows rows' e =
    ((id : Text) × IdOf load branch rows e id × (has_active branch id rows' ≡ true))
    ⊎ ((unchanged_row e (existing_of branch e.path rows none) ≡ none) × (load e.path ≡ none))

kept_or_failed :
    (load : Text → Option ParsedDag) (branch : Text) (rows rows' : List DagRow) (e : Entry)
    (o : Option DagRow) (p : Option ParsedDag)
    → unchanged_row e (existing_of branch e.path rows none) ≡ o
    → load e.path ≡ p
    → ((id : Text) → IdOf load branch rows e id → has_active branch id rows' ≡ true)
    → KeptOrFailed load branch rows rows' e
kept_or_failed load branch rows rows' e (some d) p f g k =
    let i = added-IdOf load branch rows e (some d) p d.id f g refl in inl (d.id, i, k d.id i)
kept_or_failed load branch rows rows' e none (some p) f g k =
    let i = added-IdOf load branch rows e none (some p) (dag_row_id p.id branch) f g refl in
    inl (dag_row_id p.id branch, i, k (dag_row_id p.id branch) i)
kept_or_failed load branch rows rows' e none none f g k = inr (f, g)

reply_eq : (p q : ReconcileResult × List DagRow) → some p ≡ some q → (p.0 ≡ q.0) × (p.1 ≡ q.1)
reply_eq p q h = let e = some_injective h in (ap (λ v. v.0) e, ap (λ v. v.1) e)

-- When a branch is reconciled with a manifest: for every entry, a row of the branch is active
-- afterwards, with the id of the active row that the entry's path had with its hash, or else of the
-- text that can be fetched and parsed, or the entry has neither; the rows of the other branches are
-- what they were, and the numbers of entries written and unchanged and of errors add up to the
-- entries.
pub reconcile_dags_keeps :
    (load : Text → Option ParsedDag) (now : ℕ) (branch : Text) (entries : List Entry)
    (rows rows' : List DagRow) (r : ReconcileResult)
    → reconcile_dags load now branch (some entries) rows ≡ some (r, rows')
    → All (KeptOrFailed load branch rows rows') entries
      × (other_rows branch rows' ≡ other_rows branch rows)
      × (r.dags_processed + r.dags_unchanged + length r.errors ≡ length entries)
unfolding reconcile_dags mem_text
reconcile_dags_keeps load now branch entries rows rows' r h =
    let s = take_entries load branch rows entries (at_start rows) in
    let (f, n) = take_entries_lem load branch rows entries (at_start rows) in
    let (k, g) = unseen_lem now branch s.seen s.rows in
    let (a, b) = reply_eq _ (r, rows') h in
    let sound = take_entries-Sound load branch rows entries (at_start rows) (λ i m. cc, λ i m. m) in
    (
      All-of-Member (KeptOrFailed load branch rows rows') entries (λ e m.
          kept_or_failed load branch rows rows' e _ _ refl refl (λ id i.
            let seen = entry_seen load branch rows e entries (at_start rows) id m i in
            sym (ap (has_active branch id) b)
            ∙ archive_unseen-keeps now branch id s.seen s.rows seen (sound.0 id seen))),
      sym (ap (other_rows branch) b) ∙ g ∙ f,
      subst
          (λ (q : ReconcileResult).
            q.dags_processed + q.dags_unchanged + length q.errors ≡ length entries)
          a (omega (arith, n)),
    )

-- When a branch is reconciled with a manifest and there is no error, a row of the branch that is
-- active afterwards has the id of an entry: that of the active row that its path had with its hash,
-- or else that of its text. All rows of the branch with other ids are archived.
pub reconcile_dags_archives :
    (load : Text → Option ParsedDag) (now : ℕ) (branch : Text) (entries : List Entry)
    (rows rows' : List DagRow) (r : ReconcileResult) (d : DagRow)
    → reconcile_dags load now branch (some entries) rows ≡ some (r, rows')
    → r.errors ≡ []
    → Member d rows'
    → text_eq d.branch branch ≡ true
    → is_archived d ≡ false
    → (e : Entry) × Member e entries × IdOf load branch rows e d.id
unfolding reconcile_dags mem_text
reconcile_dags_archives load now branch entries rows rows' r d h ok m in_branch active =
    let s = take_entries load branch rows entries (at_start rows) in
    let (a, b) = reply_eq _ (r, rows') h in
    let only = subst (OnlySeen branch s.seen) b (unseen_lem now branch s.seen s.rows).0 in
    elim (seen_origin load branch rows entries (at_start rows) d.id
      (ground (arith, in_branch, active, All-Member _ only m))) [ inl n ↦ cc | inr x ↦ x ]
