-- ===== src/Pipeline/Reconciler/Laws.antt =====
-- What a reconciliation leaves (apps/web/src/lib/dag-reconciler.ts).
use lattik_studio.Prelude.{
  ℕ, suc, ◌+◌, ◌≡◌, inl, inr, refl, ◌∙◌, Bool, true, not, ◌&&◌, ◌||◌, Option, none, some, List, [],
  ◌∷◌, Text, text_eq, text_eq_sound, text_eq_refl, mem_text, if◌then◌else◌, length, length-append,
  All, Bool-cases, arith,
}
use lattik_studio.Pipeline.Runs.{DagRow, ParsedDag}
use lattik_studio.Pipeline.Reconciler.{
  Entry, existing_of, unchanged_row, is_archived, new_row, upsert_dag, Progress, write_entry,
  take_entry, take_entries, archive_rows, archive_unseen,
}

-- The rows of the other branches.
unfoldable pub other_rows : Text → List DagRow → List DagRow
other_rows branch [] = []
other_rows branch (d ∷ ds) =
    if text_eq d.branch branch then other_rows branch ds else d ∷ other_rows branch ds

-- Every active row of the branch has one of the ids.
abbrev pub OnlySeen : Text → List Text → List DagRow → Type 0
OnlySeen branch seen =
    All (λ d. (not (text_eq d.branch branch) || (is_archived d || mem_text d.id seen)) ≡ true)

upsert-other_rows :
    (branch : Text) (new : DagRow) (rows : List DagRow)
    → new.branch ≡ branch
    → other_rows branch (upsert_dag new rows) ≡ other_rows branch rows
unfolding upsert_dag other_rows
upsert-other_rows branch new [] h = ground (arith, h, text_eq_refl branch)
upsert-other_rows branch new (d ∷ ds) h = ground (
  arith,
  h,
  upsert-other_rows branch new ds h,
  text_eq_sound d.branch new.branch,
  text_eq_refl branch,
)

-- The entries taken so far.
abbrev taken : Progress → ℕ
taken s = s.processed + s.unchanged + length s.errors

-- One entry.
abbrev TakesOne : Text → Progress → Progress → Type 0
TakesOne branch s s' =
    (other_rows branch s'.rows ≡ other_rows branch s.rows) × (taken s' ≡ suc (taken s))

write_entry-TakesOne :
    (branch : Text) (e : Entry) (p : Option ParsedDag) (s : Progress)
    → TakesOne branch s (write_entry branch e p s)
write_entry-TakesOne branch e none s = (refl, omega (arith, length-append s.errors (e.path ∷ [])))
write_entry-TakesOne branch e (some p) s =
    (upsert-other_rows branch (new_row branch e p) s.rows refl, omega arith)

take_entry-TakesOne :
    (branch : Text) (e : Entry) (o : Option DagRow) (p : Option ParsedDag) (s : Progress)
    → TakesOne branch s (take_entry branch e o p s)
take_entry-TakesOne branch e none p s = write_entry-TakesOne branch e p s
take_entry-TakesOne branch e (some d) p s = (refl, omega arith)

pub take_entries_lem :
    (load : Text → Option ParsedDag) (branch : Text) (before : List DagRow) (es : List Entry)
    (s : Progress)
    → let s' = take_entries load branch before es s in
      (other_rows branch s'.rows ≡ other_rows branch s.rows) × (taken s' ≡ taken s + length es)
unfolding take_entries
take_entries_lem load branch before [] s = (refl, omega arith)
take_entries_lem load branch before (e ∷ es) s =
    let o = unchanged_row e (existing_of branch e.path before none) in
    let (f, n) = take_entry-TakesOne branch e o (load e.path) s in
    let (g, m) = take_entries_lem load branch before es (take_entry branch e o (load e.path) s) in
    (g ∙ f, omega (arith, n, m))

archive-other_rows :
    (now : ℕ) (branch : Text) (test : DagRow → Bool) (rows : List DagRow)
    → other_rows branch (archive_rows now branch test rows).0 ≡ other_rows branch rows
unfolding archive_rows other_rows
archive-other_rows now branch test [] = refl
archive-other_rows now branch test (d ∷ ds) = ground (arith, archive-other_rows now branch test ds)

archive-OnlySeen :
    (now : ℕ) (branch : Text) (seen : List Text) (test : DagRow → Bool) (rows : List DagRow)
    → ((d : DagRow) → test d ≡ not (mem_text d.id seen))
    → OnlySeen branch seen (archive_rows now branch test rows).0
unfolding archive_rows
archive-OnlySeen now branch seen test [] h = tt
archive-OnlySeen now branch seen test (d ∷ ds) h =
    elim (Bool-cases (text_eq d.branch branch && (not (is_archived d) && test d))) [
      | inl e ↦ rw (e, archive_rows) (ground arith, archive-OnlySeen now branch seen test ds h)
      | inr e ↦
          rw (e, archive_rows) (ground (arith, e, h d), archive-OnlySeen now branch seen test ds h)
    ]

pub unseen_lem :
    (now : ℕ) (branch : Text) (seen : List Text) (rows : List DagRow)
    → let rows' = (archive_unseen now branch seen rows).0 in
      OnlySeen branch seen rows' × (other_rows branch rows' ≡ other_rows branch rows)
unfolding mem_text
unseen_lem now branch [] rows = (
  archive-OnlySeen now branch [] (λ d. true) rows (λ d. refl),
  archive-other_rows now branch (λ d. true) rows,
)
unseen_lem now branch (x ∷ xs) rows = (
  archive-OnlySeen now branch (x ∷ xs) (λ d. not (mem_text d.id (x ∷ xs))) rows (λ d. refl),
  archive-other_rows now branch (λ d. not (mem_text d.id (x ∷ xs))) rows,
)
