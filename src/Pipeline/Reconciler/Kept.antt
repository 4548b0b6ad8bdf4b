-- ===== src/Pipeline/Reconciler/Kept.antt =====
-- Active rows of a branch, in the steps of a reconciliation
-- (apps/web/src/lib/dag-reconciler.ts).
use lattik_studio.Prelude.{
  ℕ, ◌≡◌, ◌⊎◌, inl, inr, ap, ◌∙◌, Bool, true, false, not, ◌&&◌, ◌||◌, Option, some, List, [], ◌∷◌,
  ◌++◌, Text, text_eq, text_eq_sound, text_eq_refl, mem_text, Bool-cases, some_injective, arith,
}
use lattik_studio.Pipeline.Runs.{DagRow}
use lattik_studio.Pipeline.Reconciler.{
  existing_of, is_archived, upsert_dag, archive_rows, archive_unseen,
}

-- A row of the branch with the id is active.
unfoldable pub has_active : Text → Text → List DagRow → Bool
has_active branch id [] = false
has_active branch id (d ∷ ds) =
    (text_eq d.branch branch && (text_eq d.id id && not (is_archived d))) || has_active branch id ds

pub has_active-upsert :
    (branch id : Text) (new : DagRow) (rows : List DagRow)
    → has_active branch id rows ≡ true
    → has_active branch id (upsert_dag new rows) ≡ true
unfolding has_active upsert_dag
has_active-upsert branch id new [] h = cc
has_active-upsert branch id new (d ∷ ds) h = ground (arith, h, has_active-upsert branch id new ds)

pub has_active-upsert_new :
    (new : DagRow) (rows : List DagRow)
    → is_archived new ≡ false
    → has_active new.branch new.id (upsert_dag new rows) ≡ true
unfolding has_active upsert_dag
has_active-upsert_new new [] h = ground (arith, h, text_eq_refl new.branch, text_eq_refl new.id)
has_active-upsert_new new (d ∷ ds) h = ground (arith, h, has_active-upsert_new new ds h)

-- A row that is found for a path is one of the rows.
pub existing-has_active :
    (branch path : Text) (ds : List DagRow) (o : Option DagRow) (d : DagRow)
    → existing_of branch path ds o ≡ some d
    → is_archived d ≡ false
    → (o ≡ some d) ⊎ (has_active branch d.id ds ≡ true)
unfolding has_active existing_of
existing-has_active branch path [] o d h a = inl h
existing-has_active branch path (x ∷ ds) o d h a =
    elim (Bool-cases (text_eq x.branch branch && text_eq x.source_path path)) [
      | inl e ↦ elim (existing-has_active branch path ds (some x) d (rw e at h) a) [
        | inl f ↦
            let same = some_injective f in
            inr (
              ground (
                arith,
                e,
                a,
                ap (λ (y : DagRow). y.id) same,
                ap (λ (y : DagRow). is_archived y) same,
                text_eq_refl d.id,
              ))
        | inr g ↦ inr (ground (arith, g))
      ]
      | inr e ↦ elim (existing-has_active branch path ds o d (rw e at h) a) [
        | inl f ↦ inl f
        | inr g ↦ inr (ground (arith, g))
      ]
    ]

pub mem_text-snoc :
    (x y : Text) (ys : List Text) → mem_text x (ys ++ y ∷ []) ≡ (mem_text x ys || text_eq x y)
unfolding mem_text
mem_text-snoc x y [] = ground arith
mem_text-snoc x y (z ∷ ys) = ground (arith, mem_text-snoc x y ys)

archive_keeps :
    (now : ℕ) (branch id : Text) (test : DagRow → Bool) (rows : List DagRow)
    → ((d : DagRow) → text_eq d.id id ≡ true → test d ≡ false)
    → has_active branch id rows ≡ true
    → has_active branch id (archive_rows now branch test rows).0 ≡ true
unfolding archive_rows has_active
archive_keeps now branch id test [] k h = cc
archive_keeps now branch id test (d ∷ ds) k h =
    elim (Bool-cases (text_eq d.branch branch && (not (is_archived d) && test d))) [
      | inl e ↦
          rw (e, archive_rows) (ground (arith, archive_keeps now branch id test ds k, h, e, k d))
      | inr e ↦ rw (e, archive_rows) (ground (arith, archive_keeps now branch id test ds k, h))
    ]

pub archive_unseen-keeps :
    (now : ℕ) (branch id : Text) (seen : List Text) (rows : List DagRow)
    → mem_text id seen ≡ true
    → has_active branch id rows ≡ true
    → has_active branch id (archive_unseen now branch seen rows).0 ≡ true
unfolding mem_text
archive_unseen-keeps now branch id [] rows m h = cc
archive_unseen-keeps now branch id (x ∷ xs) rows m h =
    archive_keeps now branch id (λ d. not (mem_text d.id (x ∷ xs))) rows
      (λ d e. ap not (ap (λ i. mem_text i (x ∷ xs)) (text_eq_sound d.id id e) ∙ m)) h
