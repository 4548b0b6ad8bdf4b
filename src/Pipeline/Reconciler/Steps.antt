-- ===== src/Pipeline/Reconciler/Steps.antt =====
-- One entry of a manifest, the id that it adds and the rows that stay active
-- (apps/web/src/lib/dag-reconciler.ts).
use lattik_studio.Prelude.{
  ◌≡◌, ◌⊎◌, inl, inr, refl, sym, ap, Bool, true, false, not, ◌&&◌, ◌||◌, Option, none, some, List,
  Text, text_eq, text_eq_sound, mem_text, Bool-cases, some_injective, subst, arith,
}
use lattik_studio.Pipeline.Runs.{DagRow, ParsedDag}
use lattik_studio.Pipeline.Reconciler.{
  Entry, dag_row_id, existing_of, unchanged_row, is_archived, new_row, upsert_dag, Progress,
  take_entry,
}
use lattik_studio.Pipeline.Reconciler.Kept.{
  has_active, has_active-upsert, has_active-upsert_new, existing-has_active, mem_text-snoc,
}

abbrev pub is_id : Text → Option Text → Bool
is_id id none = false
is_id id (some x) = text_eq id x

pub is_id-eq : (id : Text) (o : Option Text) → is_id id o ≡ true → o ≡ some id
is_id-eq id none h = cc
is_id-eq id (some x) h = ap some (sym (text_eq_sound id x h))

module _ (load : Text → Option ParsedDag) (branch : Text) (before : List DagRow) where
  -- The id of the row of an entry: that of the active row of its path, if it has the entry's hash,
  -- or else that of the text of the path, if it can be fetched and parsed.
  abbrev pub IdOf : Entry → Text → Type 0
  IdOf e id =
      ((d : DagRow) × (existing_of branch e.path before none ≡ some d)
        × (text_eq d.yaml_hash e.sha256 ≡ true)
        × (is_archived d ≡ false)
        × (id ≡ d.id))
      ⊎ ((p : ParsedDag) × (unchanged_row e (existing_of branch e.path before none) ≡ none)
          × (load e.path ≡ some p)
          × (id ≡ dag_row_id p.id branch))

  -- The id that an entry adds to those seen.
  abbrev pub added : Option DagRow → Option ParsedDag → Option Text
  added (some d) p = some d.id
  added none none = none
  added none (some p) = some (dag_row_id p.id branch)

  pub step_seen :
      (e : Entry) (o : Option DagRow) (p : Option ParsedDag) (s : Progress) (id : Text)
      → mem_text id (take_entry branch e o p s).seen ≡ (mem_text id s.seen || is_id id (added o p))
  step_seen e (some d) p s id = mem_text-snoc id d.id s.seen
  step_seen e none none s id = ground arith
  step_seen e none (some p) s id = mem_text-snoc id (dag_row_id p.id branch) s.seen

  unchanged_inv :
      (e : Entry) (o : Option DagRow) (d : DagRow)
      → unchanged_row e o ≡ some d
      → (o ≡ some d) × (text_eq d.yaml_hash e.sha256 ≡ true) × (is_archived d ≡ false)
  unchanged_inv e none d h = cc
  unchanged_inv e (some x) d h =
      elim (Bool-cases (text_eq x.yaml_hash e.sha256 && not (is_archived x))) [
        | inl f ↦
            subst
              (λ (y : DagRow).
                (some x ≡ some y) × (text_eq y.yaml_hash e.sha256 ≡ true) × (is_archived y ≡ false))
              (some_injective (rw f at h)) (refl, ground (arith, f), ground (arith, f))
        | inr f ↦ absurd (cc (rw f at h))
      ]

  pub added-IdOf :
      (e : Entry) (o : Option DagRow) (p : Option ParsedDag) (id : Text)
      → unchanged_row e (existing_of branch e.path before none) ≡ o
      → load e.path ≡ p
      → added o p ≡ some id
      → IdOf e id
  added-IdOf e (some d) p id f g h =
      let (a, b, c) = unchanged_inv e (existing_of branch e.path before none) d f in
      inl (d, a, b, c, some_injective (sym h))
  added-IdOf e none none id f g h = cc
  added-IdOf e none (some p) id f g h = inr (p, f, g, some_injective (sym h))

  pub IdOf-added :
      (e : Entry) (id : Text)
      → IdOf e id
      → added (unchanged_row e (existing_of branch e.path before none)) (load e.path) ≡ some id
  IdOf-added e id (inl (d, f, h, a, i)) = rw (f, unchanged_row, h, a, i) refl
  IdOf-added e id (inr (p, f, g, i)) = rw (f, g, i) refl

  -- What the loop keeps: a seen id has an active row, as has any that had one before.
  abbrev pub Sound : Progress → Type 0
  Sound s =
      ((id : Text) → mem_text id s.seen ≡ true → has_active branch id s.rows ≡ true)
      × ((id : Text) → has_active branch id before ≡ true → has_active branch id s.rows ≡ true)

  pub step_id-has_active :
      (e : Entry) (o : Option DagRow) (p : Option ParsedDag) (s : Progress) (id : Text)
      → unchanged_row e (existing_of branch e.path before none) ≡ o
      → Sound s
      → added o p ≡ some id
      → has_active branch id (take_entry branch e o p s).rows ≡ true
  step_id-has_active e (some d) p s id f k h =
      let (a, b, c) = unchanged_inv e (existing_of branch e.path before none) d f in
      subst (λ (i : Text). has_active branch i s.rows ≡ true) (some_injective h)
        (k.1 d.id (found (existing-has_active branch e.path before none d a c)))
    where
      found :
          (none ≡ some d) ⊎ (has_active branch d.id before ≡ true)
          → has_active branch d.id before ≡ true
      found (inl n) = cc
      found (inr g) = g
  step_id-has_active e none none s id f k h = cc
  step_id-has_active e none (some p) s id f k h =
      subst (λ (i : Text). has_active branch i (upsert_dag (new_row branch e p) s.rows) ≡ true)
        (some_injective h) (has_active-upsert_new (new_row branch e p) s.rows refl)

  pub step_rows :
      (e : Entry) (o : Option DagRow) (p : Option ParsedDag) (s : Progress) (id : Text)
      → has_active branch id s.rows ≡ true
      → has_active branch id (take_entry branch e o p s).rows ≡ true
  step_rows e (some d) p s id h = h
  step_rows e none none s id h = h
  step_rows e none (some p) s id h = has_active-upsert branch id (new_row branch e p) s.rows h
