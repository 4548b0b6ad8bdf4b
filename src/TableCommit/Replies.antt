-- ===== src/TableCommit/Replies.antt =====
-- The replies of `POST`: replays, conflicts, and the one writer that wins a version.
use lattik_studio.Prelude.{
  ℕ, ◌+◌, ◌≤◌, ◌≡◌, ◌≢◌, ◌⊎◌, refl, sym, ap, ◌∙◌, Bool, true, Option, none, some, List, [], ◌∷◌,
  Text, text_eq, text_eq_refl, arith, ltb, Bool-cases, Option-cases, inl, inr, subst,
}
use lattik_studio.TableCommit.Store.{
  Commit, Database, ManifestName, find_commit, has_version, has_load, latest, newer,
}
use lattik_studio.TableCommit.Commit.{
  Reply, committed, replayed, Reading, read_failed, manifest_read, plan, transact, settle, post,
  new_commit, settle_on, conflict_with, follow, plan_existing, plan_reading, Request,
}
use lattik_studio.TableCommit.Rows.{transact_inv}

-- The row is in the table.
pub data Stored (c : Commit) : List Commit → Type 0 where
  here : {cs : List Commit} → Stored c (c ∷ cs)
  there : {d : Commit} {cs : List Commit} → Stored c cs → Stored c (d ∷ cs)

pub some_injective : {x y : Commit} → some x ≡ some y → x ≡ y
some_injective h = cc

latest-none :
    (t : Text) (cs : List Commit) (c : Commit)
    → Stored c cs
    → text_eq c.table t ≡ true
    → latest t cs ≢ none
unfolding latest
latest-none t [] c s h e = elim s [ ]
latest-none t (d ∷ cs) c here h e = ground arith
latest-none t (d ∷ cs) c (there s) h e = ground (arith, latest-none t cs c s h)

newer-cases : (c : Commit) (o : Option Commit) → (newer c o ≡ c) ⊎ (o ≡ some (newer c o))
newer-cases c none = inl refl
newer-cases c (some d) = elim (Bool-cases (ltb c.version d.version)) [
  | inl e ↦ inr (rw e refl)
  | inr e ↦ inl (rw e refl)
]

latest-Stored :
    (t : Text) (cs : List Commit) (m : Commit)
    → latest t cs ≡ some m
    → Stored m cs × (text_eq m.table t ≡ true)
unfolding latest
latest-Stored t [] m e = cc
latest-Stored t (d ∷ cs) m e = elim (Bool-cases (text_eq d.table t)) [
  | inr n ↦ let (a, b) = latest-Stored t cs m (rw n at e) in (there a, b)
  | inl y ↦
      subst (λ (x : Commit). Stored x (d ∷ cs) × (text_eq x.table t ≡ true))
        (some_injective (rw y at e))
        (elim (newer-cases d (latest t cs)) [
          | inl f ↦
              subst (λ (x : Commit). Stored x (d ∷ cs) × (text_eq x.table t ≡ true)) (sym f)
                (here, y)
          | inr g ↦ let (a, b) = latest-Stored t cs (newer d (latest t cs)) g in (there a, b)
        ])
]

latest-bound :
    (t : Text) (cs : List Commit) (c m : Commit)
    → Stored c cs
    → text_eq c.table t ≡ true
    → latest t cs ≡ some m
    → c.version ≤ m.version
unfolding latest
latest-bound t [] c m s h e = elim s [ ]
latest-bound t (d ∷ cs) c m here h e = ground arith
latest-bound t (d ∷ cs) c m (there s) h e = elim (Option-cases (latest t cs)) [
  | inl n ↦ absurd (latest-none t cs c s h n)
  | inr (x, n) ↦ ground (arith, n, latest-bound t cs c x s h n)
]

-- Where a table has a commit, `latest` finds one of its commits, and no commit of the table has a
-- greater version.
pub latest_greatest :
    (t : Text) (cs : List Commit) (c : Commit)
    → Stored c cs
    → text_eq c.table t ≡ true
    → (m : Commit) × (latest t cs ≡ some m)
      × Stored m cs
      × (text_eq m.table t ≡ true)
      × (c.version ≤ m.version)
latest_greatest t cs c s h = elim (Option-cases (latest t cs)) [
  | inl e ↦ absurd (latest-none t cs c s h e)
  | inr (m, e) ↦ let (a, b) = latest-Stored t cs m e in (m, e, a, b, latest-bound t cs c m s h e)
]

find_commit-front :
    (test : Commit → Bool) (c : Commit) (cs : List Commit)
    → test c ≡ true
    → find_commit test (c ∷ cs) ≡ some c
unfolding find_commit
find_commit-front test c cs e = rw e refl

conflict_with-committed :
    (r : Request) (o : Option Commit) (v : ℕ) (l : Text) → conflict_with r o ≢ committed v l
conflict_with-committed r none v l e = cc
conflict_with-committed r (some c) v l e = cc

settle_on-committed :
    (r : Request) (d d' : Database) (o : Option Database) (v : ℕ) (l : Text)
    → settle_on r d o ≡ (committed v l, d')
    → o ≡ some d'
settle_on-committed r d d' none v l h = absurd (
    conflict_with-committed r (latest r.table d.commits) v l (ap (λ (x : Reply × Database). x.0) h))
settle_on-committed r d d' (some e) v l h = ap (λ (x : Reply × Database). some x.1) h

module _ (r : Request) (now : ℕ) (d d' : Database) (v : ℕ) (l : Text) where
  follow_reading :
      (g : Reading)
      → follow r now d (plan_reading r g) ≡ (committed v l, d')
      → settle r now d ≡ (committed v l, d')
  follow_reading read_failed h = cc
  follow_reading (manifest_read o) h = h

  follow_existing :
      (read : ManifestName → Reading) (existing base : Option Commit)
      → follow r now d (plan_existing r read existing base) ≡ (committed v l, d')
      → settle r now d ≡ (committed v l, d')
  follow_existing read (some c) base h = cc
  follow_existing read none none h = h
  follow_existing read none (some c) h = follow_reading (read _) h

  post_committed :
      (read : ManifestName → Reading)
      → post r read now d ≡ (committed v l, d')
      → transact r now d ≡ some d'
  unfolding post plan settle
  post_committed read h =
      settle_on-committed r d d' (transact r now d) v l (follow_existing read _ _ h)

-- A request that has been committed, sent again, is answered with its version and its load as a
-- replay, whatever the store holds, and leaves the database as it was.
pub post_replay :
    (r : Request) (read read' : ManifestName → Reading) (now now' v : ℕ) (l : Text)
    (d d' : Database)
    → post r read now d ≡ (committed v l, d')
    → post r read' now' d' ≡ (replayed (r.base_version + 1) r.load_id, d')
unfolding post plan settle
post_replay r read read' now now' v l d d' h =
    let j = (transact_inv r now d d' (post_committed r now d d' v l read h)).1 in
    ap
      (λ (o : Option Commit).
        follow r now' d'
          (plan_existing r read' o (find_commit (has_version r.table r.base_version) d'.commits)))
      (ap (λ (x : Database). find_commit (has_load r.table r.load_id) x.commits) j
        ∙ find_commit-front (has_load r.table r.load_id) (new_commit r now) d.commits
            (ground (arith, text_eq_refl r.table, text_eq_refl r.load_id)))
