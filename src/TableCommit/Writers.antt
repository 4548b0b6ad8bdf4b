-- ===== src/TableCommit/Writers.antt =====
-- Several writers at once: the parts of `POST` between which others can run, as steps of a world,
-- and what holds of every world they reach.
use lattik_studio.Prelude.{
  ℕ, ◌+◌, ◌≡◌, ◌≢◌, ◌⊎◌, sym, ap, ◌∙◌, Option, none, List, [], ◌∷◌, ◌++◌, arith, Option-cases, inl,
  inr, subst, All, text_eq_refl,
}
use lattik_studio.TableCommit.Store.{
  Commit, Database, Columns, ManifestName, Manifests, find_commit, has_version, get_manifest,
}
use lattik_studio.TableCommit.Commit.{
  Request, Reading, manifest_read, proceed, plan, new_name, inserted, transact, settle, settle_on,
}
use lattik_studio.TableCommit.Rows.{transact_inv}
use lattik_studio.TableCommit.Replies.{Stored, there}

-- A request behind its lookups, with the columns of its manifest.
pub record Job : Type 0 where
  pub request : Request
  pub columns : Columns

-- The database, the object store, and the requests under way: those whose manifest is yet to be
-- put, and those whose transaction is yet to run.
pub record World : Type 0 where
  pub database : Database
  pub manifests : Manifests
  pub planned : List Job
  pub written : List Job

abbrev pub read_from : Manifests → ManifestName → Reading
read_from ms n = manifest_read (get_manifest n ms)

-- A part of some request. One that is answered by its lookups, or fails, changes nothing.
pub data Step : World → World → Type 0 where
  look_up :
      (w : World) (r : Request) (cs : Columns)
      → plan r (read_from w.manifests) w.database ≡ proceed cs
      → Step w (record w { planned = (record { request = r; columns = cs }) ∷ w.planned })
  put :
      (w : World) (j : Job) (before after : List Job)
      → w.planned ≡ before ++ j ∷ after
      → Step w (record w {
        manifests = (new_name j.request, j.columns) ∷ w.manifests;
        planned = before ++ after;
        written = j ∷ w.written;
      })
  finish :
      (w : World) (j : Job) (now : ℕ) (before after : List Job)
      → w.written ≡ before ++ j ∷ after
      → Step w
          (record w { database = (settle j.request now w.database).1; written = before ++ after })

abbrev pub empty_world : World
empty_world = record {
  database = record { commits = []; loads = [] };
  manifests = [];
  planned = [];
  written = [];
}

-- The worlds that writers reach from empty tables.
pub data Reachable : World → Type 0 where
  start : Reachable empty_world
  step : {w w' : World} → Reachable w → Step w w' → Reachable w'

-- No two commits of a table have the same version.
abbrev pub Distinct : List Commit → Type 0
Distinct [] = Unit
Distinct (c ∷ cs) = (find_commit (has_version c.table c.version) cs ≡ none) × Distinct cs

abbrev pub HasManifest : Manifests → ManifestName → Type 0
HasManifest ms n = get_manifest n ms ≢ none

abbrev pub name_of : Commit → ManifestName
name_of c = record { table = c.table; version = c.version; load_id = c.load_id }

abbrev pub IsBacked : Manifests → Commit → Type 0
IsBacked ms c = HasManifest ms (name_of c)

abbrev pub IsReady : Manifests → Job → Type 0
IsReady ms j = HasManifest ms (new_name j.request)

pub record IsValid (w : World) : Type 0 where
  pub distinct : Distinct w.database.commits
  pub backed : All (IsBacked w.manifests) w.database.commits
  pub ready : All (IsReady w.manifests) w.written

All-mono :
    {A : Type 0} {P Q : A → Type 0} (xs : List A) → ((x : A) → P x → Q x) → All P xs → All Q xs
All-mono [] f a = tt
All-mono (x ∷ xs) f a = (f x a.0, All-mono xs f a.1)

All-pick :
    {A : Type 0} (P : A → Type 0) (xs ys : List A) {x : A}
    → All P (xs ++ x ∷ ys)
    → P x × All P (xs ++ ys)
All-pick P [] ys a = a
All-pick P (z ∷ xs) ys a = let (p, b) = All-pick P xs ys a.1 in (p, (a.0, b))

HasManifest-put :
    (ms : Manifests) (m n : ManifestName) (cs : Columns)
    → HasManifest ms n
    → HasManifest ((m, cs) ∷ ms) n
unfolding get_manifest
HasManifest-put ms m n cs h e = ground (arith, h)

put-HasManifest : (ms : Manifests) (n : ManifestName) (cs : Columns) → HasManifest ((n, cs) ∷ ms) n
unfolding get_manifest
put-HasManifest ms n cs e = ground (arith, text_eq_refl n.table, text_eq_refl n.load_id)

-- A transaction changes nothing, or it does both its statements where the version was free.
settle-cases :
    (r : Request) (now : ℕ) (d : Database)
    → ((settle r now d).1 ≡ d)
      ⊎ ((find_commit (has_version r.table (r.base_version + 1)) d.commits ≡ none)
          × ((settle r now d).1 ≡ inserted r now d))
unfolding settle
settle-cases r now d = elim (Option-cases (transact r now d)) [
  | inl e ↦ inl (ap (λ (o : Option Database). (settle_on r d o).1) e)
  | inr (d', e) ↦
      let (free, j) = transact_inv r now d d' e in
      inr (free, ap (λ (o : Option Database). (settle_on r d o).1) e ∙ j)
]

step-IsValid : {w w' : World} → Step w w' → IsValid w → IsValid w'
step-IsValid (look_up w r cs h) v = record {
  distinct = v.distinct;
  backed = v.backed;
  ready = v.ready;
}
step-IsValid (put w j before after h) v = record {
  distinct = v.distinct;
  backed =
      All-mono w.database.commits (λ c p. HasManifest-put w.manifests _ (name_of c) j.columns p)
        v.backed;
  ready = (
    put-HasManifest w.manifests (new_name j.request) j.columns,
    All-mono w.written (λ k p. HasManifest-put w.manifests _ (new_name k.request) j.columns p)
        v.ready,
  );
}
step-IsValid (finish w j now before after h) v =
    let (own, others) =
      All-pick (IsReady w.manifests) before after (subst (All (IsReady w.manifests)) h v.ready) in
    elim (settle-cases j.request now w.database) [
      | inl e ↦ record {
        distinct = subst (λ (d : Database). Distinct d.commits) (sym e) v.distinct;
        backed = subst (λ (d : Database). All (IsBacked w.manifests) d.commits) (sym e) v.backed;
        ready = others;
      }
      | inr (free, e) ↦ record {
        distinct = subst (λ (d : Database). Distinct d.commits) (sym e) (free, v.distinct);
        backed =
            subst (λ (d : Database). All (IsBacked w.manifests) d.commits) (sym e) (own, v.backed);
        ready = others;
      }
    ]

-- In every world that writers reach, in whatever order their parts run, no two commits of a table
-- have the same version, every commit's manifest is in the object store, and so is the manifest of
-- every request whose transaction is yet to run.
pub Reachable-IsValid : (w : World) → Reachable w → IsValid w
Reachable-IsValid w start = record { distinct = tt; backed = tt; ready = tt }
Reachable-IsValid w (step {w = v} r s) = step-IsValid s (Reachable-IsValid v r)

-- No part of a request takes a commit away.
pub step_keeps :
    {w w' : World} (c : Commit)
    → Step w w'
    → Stored c w.database.commits
    → Stored c w'.database.commits
step_keeps c (look_up w r cs h) s = s
step_keeps c (put w j before after h) s = s
step_keeps c (finish w j now before after h) s = elim (settle-cases j.request now w.database) [
  | inl e ↦ subst (λ (d : Database). Stored c d.commits) (sym e) s
  | inr (free, e) ↦ subst (λ (d : Database). Stored c d.commits) (sym e) (there s)
]
