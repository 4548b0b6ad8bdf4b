-- ===== src/TableCommit/Examples.antt =====
-- Commits on concrete tables, and applications of the theorems to them.
use lattik_studio.Prelude.{
  ℕ, ◌+◌, ◌≤◌, ◌≡◌, refl, true, false, Option, none, some, List, [], ◌∷◌, Text, codes, text_eq,
  mem_text, inr,
}
use lattik_studio.TableCommit.Store.{
  find_commit, Commit, ColumnLoad, Database, Columns, ManifestName, latest, load_of,
}
use lattik_studio.TableCommit.Commit.{
  Request, committed, replayed, Reading, manifest_read, column_of, key_in, transact, settle, post,
  inserted, proceed, new_commit, plan, read_failed,
}
use lattik_studio.TableCommit.Rows.{given, or_before, row_or, transact_loads}
use lattik_studio.TableCommit.Replies.{Stored, here, latest_greatest, post_replay}
use lattik_studio.TableCommit.Manifests.{plan_columns}
use lattik_studio.TableCommit.Read.{
  Pick, pick_all, pick_of, pick_of_row, later, read_ds, loaded, no_loads, object_members,
}
use lattik_studio.TableCommit.Entries.{Listed, pick_all_latest, pick_all_origin}
use lattik_studio.TableCommit.Writers.{
  World, Step, look_up, put, finish, start, step, IsValid, empty_world, Reachable-IsValid,
  step_keeps,
}

abbrev one_column : Columns
one_column = (codes "age", codes "load-1") ∷ []

-- The first commit of a table, and that of another writer on the same base.
abbrev first_request : Request
first_request = record {
  table = codes "s.t";
  base_version = 0;
  load_id = codes "load-1";
  columns = one_column;
  ds = codes "2026-01-01";
  hour = some 3;
}

abbrev other_request : Request
other_request = record first_request { load_id = codes "load-2" }

abbrev no_rows : Database
no_rows = record { commits = []; loads = [] }

abbrev nothing_read : ManifestName → Reading
nothing_read n = manifest_read none

abbrev after_first : Database
after_first = inserted first_request 10 no_rows

first_commits : transact first_request 10 no_rows ≡ some after_first
unfolding transact
first_commits = refl

first_posted :
    post first_request nothing_read 10 no_rows ≡ (committed 1 (codes "load-1"), after_first)
unfolding post
first_posted = refl

-- The same table a version later, on the manifest of the first commit.
abbrev next_request : Request
next_request = record first_request {
  base_version = 1;
  load_id = codes "load-2";
  columns = (codes "height", codes "load-2") ∷ [];
}

abbrev first_read : ManifestName → Reading
first_read n = manifest_read (some one_column)

plan_columns_example :
    (cs : Columns) × (plan next_request first_read after_first ≡ proceed cs)
    × ((k : Text)
        → column_of k cs ≡ or_before (given k next_request.columns) (column_of k one_column))
unfolding find_commit text_eq
plan_columns_example =
    plan_columns next_request first_read after_first one_column refl
      (inr (new_commit first_request 10, refl, inr refl))

transact_loads_example :
    load_of (key_in first_request (codes "age")) after_first.loads
    ≡ row_or first_request 10
        (codes "age")
        (given (codes "age") one_column)
        (load_of (key_in first_request (codes "age")) [])
transact_loads_example =
    transact_loads first_request 10 no_rows after_first (codes "age") first_commits

latest_greatest_example :
    (m : Commit) × (latest (codes "s.t") after_first.commits ≡ some m)
    × Stored m after_first.commits
    × (text_eq m.table (codes "s.t") ≡ true)
    × (1 ≤ m.version)
unfolding text_eq
latest_greatest_example =
    latest_greatest (codes "s.t") after_first.commits (new_commit first_request 10) here refl

post_replay_example :
    post first_request (λ n. read_failed) 12 after_first
    ≡ (replayed (0 + 1) (codes "load-1"), after_first)
post_replay_example =
    post_replay first_request nothing_read (λ n. read_failed) 10 12 1 (codes "load-1") no_rows
      after_first first_posted

-- A writer that looks up, puts its manifest and finishes.
abbrev planned_world : World
planned_world = record empty_world {
  planned = (record { request = first_request; columns = one_column }) ∷ [];
}

looked_up : Step empty_world planned_world
unfolding plan
looked_up = look_up empty_world first_request one_column refl

abbrev written_world : World
written_world = record empty_world {
  manifests =
      (record { table = codes "s.t"; version = 0 + 1; load_id = codes "load-1" }, one_column) ∷ [];
  written = (record { request = first_request; columns = one_column }) ∷ [];
}

was_put : Step planned_world written_world
was_put = put planned_world (record { request = first_request; columns = one_column }) [] [] refl

abbrev finished_world : World
finished_world = record written_world {
  database = (settle first_request 10 no_rows).1;
  written = [];
}

finished : Step written_world finished_world
finished =
    finish written_world (record { request = first_request; columns = one_column }) 10 [] [] refl

Reachable-IsValid_example : IsValid finished_world
Reachable-IsValid_example =
    Reachable-IsValid finished_world (step (step (step start looked_up) was_put) finished)

-- The same writer's step in a world with the first commit.
abbrev busy_world : World
busy_world = record written_world { database = after_first }

step_keeps_example :
    Stored (new_commit first_request 10) (settle first_request 10 after_first).1.commits
step_keeps_example =
    step_keeps (new_commit first_request 10)
      (finish busy_world (record { request = first_request; columns = one_column }) 10 [] [] refl)
      here

-- The rows of one column for the whole day and for two hours.
abbrev row_of_hour : Option ℕ → Text → ColumnLoad
row_of_hour h l = record {
  key = record { table = codes "s.t"; column = codes "age"; ds = codes "2026-01-01"; hour = h };
  load_id = l;
  version = 1;
  committed_at = 0;
}

abbrev day_rows : List ColumnLoad
day_rows =
    row_of_hour (some 3) (codes "load-3")
    ∷ row_of_hour none (codes "load-0")
    ∷ row_of_hour (some 5) (codes "load-5")
    ∷ []

abbrev inherited_row : ColumnLoad
inherited_row = record {
  key = record {
    table = codes "s.t";
    column = codes "constructor";
    ds = codes "2026-01-01";
    hour = none;
  };
  load_id = codes "load-0";
  version = 1;
  committed_at = 0;
}

day_read :
    read_ds (codes "s.t") (codes "2026-01-01") none (codes "age" ∷ []) day_rows
    ≡ loaded ((codes "age", codes "load-5") ∷ [])
unfolding read_ds text_eq mem_text object_members
day_read = refl

-- A column with the name of an inherited member: its row with no hour is not picked, and it counts
-- as loaded.
inherited_read :
    read_ds (codes "s.t") (codes "2026-01-01") none (codes "constructor" ∷ []) (inherited_row ∷ [])
    ≡ loaded []
unfolding read_ds text_eq mem_text object_members
inherited_read = refl

pick_all_latest_example :
    (p : Pick) × (pick_of (codes "age") (pick_all day_rows no_loads).own ≡ some p)
    × (later (some 3) p.hour ≡ false)
unfolding text_eq mem_text object_members
pick_all_latest_example =
    pick_all_latest day_rows (row_of_hour (some 3) (codes "load-3")) refl Listed.here

pick_all_origin_example :
    (r : ColumnLoad) × Listed r day_rows
    × (text_eq r.key.column (codes "age") ≡ true)
    × (pick_of_row (row_of_hour (some 5) (codes "load-5")) ≡ pick_of_row r)
unfolding text_eq pick_all pick_of mem_text object_members
pick_all_origin_example =
    pick_all_origin (codes "age") day_rows (pick_of_row (row_of_hour (some 5) (codes "load-5")))
      refl
