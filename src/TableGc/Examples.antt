-- ===== src/TableGc/Examples.antt =====
-- A collection on a concrete listing, and applications of the theorems to it.
use lattik_studio.Prelude.{◌≡◌, refl, false, none, some, List, [], ◌∷◌, codes, text_eq, mem_text}
use lattik_studio.TableCommit.Store.{Commit, Columns}
use lattik_studio.TableCommit.Commit.{column_of}
use lattik_studio.TableCommit.Replies.{here}
use lattik_studio.TableGc.Collect.{
  Reader, referenced, Object, modified_ms, load_of_key, seconds, is_young, gc_one_table,
}
use lattik_studio.TableGc.Safety.{gc_deletes_old, gc_spares_columns, gc_spares_loads}
use lattik_studio.TableGc.Buckets.{Listed}

abbrev one_commit : List Commit
one_commit =
    (record { table = codes "s.t"; version = 1; load_id = codes "new1"; committed_at = 0 }) ∷ []

abbrev columns_read : Columns
columns_read = (codes "age", codes "old1") ∷ []

abbrev read_all : Reader
read_all c = some columns_read

-- The keys are shown behind a prefix of two code units.
abbrev listing : List Object
listing =
    (record { key = codes "p/old1/a"; modified = some 1 })
    ∷ (record { key = codes "p/gone/a"; modified = some 2 })
    ∷ (record { key = codes "p/gone/b"; modified = some 3 })
    ∷ (record { key = codes "p/late/a"; modified = some 90000 })
    ∷ (record { key = codes "p/new1/a"; modified = none })
    ∷ []

deleted_keys :
    (gc_one_table read_all false (seconds 60) 100000 2 one_commit listing).deleted
    ≡ codes "p/gone/a" ∷ codes "p/gone/b" ∷ []
unfolding gc_one_table text_eq
deleted_keys = refl

gc_deletes_old_example :
    (o : Object) × Listed o listing
    × (o.key ≡ codes "p/gone/b")
    × (mem_text (load_of_key 2 (codes "p/gone/b")) (referenced read_all one_commit) ≡ false)
    × (is_young (seconds 60) 100000 (modified_ms o) ≡ false)
unfolding gc_one_table text_eq
gc_deletes_old_example =
    gc_deletes_old read_all false (seconds 60) 100000 2 one_commit listing (codes "p/gone/b") refl

gc_spares_columns_example :
    mem_text
      (codes "p/old1/a")
      (gc_one_table read_all false (seconds 60) 100000 2 one_commit listing).deleted
    ≡ false
unfolding column_of load_of_key text_eq
gc_spares_columns_example =
    gc_spares_columns read_all false (seconds 60) 100000 2 one_commit listing
      (record { table = codes "s.t"; version = 1; load_id = codes "new1"; committed_at = 0 })
      columns_read (codes "age") (codes "p/old1/a") here refl refl

gc_spares_loads_example :
    mem_text
      (codes "p/new1/a")
      (gc_one_table read_all false (seconds 60) 100000 2 one_commit listing).deleted
    ≡ false
unfolding load_of_key
gc_spares_loads_example =
    gc_spares_loads read_all false (seconds 60) 100000 2 one_commit listing
      (record { table = codes "s.t"; version = 1; load_id = codes "new1"; committed_at = 0 })
      (codes "p/new1/a") here refl
