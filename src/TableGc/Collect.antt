-- ===== src/TableGc/Collect.antt =====
-- `gcOneTable` of apps/web/src/app/api/lattik/gc/route.ts: the loads that some manifest references,
-- the objects under the table's loads in one bucket for each load, and the orphans among them.
use lattik_studio.Prelude.{
  ℕ, ◌+◌, ◌*◌, Bool, false, not, ◌&&◌, Option, none, some, List, [], ◌∷◌, ◌++◌, map, Text, text_eq,
  mem_text, ltb, ◌==◌, if◌then◌else◌, drop, length,
}
use lattik_studio.TableCommit.Store.{Commit, Columns}

-- The columns of a commit's manifest, or none where it cannot be read.
abbrev pub Reader : Type 0
Reader = Commit → Option Columns

abbrev pub values_of : Option Columns → List Text
values_of none = []
values_of (some cs) = map (λ (c : Text × Text). c.1) cs

-- `referenced`: the load of every commit, and those of the manifests that can be read.
unfoldable pub referenced : Reader → List Commit → List Text
referenced read [] = []
referenced read (c ∷ cs) = c.load_id ∷ (values_of (read c) ++ referenced read cs)

-- An object of the listing.
pub record Object : Type 0 where
  pub key : Text
  pub modified : Option ℕ

abbrev pub modified_ms : Object → ℕ
modified_ms o = elim o.modified [ none ↦ 0 | some t ↦ t ]

pub record Bucket : Type 0 where
  pub load_id : Text
  pub keys : List Text
  pub newest : ℕ

-- `rest.split("/", 1)[0]`.
unfoldable pub before_slash : Text → Text
before_slash [] = []
before_slash (c ∷ cs) = let rest = before_slash cs in if c == b'/' then [] else c ∷ rest

-- The load of a key, whose prefix `lattik/<table>/loads/` has the given length.
unfoldable pub load_of_key : ℕ → Text → Text
unfolding before_slash
load_of_key n key = before_slash (drop n key)

abbrev pub put_in : Object → Bucket → Bucket
put_in o b = record b {
  keys = b.keys ++ o.key ∷ [];
  newest = if ltb b.newest (modified_ms o) then modified_ms o else b.newest;
}

abbrev pub new_bucket : Text → Bucket
new_bucket l = record { load_id = l; keys = []; newest = 0 }

unfoldable pub add_to : Text → Object → List Bucket → List Bucket
add_to l o [] = put_in o (new_bucket l) ∷ []
add_to l o (b ∷ bs) = if text_eq b.load_id l then put_in o b ∷ bs else b ∷ add_to l o bs

abbrev pub add_unless_empty : Text → Object → List Bucket → List Bucket
add_unless_empty [] o bs = bs
add_unless_empty (c ∷ l) o bs = add_to (c ∷ l) o bs

-- `loadBuckets`.
unfoldable pub group : ℕ → List Object → List Bucket → List Bucket
unfolding add_to load_of_key
group n [] bs = bs
group n (o ∷ os) bs = group n os (add_unless_empty (load_of_key n o.key) o bs)

-- `minAgeSeconds` as `parseInt` gives it.
pub data Age : Type 0 where
  not_a_number : Age
  seconds : ℕ → Age
  minus_seconds : ℕ → Age

-- `newestMs > Date.now() - minAgeSeconds * 1000`.
unfoldable pub is_young : Age → ℕ → ℕ → Bool
is_young not_a_number now newest = false
is_young (seconds a) now newest = ltb now (newest + a * 1000)
is_young (minus_seconds a) now newest = ltb (now + a * 1000) newest

abbrev pub is_orphan : List Text → Age → ℕ → Bucket → Bool
is_orphan refs age now b = not (mem_text b.load_id refs) && not (is_young age now b.newest)

unfoldable pub orphans : List Text → Age → ℕ → List Bucket → List Bucket
unfolding mem_text is_young
orphans refs age now [] = []
orphans refs age now (b ∷ bs) =
    if is_orphan refs age now b then b ∷ orphans refs age now bs else orphans refs age now bs

unfoldable pub keys_of : List Bucket → List Text
keys_of [] = []
keys_of (b ∷ bs) = b.keys ++ keys_of bs

-- What is reported, and the keys that are deleted.
pub record Report : Type 0 where
  pub orphan_load_ids : List Text
  pub orphan_objects : ℕ
  pub deleted : List Text

-- `gcOneTable` on the commits of the table and the objects of its listing.
unfoldable pub gc_one_table : Reader → Bool → Age → ℕ → ℕ → List Commit → List Object → Report
unfolding referenced group orphans keys_of
gc_one_table read dry_run age now n commits objects =
    let found = orphans (referenced read commits) age now (group n objects []) in
    record {
      orphan_load_ids = map (λ (b : Bucket). b.load_id) found;
      orphan_objects = length (keys_of found);
      deleted = if dry_run then [] else keys_of found;
    }
