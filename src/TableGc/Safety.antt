-- ===== src/TableGc/Safety.antt =====
-- What the collection deletes: old objects of loads that are not referenced, as far as manifests can
-- be read (apps/web/src/app/api/lattik/gc/route.ts).
use lattik_studio.Prelude.{
  ℕ, ◌≤◌, ◌≡◌, ◌≢◌, refl, sym, ap, ◌∙◌, Bool, true, false, Option, some, List, [], ◌∷◌, ◌++◌, map,
  Text, text_eq, text_eq_sound, text_eq_refl, mem_text, arith, All, All-append, Bool-cases, inl,
  inr, subst,
}
use lattik_studio.TableCommit.Store.{Commit, Columns}
use lattik_studio.TableCommit.Replies.{Stored, here, there}
use lattik_studio.TableCommit.Commit.{column_of}
use lattik_studio.TableGc.Collect.{
  Reader, values_of, referenced, Object, modified_ms, Bucket, load_of_key, group, Age, is_young,
  not_a_number, seconds, minus_seconds, is_orphan, orphans, keys_of, gc_one_table,
}
use lattik_studio.TableGc.Buckets.{Listed, Comes, Filled, All-mono, group-Filled}

is_young_mono :
    (age : Age) (now m newest : ℕ)
    → m ≤ newest
    → is_young age now newest ≡ false
    → is_young age now m ≡ false
unfolding is_young
is_young_mono not_a_number now m newest l h = refl
is_young_mono (seconds a) now m newest l h = ground (arith, l, h)
is_young_mono (minus_seconds a) now m newest l h = ground (arith, l, h)

-- A key that may go: that of an object that is not young, of a load that is not referenced.
abbrev pub MayGo : ℕ → List Object → List Text → Age → ℕ → Text → Type 0
MayGo n os refs age now k =
    (o : Object) × Listed o os
    × (o.key ≡ k)
    × (mem_text (load_of_key n k) refs ≡ false)
    × (is_young age now (modified_ms o) ≡ false)

orphan_parts :
    (refs : List Text) (age : Age) (now : ℕ) (b : Bucket)
    → is_orphan refs age now b ≡ true
    → (mem_text b.load_id refs ≡ false) × (is_young age now b.newest ≡ false)
orphan_parts refs age now b h = (ground arith, ground arith)

orphans-MayGo :
    (n : ℕ) (os : List Object) (refs : List Text) (age : Age) (now : ℕ) (bs : List Bucket)
    → All (Filled n os) bs
    → All (MayGo n os refs age now) (keys_of (orphans refs age now bs))
unfolding orphans keys_of
orphans-MayGo n os refs age now [] a = tt
orphans-MayGo n os refs age now (b ∷ bs) a = elim (Bool-cases (is_orphan refs age now b)) [
  | inl e ↦
      let (free, old) = orphan_parts refs age now b e in
      rw (e, orphans)
        (All-append (MayGo n os refs age now) b.keys (keys_of (orphans refs age now bs))
          (All-mono (Comes n os b.load_id b.newest) (MayGo n os refs age now) b.keys
            (λ k (o, l, p, q, r). (
              o,
              l,
              p,
              (ap (λ (t : Text). mem_text t refs) q) ∙ free,
              is_young_mono age now (modified_ms o) b.newest r old,
            ))
            a.0)
          (orphans-MayGo n os refs age now bs a.1))
  | inr e ↦ rw (e, orphans) (orphans-MayGo n os refs age now bs a.1)
]

mem-All : (P : Text → Type 0) (k : Text) (ks : List Text) → All P ks → mem_text k ks ≡ true → P k
unfolding mem_text
mem-All P k [] a h = cc
mem-All P k (x ∷ ks) a h = elim (Bool-cases (text_eq k x)) [
  | inl e ↦ subst P (sym (text_eq_sound k x e)) a.0
  | inr e ↦ mem-All P k ks a.1 (rw e at h)
]

-- A key that a collection deletes is that of an object of the listing, whose load is not
-- referenced and which is not younger than the age asked for.
pub gc_deletes_old :
    (read : Reader) (dry_run : Bool) (age : Age) (now n : ℕ) (cs : List Commit) (os : List Object)
    (k : Text)
    → mem_text k (gc_one_table read dry_run age now n cs os).deleted ≡ true
    → (o : Object) × Listed o os
      × (o.key ≡ k)
      × (mem_text (load_of_key n k) (referenced read cs) ≡ false)
      × (is_young age now (modified_ms o) ≡ false)
unfolding gc_one_table mem_text
gc_deletes_old read true age now n cs os k h = cc
gc_deletes_old read false age now n cs os k h =
    mem-All (MayGo n os (referenced read cs) age now) k _
      (orphans-MayGo n os (referenced read cs) age now (group n os [])
        (group-Filled n os os [] (λ o l. l) tt))
      h

mem_text-tail : (x y : Text) (ys : List Text) → mem_text x ys ≡ true → mem_text x (y ∷ ys) ≡ true
unfolding mem_text
mem_text-tail x y ys h = ground (arith, h)

mem_text-left : (x : Text) (xs ys : List Text) → mem_text x xs ≡ true → mem_text x (xs ++ ys) ≡ true
unfolding mem_text
mem_text-left x [] ys h = cc
mem_text-left x (y ∷ xs) ys h = ground (arith, h, mem_text-left x xs ys)

mem_text-right :
    (x : Text) (xs ys : List Text) → mem_text x ys ≡ true → mem_text x (xs ++ ys) ≡ true
mem_text-right x [] ys h = h
mem_text-right x (y ∷ xs) ys h = mem_text-tail x y (xs ++ ys) (mem_text-right x xs ys h)

mem_text-values :
    (c l : Text) (cs : Columns)
    → column_of c cs ≡ some l
    → mem_text l (map (λ (e : Text × Text). e.1) cs) ≡ true
unfolding column_of mem_text
mem_text-values c l [] h = cc
mem_text-values c l ((d, m) ∷ cs) h = ground (arith, h, mem_text-values c l cs, text_eq_refl l)

referenced_load :
    (read : Reader) (cs : List Commit) (c : Commit)
    → Stored c cs
    → mem_text c.load_id (referenced read cs) ≡ true
unfolding referenced mem_text
referenced_load read [] c s = elim s [ ]
referenced_load read (d ∷ cs) c here = ground (arith, text_eq_refl d.load_id)
referenced_load read (d ∷ cs) c (there s) =
    mem_text-tail c.load_id d.load_id (values_of (read d) ++ referenced read cs) (
      mem_text-right c.load_id (values_of (read d)) (referenced read cs)
        (referenced_load read cs c s))

referenced_column :
    (read : Reader) (cs : List Commit) (c : Commit) (columns : Columns) (x l : Text)
    → Stored c cs
    → read c ≡ some columns
    → column_of x columns ≡ some l
    → mem_text l (referenced read cs) ≡ true
unfolding referenced mem_text
referenced_column read [] c columns x l s e f = elim s [ ]
referenced_column read (d ∷ cs) c columns x l here e f =
    mem_text-tail l d.load_id (values_of (read d) ++ referenced read cs) (
      mem_text-left l (values_of (read d)) (referenced read cs)
        (ap (λ (o : Option Columns). mem_text l (values_of o)) e ∙ mem_text-values x l columns f))
referenced_column read (d ∷ cs) c columns x l (there s) e f =
    mem_text-tail l d.load_id (values_of (read d) ++ referenced read cs) (
      mem_text-right l (values_of (read d)) (referenced read cs)
        (referenced_column read cs c columns x l s e f))

true≢false : true ≢ false
true≢false h = cc

-- What is referenced is not deleted.
spared :
    (read : Reader) (dry_run : Bool) (age : Age) (now n : ℕ) (cs : List Commit) (os : List Object)
    (k : Text)
    → mem_text (load_of_key n k) (referenced read cs) ≡ true
    → mem_text k (gc_one_table read dry_run age now n cs os).deleted ≡ false
spared read dry_run age now n cs os k r =
    elim (Bool-cases (mem_text k (gc_one_table read dry_run age now n cs os).deleted)) [
      | inl h ↦
          let (_, _, _, free, _) = gc_deletes_old read dry_run age now n cs os k h in
          absurd (true≢false (sym r ∙ free))
      | inr h ↦ h
    ]

-- A collection deletes no key of the load that a commit's manifest gives a column, where the
-- manifest can be read.
pub gc_spares_columns :
    (read : Reader) (dry_run : Bool) (age : Age) (now n : ℕ) (cs : List Commit) (os : List Object)
    (c : Commit) (columns : Columns) (x k : Text)
    → Stored c cs
    → read c ≡ some columns
    → column_of x columns ≡ some (load_of_key n k)
    → mem_text k (gc_one_table read dry_run age now n cs os).deleted ≡ false
gc_spares_columns read dry_run age now n cs os c columns x k s e f =
    spared read dry_run age now n cs os k
      (referenced_column read cs c columns x (load_of_key n k) s e f)

-- A collection deletes no key of the load that a commit itself carries.
pub gc_spares_loads :
    (read : Reader) (dry_run : Bool) (age : Age) (now n : ℕ) (cs : List Commit) (os : List Object)
    (c : Commit) (k : Text)
    → Stored c cs
    → load_of_key n k ≡ c.load_id
    → mem_text k (gc_one_table read dry_run age now n cs os).deleted ≡ false
gc_spares_loads read dry_run age now n cs os c k s e =
    spared read dry_run age now n cs os k
      (ap (λ (t : Text). mem_text t (referenced read cs)) e ∙ referenced_load read cs c s)
