-- ===== src/TableGc/Buckets.antt =====
-- What the buckets of a listing hold (apps/web/src/app/api/lattik/gc/route.ts, `loadBuckets`).
use lattik_studio.Prelude.{
  ℕ, ◌≤◌, ◌≡◌, refl, sym, List, [], ◌∷◌, Text, text_eq, text_eq_sound, arith, All, All-append,
  Bool-cases, inl, inr, subst,
}
use lattik_studio.TableGc.Collect.{
  Object, modified_ms, Bucket, load_of_key, put_in, new_bucket, add_to, add_unless_empty, group,
}

pub data Listed (o : Object) : List Object → Type 0 where
  first : {os : List Object} → Listed o (o ∷ os)
  later : {x : Object} {os : List Object} → Listed o os → Listed o (x ∷ os)

-- A key in a bucket is that of an object of the bucket's load, no newer than the bucket.
abbrev pub Comes : ℕ → List Object → Text → ℕ → Text → Type 0
Comes n os l newest k =
    (o : Object) × Listed o os × (o.key ≡ k) × (load_of_key n k ≡ l) × (modified_ms o ≤ newest)

abbrev pub Filled : ℕ → List Object → Bucket → Type 0
Filled n os b = All (Comes n os b.load_id b.newest) b.keys

pub All-mono :
    {A : Type 0} (P Q : A → Type 0) (xs : List A) → ((x : A) → P x → Q x) → All P xs → All Q xs
All-mono P Q [] f a = tt
All-mono P Q (x ∷ xs) f a = (f x a.0, All-mono P Q xs f a.1)

pub put_in-Filled :
    (n : ℕ) (os : List Object) (o : Object) (b : Bucket)
    → Listed o os
    → load_of_key n o.key ≡ b.load_id
    → Filled n os b
    → Filled n os (put_in o b)
put_in-Filled n os o b l e f =
    All-append (Comes n os b.load_id (put_in o b).newest) b.keys (o.key ∷ [])
      (All-mono (Comes n os b.load_id b.newest) (Comes n os b.load_id (put_in o b).newest) b.keys
        (λ k (x, m, p, q, r). (x, m, p, q, ground (arith, r))) f)
      ((o, l, refl, e, ground arith), tt)

pub add_to-Filled :
    (n : ℕ) (os : List Object) (o : Object) (bs : List Bucket)
    → Listed o os
    → All (Filled n os) bs
    → All (Filled n os) (add_to (load_of_key n o.key) o bs)
unfolding add_to
add_to-Filled n os o [] l a =
    (put_in-Filled n os o (new_bucket (load_of_key n o.key)) l refl tt, tt)
add_to-Filled n os o (b ∷ bs) l a = elim (Bool-cases (text_eq b.load_id (load_of_key n o.key))) [
  | inl e ↦
      rw (e, add_to)
        (put_in-Filled n os o b l (sym (text_eq_sound b.load_id (load_of_key n o.key) e)) a.0, a.1)
  | inr e ↦ rw (e, add_to) (a.0, add_to-Filled n os o bs l a.1)
]

pub add_unless_empty-Filled :
    (n : ℕ) (os : List Object) (o : Object) (bs : List Bucket) (t : Text)
    → load_of_key n o.key ≡ t
    → Listed o os
    → All (Filled n os) bs
    → All (Filled n os) (add_unless_empty t o bs)
add_unless_empty-Filled n os o bs [] e l a = a
add_unless_empty-Filled n os o bs (c ∷ t) e l a =
    subst (λ (x : Text). All (Filled n os) (add_to x o bs)) e (add_to-Filled n os o bs l a)

pub group-Filled :
    (n : ℕ) (all os : List Object) (bs : List Bucket)
    → ((o : Object) → Listed o os → Listed o all)
    → All (Filled n all) bs
    → All (Filled n all) (group n os bs)
unfolding group
group-Filled n all [] bs f a = a
group-Filled n all (o ∷ os) bs f a =
    group-Filled n all os (add_unless_empty (load_of_key n o.key) o bs) (λ x l. f x (later l))
      (add_unless_empty-Filled n all o bs (load_of_key n o.key) refl (f o first) a)
