-- ===== src/Pipeline/Topology/Edges.antt =====
-- What the first loop of `topoSort` puts into its maps.
use lattik_studio.Prelude.{
  ℕ, ◌+◌, ◌<◌, ◌≡◌, ◌≢◌, ◌⊎◌, inl, inr, refl, sym, ap, ◌∙◌, true, false, Option, none, some, List,
  [], ◌∷◌, ◌++◌, Text, text_eq, text_eq_sound, text_eq_refl, mem_text, length, map, arith,
  if◌then◌else◌, Dict, get, put, get-put, Bool-cases, Option-cases, Member, here, there,
  some_injective, subst,
}
use lattik_studio.Pipeline.Topology.{
  TaskDef, by_id, Built, unknown_dep, built, children, add_child, add_edges, build,
}
use lattik_studio.Pipeline.Topology.Count.{occ, occ-append}

abbrev pub ids_of : List TaskDef → List Text
ids_of = map (λ (t : TaskDef). t.id)

-- No two tasks have the same id.
abbrev pub DistinctIds : List TaskDef → Type 0
DistinctIds [] = Unit
DistinctIds (t ∷ ts) = (mem_text t.id (ids_of ts) ≡ false) × DistinctIds ts

-- The task of an id; of two, the later.
unfoldable pub last_of : Text → List TaskDef → Option TaskDef → Option TaskDef
last_of x [] o = o
last_of x (t ∷ ts) o = last_of x ts (if text_eq t.id x then some t else o)

pub get-by_id :
    (x : Text) (ts : List TaskDef) (m : Dict TaskDef) → get x (by_id ts m) ≡ last_of x ts (get x m)
unfolding by_id last_of
get-by_id x [] m = refl
get-by_id x (t ∷ ts) m = get-by_id x ts (put t.id t m) ∙ ap (last_of x ts) (get-put x t.id t m)

pub last_of-Member :
    (x : Text) (ts : List TaskDef) (o : Option TaskDef) (t : TaskDef)
    → last_of x ts o ≡ some t
    → (o ≡ some t) ⊎ (Member t ts × (t.id ≡ x))
unfolding last_of
last_of-Member x [] o t h = inl h
last_of-Member x (u ∷ ts) o t h =
    elim (last_of-Member x ts (if text_eq u.id x then some u else o) t h) [
      | inr (m, e) ↦ inr (there m, e)
      | inl e ↦ from_test u e (Bool-cases (text_eq u.id x))
    ]
  where
    from_test :
        (u : TaskDef)
        → (if text_eq u.id x then some u else o) ≡ some t
        → (text_eq u.id x ≡ true) ⊎ (text_eq u.id x ≡ false)
        → (o ≡ some t) ⊎ (Member t (u ∷ ts) × (t.id ≡ x))
    from_test u e (inl y) = inr (
        subst (λ (w : TaskDef). Member w (u ∷ ts) × (w.id ≡ x)) (some_injective (rw y at e))
          (here, text_eq_sound u.id x y))
    from_test u e (inr n) = inl (rw n at e)

-- The count of an id behind the loop.
unfoldable pub degree_of : Text → List TaskDef → Option ℕ → Option ℕ
degree_of x [] o = o
degree_of x (t ∷ ts) o = degree_of x ts (if text_eq t.id x then some (length t.depends_on) else o)

-- How often a task `d` has a task of the id `x` as its child.
unfoldable pub edges : Text → Text → List TaskDef → ℕ
edges x d [] = 0
edges x d (t ∷ ts) = (if text_eq t.id x then occ d t.depends_on else 0) + edges x d ts

pub unknown-ne-built :
    (t d : Text) (n : Dict ℕ) (adj : Dict (List Text)) → unknown_dep t d ≢ built n adj
unknown-ne-built t d n adj h = cc

counts_eq : (n n' : Dict ℕ) (adj adj' : Dict (List Text)) → built n adj ≡ built n' adj' → n ≡ n'
counts_eq n n' adj adj' h = cc

add_edges_lem :
    (ids : Dict TaskDef) (t : Text) (ds : List Text) (n n' : Dict ℕ) (adj adj' : Dict (List Text))
    (x d : Text)
    → add_edges ids t ds n adj ≡ built n' adj'
    → (n' ≡ n)
      × (occ x (children d adj') ≡ occ x (children d adj) + (if text_eq t x then occ d ds else 0))
unfolding add_edges occ
add_edges_lem ids t [] n n' adj adj' x d h = ground (arith, h)
add_edges_lem ids t (c ∷ ds) n n' adj adj' x d h = elim (Option-cases (get c ids)) [
  | inl e ↦ absurd (unknown-ne-built t c n' adj' (rw (e, add_edges) at h))
  | inr (u, e) ↦
      let (a, b) =
        add_edges_lem ids t ds n n' (add_child c t adj) adj' x d (rw (e, add_edges) at h) in
      (
        a,
        b
            ∙ ground (
              arith,
              get-put d c (children c adj ++ t ∷ []) adj,
              occ-append x (children c adj) (t ∷ []),
              text_eq_sound c d,
            ),
      )
]

pub Built-cases :
    (b : Built)
    → ((t : Text) × (d : Text) × (b ≡ unknown_dep t d))
      ⊎ ((n : Dict ℕ) × (adj : Dict (List Text)) × (b ≡ built n adj))
Built-cases (unknown_dep t d) = inl (t, d, refl)
Built-cases (built n adj) = inr (n, adj, refl)

-- No key stands twice.
abbrev pub KeysOnce : Dict ℕ → Type 0
KeysOnce [] = Unit
KeysOnce ((k, n) ∷ m) = (get k m ≡ none) × KeysOnce m

put-KeysOnce : (k : Text) (v : ℕ) (m : Dict ℕ) → KeysOnce m → KeysOnce (put k v m)
unfolding put get
put-KeysOnce k v [] u = (refl, tt)
put-KeysOnce k v ((j, w) ∷ m) u = elim (Bool-cases (text_eq j k)) [
  | inl e ↦ rw (e, put) u
  | inr e ↦
      rw (e, put)
        (
          ground (arith, u.0, e, get-put j k v m, text_eq_sound k j, text_eq_refl j),
          put-KeysOnce k v m u.1,
        )
]

-- The first loop fills the counts with the numbers of dependencies, and the children with the
-- tasks that depend on each.
pub build_lem :
    (ids : Dict TaskDef) (ts : List TaskDef) (n n' : Dict ℕ) (adj adj' : Dict (List Text))
    (x d : Text)
    → KeysOnce n
    → build ids ts n adj ≡ built n' adj'
    → KeysOnce n'
      × (get x n' ≡ degree_of x ts (get x n))
      × (occ x (children d adj') ≡ occ x (children d adj) + edges x d ts)
unfolding build degree_of edges
build_lem ids [] n n' adj adj' x d u h =
    (subst KeysOnce (counts_eq n n' adj adj' h) u, ground (arith, h), ground (arith, h))
build_lem ids (t ∷ ts) n n' adj adj' x d u h =
    elim (Built-cases (add_edges ids t.id t.depends_on (put t.id (length t.depends_on) n) adj)) [
      | inl (y, c, e) ↦ absurd (unknown-ne-built y c n' adj' (rw (e, build) at h))
      | inr (m, a, e) ↦
          let (p, q) =
            add_edges_lem ids t.id t.depends_on (put t.id (length t.depends_on) n) m adj a x d e in
          let (k, f, g) =
            build_lem ids ts m n' a adj' x d
              (subst KeysOnce (sym p) (put-KeysOnce t.id (length t.depends_on) n u))
              (rw (e, build) at h) in
          (
            k,
            f ∙ ap (degree_of x ts) (ap (get x) p ∙ get-put x t.id (length t.depends_on) n),
            omega (arith, g, q),
          )
    ]

pub ids_of-Member :
    (t : TaskDef) (ts : List TaskDef) → Member t ts → mem_text t.id (ids_of ts) ≡ true
unfolding mem_text
ids_of-Member t [] m = elim m [ ]
ids_of-Member t (v ∷ ts) here = ground (arith, text_eq_refl t.id)
ids_of-Member t (v ∷ ts) (there m) = ground (arith, ids_of-Member t ts m)

degree_of-absent :
    (x : Text) (ts : List TaskDef) (o : Option ℕ)
    → mem_text x (ids_of ts) ≡ false
    → degree_of x ts o ≡ o
unfolding degree_of mem_text
degree_of-absent x [] o h = refl
degree_of-absent x (t ∷ ts) o h =
    ground (arith, h, degree_of-absent x ts o, text_eq_sound t.id x, text_eq_refl x)

edges-absent : (x d : Text) (ts : List TaskDef) → mem_text x (ids_of ts) ≡ false → edges x d ts ≡ 0
unfolding edges mem_text
edges-absent x d [] h = refl
edges-absent x d (t ∷ ts) h =
    ground (arith, h, edges-absent x d ts, text_eq_sound t.id x, text_eq_refl x)

degree_of-some : (x : Text) (ts : List TaskDef) (n : ℕ) → degree_of x ts (some n) ≢ none
unfolding degree_of
degree_of-some x [] n h = cc
degree_of-some x (t ∷ ts) n h =
    ground (arith, h, degree_of-some x ts n, degree_of-some x ts (length t.depends_on))

pub other_id :
    (t v : TaskDef) (ts : List TaskDef)
    → mem_text v.id (ids_of ts) ≡ false
    → Member t ts
    → text_eq v.id t.id ≡ false
other_id t v ts u m = ground (arith, u, ids_of-Member t ts m, text_eq_sound v.id t.id)

-- In a list with distinct ids.
pub degree_of-Member :
    (t : TaskDef) (ts : List TaskDef) (o : Option ℕ)
    → DistinctIds ts
    → Member t ts
    → degree_of t.id ts o ≡ some (length t.depends_on)
unfolding degree_of
degree_of-Member t [] o u m = elim m [ ]
degree_of-Member t (v ∷ ts) o u here =
    ground (arith, degree_of-absent t.id ts (some (length t.depends_on)) u.0, text_eq_refl t.id)
degree_of-Member t (v ∷ ts) o u (there m) = degree_of-Member t ts _ u.1 m

pub edges-Member :
    (t : TaskDef) (ts : List TaskDef) (d : Text)
    → DistinctIds ts
    → Member t ts
    → edges t.id d ts ≡ occ d t.depends_on
unfolding edges
edges-Member t [] d u m = elim m [ ]
edges-Member t (v ∷ ts) d u here = ground (arith, edges-absent t.id d ts u.0, text_eq_refl t.id)
edges-Member t (v ∷ ts) d u (there m) =
    ground (arith, edges-Member t ts d u.1 m, other_id t v ts u.0 m)

pub edges-degree_of :
    (x d : Text) (ts : List TaskDef) (o : Option ℕ) → 0 < edges x d ts → degree_of x ts o ≢ none
unfolding edges degree_of
edges-degree_of x d [] o p h = absurd (omega arith)
edges-degree_of x d (t ∷ ts) o p h =
    ground (arith, h, edges-degree_of x d ts o, degree_of-some x ts (length t.depends_on))

pub last_of-some : (x : Text) (ts : List TaskDef) (t : TaskDef) → last_of x ts (some t) ≢ none
unfolding last_of
last_of-some x [] t h = cc
last_of-some x (u ∷ ts) t h = ground (arith, h, last_of-some x ts t, last_of-some x ts u)

pub degree_of-last_of :
    (x : Text) (ts : List TaskDef) (o : Option ℕ) (q : Option TaskDef)
    → (q ≡ none → o ≡ none)
    → last_of x ts q ≡ none
    → degree_of x ts o ≡ none
unfolding degree_of last_of
degree_of-last_of x [] o q f p = f p
degree_of-last_of x (t ∷ ts) o q f p = elim (Bool-cases (text_eq t.id x)) [
  | inl e ↦ absurd (last_of-some x ts t (rw e at p))
  | inr e ↦ rw e (degree_of-last_of x ts o q f (rw e at p))
]
