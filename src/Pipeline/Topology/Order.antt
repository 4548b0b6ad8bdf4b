-- ===== src/Pipeline/Topology/Order.antt =====
-- The loop of `topoSort` ends, and puts every task behind the tasks it depends on.
use lattik_studio.Prelude.{
  ℕ, zero, suc, dec_lt, ◌+◌, ◌-◌, ◌≤◌, ◌<◌, ◌≡◌, ◌≢◌, inl, inr, refl, sym, ap, subst, ◌∙◌, true,
  Option, none, some, List, [], ◌∷◌, ◌++◌, Text, text_eq_sound, text_eq_refl, mem_text, length,
  map-append, arith, Dict, get, put, Option-cases, Member, All, some_injective, append-nil,
  append_assoc, All-append,
}
use lattik_studio.Pipeline.Topology.{
  TaskDef, or_zero, children, relax, start_ready, push_task, sort_loop,
}
use lattik_studio.Pipeline.Topology.Count.{
  occ, pending, occ-append, mem_text_of_occ, pending-concat, pending-zero,
}
use lattik_studio.Pipeline.Topology.Relax.{
  Settled, positives, relax_work, relax_counts, relax-Settled,
}
use lattik_studio.Pipeline.Topology.Edges.{ids_of, last_of, last_of-Member, degree_of, KeysOnce}

-- Every task stands behind those it depends on.
abbrev pub InOrder : List Text → List TaskDef → Type 0
InOrder before [] = Unit
InOrder before (t ∷ ts) =
    All (λ d. mem_text d before ≡ true) t.depends_on × InOrder (before ++ t.id ∷ []) ts

InOrder-concat :
    (before : List Text) (ts : List TaskDef) (t : TaskDef)
    → InOrder before ts
    → All (λ d. mem_text d (before ++ ids_of ts) ≡ true) t.depends_on
    → InOrder before (ts ++ t ∷ [])
InOrder-concat before [] t o a = (
  subst (λ (s : List Text). All (λ d. mem_text d s ≡ true) t.depends_on) (append-nil before) a,
  tt,
)
InOrder-concat before (u ∷ ts) t o a = (
  o.0,
  InOrder-concat (before ++ u.id ∷ []) ts t o.1 (
      subst (λ (s : List Text). All (λ d. mem_text d s ≡ true) t.depends_on)
        (sym (append_assoc before (u.id ∷ []) (ids_of ts))) a),
)

start_absent : (x : Text) (m : Dict ℕ) → get x m ≡ none → occ x (start_ready m) ≡ 0
unfolding get start_ready occ
start_absent x [] h = refl
start_absent x ((k, n) ∷ m) h = ground (arith, h, start_absent x m)

pub start-Settled :
    (x : Text) (m : Dict ℕ) → KeysOnce m → Settled (get x m) (occ x (start_ready m) + 0)
unfolding get start_ready occ
start-Settled x [] u = ground arith
start-Settled x ((k, n) ∷ m) u =
    ground (arith, u.0, start-Settled x m u.1, start_absent x m, text_eq_sound k x)

pub start_work : (m : Dict ℕ) → positives m + length (start_ready m) ≡ length m
unfolding positives start_ready
start_work [] = refl
start_work ((k, n) ∷ m) = ground (arith, start_work m)

relax_ready :
    (cs : List Text) (degrees : Dict ℕ) (ready : List Text) (x : Text)
    → occ x (relax cs degrees ready).1 ≤ occ x ready + occ x cs
unfolding relax occ
relax_ready [] degrees ready x = omega arith
relax_ready (c ∷ cs) degrees ready x =
    let n = or_zero (get c degrees) in
    ground (
      arith,
      relax_ready cs (put c (n - 1) degrees) ready x,
      relax_ready cs (put c (n - 1) degrees) (ready ++ c ∷ []) x,
      occ-append x ready (c ∷ []),
    )

pub some-ne-none {ℓ} : {A : Type ℓ} {a : A} → some a ≢ none
some-ne-none h = cc

module _ (ts : List TaskDef) (adj : Dict (List Text)) where
  -- What holds between the rounds.
  pub record Between (degrees : Dict ℕ) (ready : List Text) (out : List TaskDef) : Type 0 where
    pub settled : (x : Text) → Settled (get x degrees) (occ x ready + occ x (ids_of out))
    pub counts :
        (t : TaskDef) → Member t ts → get t.id degrees ≡ some (pending (ids_of out) t.depends_on)
    pub keys : (x : Text) → degree_of x ts none ≢ none → get x degrees ≢ none
    pub named : (x : Text) → 0 < occ x ready → last_of x ts none ≢ none
    pub order : InOrder [] out
    pub members : All (λ t. Member t ts) out

  module _ (ids : Dict TaskDef) (ids_lem : (x : Text) → get x ids ≡ last_of x ts none)
      (edges_lem : (t : TaskDef) (d : Text)
        → Member t ts
        → occ t.id (children d adj) ≡ occ d t.depends_on)
      (child_lem : (x d : Text) → 0 < occ x (children d adj) → degree_of x ts none ≢ none)
      (name_lem : (x : Text) → degree_of x ts none ≢ none → last_of x ts none ≢ none) where
    -- A round takes the task of the id off the queue.
    round_keeps :
        (degrees : Dict ℕ) (ready : List Text) (out : List TaskDef) (t : TaskDef)
        → Member t ts
        → Between degrees (t.id ∷ ready) out
        → Between
            (relax (children t.id adj) degrees ready).0
            (relax (children t.id adj) degrees ready).1
            (out ++ t ∷ [])
    unfolding occ
    round_keeps degrees ready out t m b =
        let x = t.id in
        let cs = children x adj in
        let done = ids_of out ++ x ∷ [] in
        let zero_count = counts_zero (b.settled x) in
        record {
          settled = λ y.
              subst
                (λ (s : List Text).
                  Settled (get y (relax cs degrees ready).0)
                    (occ y (relax cs degrees ready).1 + occ y s))
                (sym (map-append (λ (u : TaskDef). u.id) out (t ∷ [])))
                (relax-Settled done cs degrees ready (λ z p. b.keys z (child_lem z x p))
                  (λ z.
                    subst (Settled (get z degrees))
                      (ground (arith, occ-append z (ids_of out) (t.id ∷ []))) (b.settled z))
                  y);
          counts = λ u n.
              relax_counts cs degrees ready u.id (pending (ids_of out) u.depends_on) (b.counts u n)
              ∙ ap some (
                  omega (
                    arith,
                    ap (λ (s : List Text). pending s u.depends_on)
                        (map-append (λ (v : TaskDef). v.id) out (t ∷ [])),
                    pending-concat x (ids_of out) u.depends_on
                        (mem_text_of_occ x (ids_of out) zero_count.1),
                    edges_lem u x n,
                  ));
          keys = λ y k e. elim (Option-cases (get y degrees)) [
            | inl f ↦ b.keys y k f
            | inr (g, f) ↦ absurd (some-ne-none (sym (relax_counts cs degrees ready y g f) ∙ e))
          ];
          named = λ y p. elim (dec_lt 0 (occ y cs)) [
            | yes q ↦ name_lem y (child_lem y x q)
            | no q ↦ b.named y (ground (arith, p, q, relax_ready cs degrees ready y))
          ];
          order = InOrder-concat [] out t b.order (
              pending-zero (ids_of out) t.depends_on
                (some_injective (sym (b.counts t m) ∙ zero_count.0)));
          members = All-append (λ u. Member u ts) out (t ∷ []) b.members (m, tt);
        }
      where
        counts_zero :
            Settled (get t.id degrees) (occ t.id (t.id ∷ ready) + occ t.id (ids_of out))
            → (get t.id degrees ≡ some 0) × (occ t.id (ids_of out) ≡ 0)
        counts_zero s = ground (arith, s, text_eq_refl t.id)

    task_of : (x : Text) (t : TaskDef) → last_of x ts none ≡ some t → Member t ts × (t.id ≡ x)
    task_of x t e = elim (last_of-Member x ts none t e) [
      | inl none_some ↦ absurd (some-ne-none (sym none_some))
      | inr known ↦ known
    ]

    -- With fuel for the work that is left the loop ends with an empty queue.
    pub sort_loop_lem :
        (f : ℕ) (degrees : Dict ℕ) (ready : List Text) (out : List TaskDef)
        → positives degrees + length ready ≤ f
        → Between degrees ready out
        → (out' : List TaskDef) × (degrees' : Dict ℕ) × (sort_loop f ids adj degrees ready out
            ≡ some out')
          × Between degrees' [] out'
    unfolding sort_loop occ
    sort_loop_lem f degrees [] out h b = (out, degrees, refl, b)
    sort_loop_lem zero degrees (x ∷ ready) out h b = absurd (omega arith)
    sort_loop_lem (suc f) degrees (x ∷ ready) out h b = elim (Option-cases (last_of x ts none)) [
      | inl e ↦ absurd (b.named x (ground (arith, text_eq_refl x)) e)
      | inr (t, e) ↦
          let (m, q) = task_of x t e in
          let r = relax (children x adj) degrees ready in
          let b' =
            subst
              (λ (y : Text).
                Between (relax (children y adj) degrees ready).0
                  (relax (children y adj) degrees ready).1 (out ++ t ∷ []))
              q
              (round_keeps degrees ready out t m
                (subst (λ (y : Text). Between degrees (y ∷ ready) out) (sym q) b)) in
          let (o, g, p, c) =
            sort_loop_lem f r.0 r.1 (out ++ t ∷ [])
              (omega (arith, h, relax_work (children x adj) degrees ready)) b' in
          (
            o,
            g,
            ap (λ (v : Option TaskDef). sort_loop f ids adj r.0 r.1 (push_task v out))
                  (ids_lem x ∙ e)
                ∙ p,
            c,
          )
    ]
