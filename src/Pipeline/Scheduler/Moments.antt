-- ===== src/Pipeline/Scheduler/Moments.antt =====
-- The moments that the loop over a cron interval takes (apps/web/src/lib/dag-scheduler.ts,
-- `enqueueMissedRuns`).
use lattik_studio.Prelude.{
  ℕ, zero, suc, ◌-◌, ◌≤◌, ◌<◌, ◌≡◌, ◌⊎◌, inl, inr, refl, sym, ap, ◌∙◌, Bool, false, Option, none,
  some, List, [], ◌∷◌, ◌++◌, ltb, lt→ltb, length, Bool-cases, Option-cases, arith, subst,
}
use lattik_studio.Pipeline.Enqueueing.{boundaries, last_or}

module _ {I : Type 0} (next : I → Option (ℕ × I)) where
  -- Nothing is due at an interval: it has no next moment, or this is in the future.
  abbrev pub Exhausted : ℕ → I → Type 0
  Exhausted now i = (next i ≡ none) ⊎ ((t : ℕ) × (j : I) × (next i ≡ some (t, j)) × (now < t))

  -- Moments that an interval gives one after the other, none in the future.
  abbrev pub Chain : ℕ → I → List ℕ → Type 0
  Chain now i [] = Unit
  Chain now i (t ∷ ts) = (j : I) × (next i ≡ some (t, j)) × (t ≤ now) × Chain now j ts

  -- All moments of an interval that are not in the future: behind the last nothing is due.
  abbrev pub AllDue : ℕ → I → List ℕ → Type 0
  AllDue now i [] = Exhausted now i
  AllDue now i (t ∷ ts) = (j : I) × (next i ≡ some (t, j)) × (t ≤ now) × AllDue now j ts

  boundaries-none : (now f : ℕ) (i : I) → Exhausted now i → boundaries next now f i ≡ []
  unfolding boundaries
  boundaries-none now zero i x = refl
  boundaries-none now (suc f) i (inl e) = rw (e, boundaries) refl
  boundaries-none now (suc f) i (inr (t, j, e, l)) = rw (e, boundaries, lt→ltb now t l) refl

  boundaries-cons :
      (now f : ℕ) (i j : I) (t : ℕ)
      → next i ≡ some (t, j)
      → t ≤ now
      → boundaries next now (suc f) i ≡ t ∷ boundaries next now f j
  unfolding boundaries
  boundaries-cons now f i j t e l = rw (e, boundaries, late (ltb now t) refl) refl
    where
      late : (b : Bool) → ltb now t ≡ b → ltb now t ≡ false
      late b k = ground (arith, l)

  -- Nothing due, or the next moment first.
  due_or_not :
      (now : ℕ) (i : I) → Exhausted now i ⊎ ((t : ℕ) × (j : I) × (next i ≡ some (t, j)) × (t ≤ now))
  due_or_not now i = elim (Option-cases (next i)) [
    | inl e ↦ inl (inl e)
    | inr ((t, j), e) ↦ elim (Bool-cases (ltb now t)) [
      | inl l ↦ inl (inr (t, j, e, ground (arith, l)))
      | inr l ↦ inr (t, j, e, ground (arith, l))
    ]
  ]

  -- All due moments, or as many as the cap allows.
  abbrev pub Taken : ℕ → ℕ → I → List ℕ → Type 0
  Taken now cap i ts = AllDue now i ts ⊎ (Chain now i ts × (length ts ≡ cap))

  Taken-cons :
      (now f : ℕ) (i j : I) (t : ℕ) (ts : List ℕ)
      → next i ≡ some (t, j)
      → t ≤ now
      → Taken now f j ts
      → Taken now (suc f) i (t ∷ ts)
  Taken-cons now f i j t ts e l (inl a) = inl (j, e, l, a)
  Taken-cons now f i j t ts e l (inr (c, n)) = inr ((j, e, l, c), ap suc n)

  pub boundaries-Taken : (now f : ℕ) (i : I) → Taken now f i (boundaries next now f i)
  unfolding boundaries
  boundaries-Taken now zero i = inr (tt, refl)
  boundaries-Taken now (suc f) i = elim (due_or_not now i) [
    | inl x ↦ subst (Taken now (suc f) i) (sym (boundaries-none now (suc f) i x)) (inl x)
    | inr (t, j, e, l) ↦
        subst (Taken now (suc f) i) (sym (boundaries-cons now f i j t e l))
          (Taken-cons now f i j t (boundaries next now f j) e l (boundaries-Taken now f j))
  ]

  -- The interval behind moments that it gave.
  unfoldable pub behind : I → List ℕ → I
  behind i [] = i
  behind i (t ∷ ts) = elim (next i) [ none ↦ i | some (u, j) ↦ behind j ts ]

  behind-cons :
      (i j : I) (t : ℕ) (ts : List ℕ) → next i ≡ some (t, j) → behind i (t ∷ ts) ≡ behind j ts
  unfolding behind
  behind-cons i j t ts e = rw (e, behind) refl

  -- An enumeration up to a later moment, if the earlier one was not cut off, is the earlier one
  -- followed by that of the interval behind it, with the rest of the cap.
  pub boundaries_resume :
      (now now' f : ℕ) (i : I)
      → now ≤ now'
      → let due = boundaries next now f i in
        length due < f
        → boundaries next now' f i ≡ due ++ boundaries next now' (f - length due) (behind i due)
  unfolding behind
  boundaries_resume now now' zero i h l = absurd (omega arith)
  boundaries_resume now now' (suc f) i h l = elim (due_or_not now i) [
    | inl x ↦
        rw (boundaries-none now (suc f) i x, behind)
          (ap (λ k. boundaries next now' k i) (same (suc f)))
    | inr (t, j, e, le) ↦
        let due = boundaries next now f j in
        let cons = boundaries-cons now f i j t e le in
        boundaries-cons now' f i j t e (omega (arith, le, h))
        ∙ rw (cons, behind-cons i j t due e)
            (ap (λ ts. t ∷ ts)
              (boundaries_resume now now' f j h (omega (arith, rw cons at l))
                ∙ ap (λ k. due ++ boundaries next now' k (behind j due)) (less (length due))))
  ]
    where
      same : (n : ℕ) → n ≡ n - 0
      same n = omega arith

      less : (n : ℕ) → f - n ≡ suc f - suc n
      less n = omega arith

  -- An enumeration that is not cut off is the same with more fuel.
  pub boundaries_more :
      (now f g : ℕ) (i : I)
      → f ≤ g
      → length (boundaries next now f i) < f
      → boundaries next now g i ≡ boundaries next now f i
  boundaries_more now zero g i h l = absurd (omega arith)
  boundaries_more now (suc f) zero i h l = absurd (omega arith)
  boundaries_more now (suc f) (suc g) i h l = elim (due_or_not now i) [
    | inl x ↦ boundaries-none now (suc g) i x ∙ sym (boundaries-none now (suc f) i x)
    | inr (t, j, e, le) ↦
        let cons = boundaries-cons now f i j t e le in
        boundaries-cons now g i j t e le
        ∙ ap (λ ts. t ∷ ts)
            (boundaries_more now f g j (omega (arith, h)) (omega (arith, rw cons at l)))
        ∙ sym cons
  ]

  -- At a later time there are not fewer moments.
  pub length-boundaries_mono :
      (now now' f : ℕ) (i : I)
      → now ≤ now'
      → length (boundaries next now f i) ≤ length (boundaries next now' f i)
  unfolding boundaries
  length-boundaries_mono now now' zero i h = omega arith
  length-boundaries_mono now now' (suc f) i h = elim (due_or_not now i) [
    | inl x ↦ rw (boundaries-none now (suc f) i x) (omega arith)
    | inr (t, j, e, le) ↦
        rw (boundaries-cons now f i j t e le, boundaries-cons now' f i j t e (omega (arith, le, h)))
          (omega (arith, length-boundaries_mono now now' f j h))
  ]

  -- Nothing is due behind all due moments.
  AllDue-behind : (now : ℕ) (i : I) (ts : List ℕ) → AllDue now i ts → Exhausted now (behind i ts)
  unfolding behind
  AllDue-behind now i [] x = x
  AllDue-behind now i (t ∷ ts) (j, e, l, a) =
      subst (Exhausted now) (sym (behind-cons i j t ts e)) (AllDue-behind now j ts a)

  pub nothing_behind :
      (now f g : ℕ) (i : I)
      → length (boundaries next now f i) < f
      → boundaries next now g (behind i (boundaries next now f i)) ≡ []
  nothing_behind now f g i h = elim (boundaries-Taken now f i) [
    | inl a ↦ boundaries-none now g _ (AllDue-behind now i (boundaries next now f i) a)
    | inr (c, n) ↦ absurd (omega (arith, n, h))
  ]

  -- Parsing at a moment that the interval gave goes on like the interval.
  abbrev pub GoesOn : (ℕ → Option I) → Type 0
  GoesOn parse = (c t : ℕ) (i j : I) → parse c ≡ some i → next i ≡ some (t, j) → parse t ≡ some j

  Chain-parse :
      (parse : ℕ → Option I) (now c : ℕ) (i : I) (ts : List ℕ)
      → GoesOn parse
      → parse c ≡ some i
      → Chain now i ts
      → parse (last_or c ts) ≡ some (behind i ts)
  unfolding behind
  Chain-parse parse now c i [] g p x = p
  Chain-parse parse now c i (t ∷ ts) g p (j, e, l, x) =
      Chain-parse parse now t j ts g (g c t i j p e) x ∙ ap some (sym (behind-cons i j t ts e))

  AllDue-Chain : (now : ℕ) (i : I) (ts : List ℕ) → AllDue now i ts → Chain now i ts
  AllDue-Chain now i [] x = tt
  AllDue-Chain now i (t ∷ ts) (j, e, l, a) = (j, e, l, AllDue-Chain now j ts a)

  Taken-Chain : (now f : ℕ) (i : I) (ts : List ℕ) → Taken now f i ts → Chain now i ts
  Taken-Chain now f i ts (inl a) = AllDue-Chain now i ts a
  Taken-Chain now f i ts (inr (c, n)) = c

  pub boundaries-parse :
      (parse : ℕ → Option I) (now f c : ℕ) (i : I)
      → GoesOn parse
      → parse c ≡ some i
      → let due = boundaries next now f i in parse (last_or c due) ≡ some (behind i due)
  boundaries-parse parse now f c i g p =
      Chain-parse parse now c i (boundaries next now f i) g p
        (Taken-Chain now f i (boundaries next now f i) (boundaries-Taken now f i))
