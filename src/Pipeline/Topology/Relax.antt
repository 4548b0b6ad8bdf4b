-- ===== src/Pipeline/Topology/Relax.antt =====
-- One round of the loop of `topoSort`: what it does to the counts and to the queue.
use lattik_studio.Prelude.{
  ℕ, suc, ◌+◌, ◌-◌, ◌<◌, ◌≡◌, ◌≢◌, ◌⊎◌, refl, Option, none, some, List, [], ◌∷◌, ◌++◌, Text,
  text_eq_sound, text_eq_refl, length, length-append, arith, if◌then◌else◌, ◌==◌, Dict, get, put,
  get-put,
}
use lattik_studio.Pipeline.Topology.{or_zero, relax}
use lattik_studio.Pipeline.Topology.Count.{occ, occ-append}

-- A task is queued or done once, and exactly if its count is zero.
abbrev pub Settled : Option ℕ → ℕ → Type 0
Settled o n = ((n ≡ 0) × (o ≢ some 0)) ⊎ ((n ≡ 1) × (o ≡ some 0))

-- The counts that are not zero.
unfoldable pub positives : Dict ℕ → ℕ
positives [] = 0
positives ((k, n) ∷ m) = if n == 0 then positives m else suc (positives m)

abbrev weight : ℕ → ℕ
weight n = if n == 0 then 0 else 1

positives-put :
    (k : Text) (v : ℕ) (m : Dict ℕ)
    → positives (put k v m) + weight (or_zero (get k m)) ≡ positives m + weight v
unfolding positives put get
positives-put k v [] = ground arith
positives-put k v ((j, w) ∷ m) = ground (arith, positives-put k v m)

-- The work that is left: counts to bring to zero, and tasks in the queue.
pub relax_work :
    (cs : List Text) (degrees : Dict ℕ) (ready : List Text)
    → positives (relax cs degrees ready).0 + length (relax cs degrees ready).1
      ≡ positives degrees + length ready
unfolding relax
relax_work [] degrees ready = refl
relax_work (c ∷ cs) degrees ready =
    let n = or_zero (get c degrees) in
    ground (
      arith,
      relax_work cs (put c (n - 1) degrees) (if n == 1 then ready ++ c ∷ [] else ready),
      positives-put c (n - 1) degrees,
      length-append {0} ready (c ∷ []),
    )

pub relax_counts :
    (cs : List Text) (degrees : Dict ℕ) (ready : List Text) (x : Text) (g : ℕ)
    → get x degrees ≡ some g
    → get x (relax cs degrees ready).0 ≡ some (g - occ x cs)
unfolding relax occ
relax_counts [] degrees ready x g h = ground (arith, h)
relax_counts (c ∷ cs) degrees ready x g h =
    let n = or_zero (get c degrees) in
    ground (
      arith,
      h,
      relax_counts cs (put c (n - 1) degrees) (if n == 1 then ready ++ c ∷ [] else ready) x g,
      relax_counts cs (put c (n - 1) degrees) (if n == 1 then ready ++ c ∷ [] else ready) x (g - 1),
      get-put x c (n - 1) degrees,
      text_eq_sound c x,
    )

module _ (done : List Text) where
  relax_one-Settled :
      (c x : Text) (degrees : Dict ℕ) (ready : List Text)
      → get c degrees ≢ none
      → Settled (get x degrees) (occ x ready + occ x done)
      → Settled
          (get x (put c (or_zero (get c degrees) - 1) degrees))
          (occ x (if or_zero (get c degrees) == 1 then ready ++ c ∷ [] else ready) + occ x done)
  unfolding occ
  relax_one-Settled c x degrees ready k s = ground (
    arith,
    k,
    s,
    get-put x c (or_zero (get c degrees) - 1) degrees,
    text_eq_sound c x,
    occ-append x ready (c ∷ []),
  )

  pub relax-Settled :
      (cs : List Text) (degrees : Dict ℕ) (ready : List Text)
      → ((x : Text) → 0 < occ x cs → get x degrees ≢ none)
      → ((x : Text) → Settled (get x degrees) (occ x ready + occ x done))
      → (x : Text)
      → Settled (get x (relax cs degrees ready).0) (occ x (relax cs degrees ready).1 + occ x done)
  unfolding relax occ
  relax-Settled [] degrees ready k s x = s x
  relax-Settled (c ∷ cs) degrees ready k s x =
      let n = or_zero (get c degrees) in
      relax-Settled cs (put c (n - 1) degrees) (if n == 1 then ready ++ c ∷ [] else ready)
        (λ y p e. ground (arith, k y, get-put y c (n - 1) degrees, e, p))
        (λ y. relax_one-Settled c y degrees ready (k c (ground (arith, text_eq_refl c))) (s y)) x
