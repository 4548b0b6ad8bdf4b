-- ===== src/Prelude/Dicts.antt =====
-- Maps with texts as keys, as lists of entries in the order of insertion.
use mathlib.Core.Path.{◌≡◌, refl}
use mathlib.Core.Option.{Option, none, some}
use mathlib.Core.List.{List, [], ◌∷◌}
use native.Mathlib.Omega.{arith}
use lattik_studio.Prelude.Tests.{if◌then◌else◌}
use lattik_studio.Prelude.Texts.{Text, text_eq, text_eq_sound, text_eq_refl}

abbrev pub Dict {ℓ} : Type ℓ → Type ℓ
Dict V = List (Text × V)

module _ {ℓ} {V : Type ℓ} where
  unfoldable pub get : Text → Dict V → Option V
  get k [] = none
  get k ((j, v) ∷ m) = if text_eq j k then some v else get k m

  -- A new key goes to the end, and a key that is there keeps its place.
  unfoldable pub put : Text → V → Dict V → Dict V
  put k v [] = (k, v) ∷ []
  put k v ((j, w) ∷ m) = if text_eq j k then (j, v) ∷ m else (j, w) ∷ put k v m

  pub get-put :
      (k j : Text) (v : V) (m : Dict V)
      → get k (put j v m) ≡ (if text_eq j k then some v else get k m)
  unfolding get put
  get-put k j v [] = refl
  get-put k j v ((i, w) ∷ m) = ground (
    arith,
    get-put k j v m,
    text_eq_sound i j,
    text_eq_sound j k,
    text_eq_sound i k,
    text_eq_refl k,
  )
