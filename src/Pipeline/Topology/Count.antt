-- ===== src/Pipeline/Topology/Count.antt =====
-- Texts in lists: membership, occurrences, and lists with no text twice.
use lattik_studio.Prelude.{
  ℕ, suc, ◌+◌, ◌-◌, ◌≤◌, ◌<◌, dec_lt, ◌≡◌, refl, true, false, ◌||◌, List, [], ◌∷◌, ◌++◌, Text,
  text_eq, text_eq_sound, text_eq_refl, mem_text, All, length, arith, if◌then◌else◌,
}

-- How often a text occurs.
unfoldable pub occ : Text → List Text → ℕ
occ x [] = 0
occ x (y ∷ ys) = if text_eq y x then suc (occ x ys) else occ x ys

-- How many of the texts are not in the first list.
unfoldable pub pending : List Text → List Text → ℕ
pending done [] = 0
pending done (d ∷ ds) = if mem_text d done then pending done ds else suc (pending done ds)

pub occ-append : (x : Text) (xs ys : List Text) → occ x (xs ++ ys) ≡ occ x xs + occ x ys
unfolding occ
occ-append x [] ys = omega arith
occ-append x (y ∷ xs) ys = ground (arith, occ-append x xs ys)

pub mem_text_of_occ : (x : Text) (xs : List Text) → occ x xs ≡ 0 → mem_text x xs ≡ false
unfolding occ mem_text
mem_text_of_occ x [] h = refl
mem_text_of_occ x (y ∷ xs) h =
    ground (arith, mem_text_of_occ x xs, text_eq_sound x y, text_eq_refl x)

pub mem_text-concat :
    (x y : Text) (xs : List Text) → mem_text x (xs ++ y ∷ []) ≡ (mem_text x xs || text_eq x y)
unfolding mem_text
mem_text-concat x y [] = ground arith
mem_text-concat x y (z ∷ xs) = ground (arith, mem_text-concat x y xs)

-- A text that joins the first list takes its occurrences off what is pending.
pub pending-concat :
    (x : Text) (done ds : List Text)
    → mem_text x done ≡ false
    → pending (done ++ x ∷ []) ds + occ x ds ≡ pending done ds
unfolding pending occ
pending-concat x done [] h = refl
pending-concat x done (d ∷ ds) h = ground (
  arith,
  h,
  pending-concat x done ds,
  mem_text-concat d x done,
  text_eq_sound d x,
  text_eq_refl x,
)

pub pending-none : (ds : List Text) → pending [] ds ≡ length ds
unfolding pending mem_text
pending-none [] = refl
pending-none (d ∷ ds) = omega (arith, pending-none ds)

pub pending-zero :
    (done ds : List Text) → pending done ds ≡ 0 → All (λ d. mem_text d done ≡ true) ds
unfolding pending
pending-zero done [] h = tt
pending-zero done (d ∷ ds) h = (ground arith, pending-zero done ds (ground arith))

pub zero-pending :
    (done ds : List Text) → All (λ d. mem_text d done ≡ true) ds → pending done ds ≡ 0
unfolding pending
zero-pending done [] h = refl
zero-pending done (d ∷ ds) h = ground (arith, h.0, zero-pending done ds h.1)

-- The list with the first occurrence of a text taken out.
remove : Text → List Text → List Text
remove x [] = []
remove x (y ∷ ys) = if text_eq y x then ys else y ∷ remove x ys

length-remove : (x : Text) (ys : List Text) → 0 < occ x ys → length (remove x ys) + 1 ≡ length ys
unfolding remove occ
length-remove x [] h = absurd (omega arith)
length-remove x (y ∷ ys) h = ground (arith, h, length-remove x ys)

occ-remove :
    (z x : Text) (ys : List Text) → occ z (remove x ys) ≡ occ z ys - (if text_eq x z then 1 else 0)
unfolding remove occ
occ-remove z x [] = ground arith
occ-remove z x (y ∷ ys) =
    ground (
      arith,
      occ-remove z x ys,
      text_eq_sound y x,
      text_eq_sound x z,
      text_eq_refl z,
      text_eq_refl y,
    )

-- A list in which nothing occurs oftener is not longer.
pub length-le_of_occ :
    (xs ys : List Text) → ((x : Text) → occ x xs ≤ occ x ys) → length xs ≤ length ys
unfolding occ
length-le_of_occ [] ys h = omega arith
length-le_of_occ (x ∷ xs) ys h = omega (
  arith,
  length-remove x ys (ground (arith, h x, text_eq_refl x)),
  length-le_of_occ xs (remove x ys) (λ z. ground (arith, h z, occ-remove z x ys)),
)

-- If both are as long, then what stands in the one stands in the other.
pub occ_of_length :
    (xs ys : List Text) (y : Text)
    → ((x : Text) → occ x xs ≤ occ x ys)
    → length xs ≡ length ys
    → 0 < occ y ys
    → 0 < occ y xs
unfolding occ
occ_of_length xs ys y h l p = elim (dec_lt 0 (occ y xs)) [
  | yes q ↦ q
  | no q ↦ absurd (
      omega (
        arith,
        l,
        length-le_of_occ (y ∷ xs) ys (λ x. ground (arith, h x, p, q, text_eq_sound y x)),
      ))
]
