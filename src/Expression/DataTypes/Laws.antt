-- ===== src/Expression/DataTypes/Laws.antt =====
-- The coercion order on scalar types, and what `commonType` and `promoteNumeric` are in it.
use lattik_studio.Prelude.{◌≡◌, ◌≢◌, none, some, Bool, true, arith, Option-cases, inl, inr}
use lattik_studio.Expression.DataTypes.{
  Scalar, int32, int64, float, double, timestamp, date, null, unknown, common_type, scalar_eq,
}

-- A value of the first type may stand where the second is wanted: NULL stands everywhere, a
-- narrower number for a wider one, and a date for a timestamp.
abbrev pub coerces : Scalar → Scalar → Bool
coerces null _ = true
coerces int32 int64 = true
coerces int32 float = true
coerces int32 double = true
coerces int64 float = true
coerces int64 double = true
coerces float double = true
coerces date timestamp = true
coerces a b = scalar_eq a b

-- The common type of two types does not depend on their order.
pub common_type_comm : (a b : Scalar) → common_type a b ≡ common_type b a
unfolding common_type
common_type_comm a b = ground arith

-- The common type of two types, neither of which is unknown, is a type that both coerce to.
pub common_type_upper :
    (a b c : Scalar)
    → a ≢ unknown
    → b ≢ unknown
    → common_type a b ≡ some c
    → (coerces a c ≡ true) × (coerces b c ≡ true)
unfolding common_type
common_type_upper a b c na nb h = (ground arith, ground arith)

below_upper :
    (a b c d : Scalar)
    → common_type a b ≡ some c
    → coerces a d ≡ true
    → coerces b d ≡ true
    → coerces c d ≡ true
unfolding common_type
below_upper a b c d h p q = ground arith

bounded_total : (a b d : Scalar) → coerces a d ≡ true → coerces b d ≡ true → common_type a b ≢ none
unfolding common_type
bounded_total a b d p q e = ground arith

-- Two types that are not unknown and that both coerce to some type have a common type, and it is
-- the least such: both coerce to it, and it coerces to every type that both coerce to.
pub common_type_least :
    (a b d : Scalar)
    → a ≢ unknown
    → b ≢ unknown
    → coerces a d ≡ true
    → coerces b d ≡ true
    → (c : Scalar) × (common_type a b ≡ some c)
      × (coerces a c ≡ true)
      × (coerces b c ≡ true)
      × (coerces c d ≡ true)
common_type_least a b d na nb p q = elim (Option-cases (common_type a b)) [
  | inl e ↦ absurd (bounded_total a b d p q e)
  | inr (c, e) ↦
      let (u, v) = common_type_upper a b c na nb e in (c, e, u, v, below_upper a b c d e p q)
]
