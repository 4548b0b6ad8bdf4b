-- ===== src/Pipeline/Durations.antt =====
-- `parseDurationMs` and `effectiveTaskConfig` of apps/web/src/lib/dag-topology.ts.
use lattik_studio.Prelude.{
  ℕ, ◌+◌, ◌-◌, ◌*◌, Bool, ◌&&◌, Option, none, some, [], ◌∷◌, Text, codes, text_eq, leb,
  if◌then◌else◌, to_upper,
}
use lattik_studio.Pipeline.Topology.{TaskDef}

abbrev pub is_decimal_digit : ℕ → Bool
is_decimal_digit c = leb b'0' c && leb c b'9'

-- The value of the digits in front, and what is behind them.
unfoldable pub read_digits : Text → ℕ → ℕ × Text
read_digits [] n = (n, [])
read_digits (c ∷ cs) n =
    if is_decimal_digit c then read_digits cs (n * 10 + (c - b'0')) else (n, c ∷ cs)

-- The milliseconds of a unit, in either case of its letters.
unfoldable pub unit_ms : Text → Option ℕ
unfolding text_eq to_upper
unit_ms u =
    let v = to_upper u in
    if text_eq v (codes "MS")
    then some 1
    else if text_eq v (codes "S")
    then some 1000
    else if text_eq v (codes "M")
    then some 60000
    else if text_eq v (codes "H")
    then some 3600000
    else if text_eq v (codes "D")
    then some 86400000
    else none

abbrev pub in_unit : ℕ → Option ℕ → Option ℕ
in_unit n none = none
in_unit n (some k) = some (n * k)

-- None stands for the error of a text that is no duration.
unfoldable pub parse_duration_ms : Text → Option ℕ
unfolding read_digits unit_ms
parse_duration_ms [] = none
parse_duration_ms (c ∷ cs) =
    if is_decimal_digit c
    then (let r = read_digits (c ∷ cs) 0 in in_unit r.0 (unit_ms r.1))
    else none

abbrev pub effective_timeout : Text → TaskDef → Text
effective_timeout default t = elim t.timeout [ none ↦ default | some d ↦ d ]
