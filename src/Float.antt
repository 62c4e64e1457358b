-- ===== src/Float.antt =====
-- Go's float64, as the program uses it: a type with the operations that the code calls. No theorem
-- assumes a law of them, so all hold whatever the rounding.
use ceph_exporter.Base.{ℕ, String, Bool, true, false, Option, none, some, ℤ, pos}

pub record Float64 : Type 1 where
  pub Value : Type 0
  -- strconv.ParseFloat(s, 64): the value, which is also given with an error, and whether the error
  -- is nil
  pub parse_float : String → Value × Bool
  -- float64(n)
  pub of_int : ℤ → Value
  pub add : Value → Value → Value
  pub sub : Value → Value → Value
  pub mul : Value → Value → Value
  pub div : Value → Value → Value
  -- math.Max and math.Round
  pub max : Value → Value → Value
  pub round : Value → Value

-- float64(n), for a count
abbrev pub of_count : (fl : Float64) → ℕ → fl.Value
of_count fl n = fl.of_int (pos n)

abbrev when_ok : {V : Type 0} → V × Bool → Option V
when_ok (x, true) = some x
when_ok (x, false) = none

-- Also the way in which encoding/json reads a number into a float64.
abbrev pub parse : (fl : Float64) → String → Option fl.Value
parse fl s = when_ok (fl.parse_float s)
