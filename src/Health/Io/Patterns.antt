-- ===== src/Health/Io/Patterns.antt =====
-- The regular expressions of the rates, at the top of ceph/health.go.
use ceph_exporter.Base.{
  ℕ, Bool, true, not, ◌&&◌, ◌||◌, Option, none, some, [], ◌∷◌, Text, String, codes, is_digit,
  starts_with, if◌then◌else◌, ◌==◌,
}
use ceph_exporter.Health.Messages.{span, find_run, then_literal, anything, is_word}

abbrev pub with_run : (Text → Option Text) → Text × Text → Option (Text × Text)
with_run after ([], rest) = none
with_run after (d ∷ ds, rest) = elim (after rest) [ none ↦ none | some u ↦ some (d ∷ ds, u) ]

abbrev pub first_of : Option (Text × Text) → Option (Text × Text) → Option (Text × Text)
first_of (some found) other = some found
first_of none other = other

-- The leftmost match of a number and of what `after` asks, with the two captures.
unfoldable pub find_with : (Text → Option Text) → Text → Option (Text × Text)
unfolding span
find_with after [] = none
find_with after (c ∷ s) = first_of (with_run after (span is_digit (c ∷ s))) (find_with after s)

-- A space, two characters, which are captured, and a literal.
abbrev pub unit_before : (ℕ → Bool) → (ℕ → Bool) → Text → Text → Option Text
unit_before p q literal (c ∷ a ∷ b ∷ s) =
    if c == b' ' && (p a && (q b && starts_with literal s)) then some (a ∷ b ∷ []) else none
unit_before p q literal _ = none

-- [kKmMgG] and [bB]
abbrev pub is_multiple : ℕ → Bool
is_multiple c = c == b'k' || c == b'K' || c == b'm' || c == b'M' || c == b'g' || c == b'G'

abbrev pub is_byte : ℕ → Bool
is_byte c = c == b'b' || c == b'B'

unfoldable pub byte_rate : String → Text → Option (Text × Text)
unfolding find_with
byte_rate what = find_with (unit_before is_multiple is_byte (codes what))

unfoldable pub recovery_io_rate : Text → Option (Text × Text)
unfolding find_with
recovery_io_rate = find_with (unit_before is_word is_word (codes "/s"))

-- A number before a literal.
unfoldable pub number_before : String → Text → Option Text
unfolding find_run then_literal
number_before what = find_run is_digit (then_literal (codes what) anything)

-- [^ \w]*$
abbrev pub only_marks : Text → Bool
only_marks [] = true
only_marks (c ∷ s) = not (c == b' ' || is_word c) && only_marks s

unfoldable pub client_io_ops : Text → Option Text
unfolding find_run then_literal
client_io_ops = find_run is_digit (then_literal (codes " op/s") only_marks)
