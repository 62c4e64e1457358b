-- ===== src/Health/Messages.antt =====
-- The regular expressions of `collect` of ceph/health.go: the first capture of the leftmost match.
-- In each of them a run of digits, or of other than spaces, stands before a character that cannot
-- belong to it, so a match takes the run whole.
use ceph_exporter.Base.{
  ℕ, String, ◌≡◌, refl, Bool, true, false, not, ◌&&◌, ◌||◌, Option, none, some, [], ◌∷◌, ◌++◌, Text,
  codes, is_digit, leb, if◌then◌else◌, ◌==◌,
}
use ceph_exporter.Version.Decimal.{IsNumber, IsDigits}

-- A run at the front, and what follows it.
unfoldable pub span : (ℕ → Bool) → Text → Text × Text
span p [] = ([], [])
span p (c ∷ s) = let (run, rest) = span p s in if p c then (c ∷ run, rest) else ([], c ∷ s)

-- A run that is not empty, and then what `after` asks of the rest.
abbrev pub run_at : (Text → Bool) → Text × Text → Option Text
run_at after ([], rest) = none
run_at after (d ∷ ds, rest) = if after rest then some (d ∷ ds) else none

abbrev pub first : Option Text → Option Text → Option Text
first (some run) other = some run
first none other = other

-- The leftmost match of a run and `after`.
unfoldable pub find_run : (ℕ → Bool) → (Text → Bool) → Text → Option Text
unfolding span
find_run p after [] = none
find_run p after (c ∷ s) = first (run_at after (span p (c ∷ s))) (find_run p after s)

-- A number, and after it what `after` asks.
unfoldable pub then_number : (Text → Bool) → Text → Bool
unfolding span
then_number after s = elim (run_at after (span is_digit s)) [ none ↦ false | some ds ↦ true ]

-- A literal, and after it what `after` asks.
unfoldable pub then_literal : Text → (Text → Bool) → Text → Bool
then_literal [] after s = after s
then_literal (p ∷ ps) after [] = false
then_literal (p ∷ ps) after (c ∷ s) =
    let rest = then_literal ps after s in if p == c then rest else false

abbrev pub anything : Text → Bool
anything s = true

abbrev pub is_word : ℕ → Bool
is_word c = is_digit c || leb b'A' c && leb c b'Z' || leb b'a' c && leb c b'z' || c == b'_'

-- `\b`, behind a space
abbrev word_ahead : Text → Bool
word_ahead [] = false
word_ahead (c ∷ s) = is_word c

-- A literal behind which stands the number, and after it what `after` asks.
unfoldable pub number_behind : Text → (Text → Bool) → Text → Option Text
unfolding span
number_behind [] after s = run_at after (span is_digit s)
number_behind (p ∷ ps) after [] = none
number_behind (p ∷ ps) after (c ∷ s) =
    let rest = number_behind ps after s in if p == c then rest else none

unfoldable pub find_number_behind : Text → (Text → Bool) → Text → Option Text
unfolding number_behind
find_number_behind literal after [] = none
find_number_behind literal after (c ∷ s) =
    first (number_behind literal after (c ∷ s)) (find_number_behind literal after s)

unfoldable pub mons_down : Text → Option Text
unfolding find_run then_literal then_number
mons_down =
    find_run is_digit (
      then_literal (codes "/")
        (then_number (then_literal (codes " mons down, quorum ") word_ahead)))

unfoldable pub stuck : String → Text → Option Text
unfolding find_run then_literal
stuck how = find_run is_digit (then_literal (codes " pgs stuck " ++ codes how) anything)

unfoldable pub slow_ops : Text → Option Text
unfolding find_run then_literal then_number
slow_ops = find_run is_digit (
    then_literal (codes " slow ops, oldest one blocked for ")
      (then_number (then_literal (codes " sec") anything)))

unfoldable pub new_crash_reports : Text → Option Text
unfolding find_run then_literal
new_crash_reports =
    find_run is_digit (then_literal (codes " daemons have recently crashed") anything)

unfoldable pub too_many_repairs : Text → Option Text
unfolding find_number_behind then_literal
too_many_repairs =
    find_number_behind (codes "Too many repaired reads on ") (then_literal (codes " OSDs") anything)

unfoldable pub flags_set : Text → Option Text
unfolding find_run then_literal
flags_set = find_run (λ c. not (c == b' ')) (then_literal (codes " flag(s) set") anything)

pub span-append :
    (ds : Text) (c : ℕ) (s : Text)
    → IsDigits ds
    → is_digit c ≡ false
    → span is_digit (ds ++ c ∷ s) ≡ (ds, c ∷ s)
unfolding span
span-append [] c s d h = rw h refl
span-append (x ∷ ds) c s d h = rw (d.0, span-append ds c s d.1 h) refl

-- A number that stands first in the text, before what is asked, is found.
pub find_run-append :
    (after : Text → Bool) (ds : Text) (c : ℕ) (s : Text)
    → IsNumber ds
    → is_digit c ≡ false
    → after (c ∷ s) ≡ true
    → find_run is_digit after (ds ++ c ∷ s) ≡ some ds
unfolding find_run
find_run-append after [] c s d h a = absurd d
find_run-append after (x ∷ ds) c s d h a = rw (span-append (x ∷ ds) c s d h, a) refl
