-- ===== src/Version/Pattern.antt =====
-- The regular expression of `ParseCephVersion`, `(\d+\.\d+\.\d+-\d+)\.(.*)`, and
-- `re.ReplaceAllString(s, "$1-$2")`. In the pattern every `\d+` is followed by a character that is
-- no digit, so a match takes each run of digits whole, and the search needs no backtracking.
pub mod Tidy
pub mod Ansible
use ceph_exporter.Base.{
  ℕ, zero, suc, ◌-◌, ◌≡◌, refl, Bool, true, false, ◌⊎◌, inl, inr, Option, none, some, ◌>>=◌, List,
  [], ◌∷◌, ◌++◌, arith, ◌==◌, length, Text, is_digit, Lacks, if◌then◌else◌, Option-cases,
  Bool-cases,
}

pub skip_digits : Text → Text
skip_digits [] = []
skip_digits (c ∷ s) = let rest = skip_digits s in if is_digit c then rest else c ∷ s

-- `\d+`, and what follows it
after_digits : Text → Option Text
unfolding skip_digits
after_digits [] = none
after_digits (c ∷ s) = if is_digit c then some (skip_digits s) else none

-- one given character
after_char : ℕ → Text → Option Text
after_char k [] = none
after_char k (c ∷ s) = if c == k then some s else none

-- `\d+\.\d+\.\d+-\d+\.`, and what follows it
after_prefix : Text → Option Text
unfolding after_digits after_char
after_prefix s = do
  a ← after_digits s
  b ← after_char b'.' a
  c ← after_digits b
  d ← after_char b'.' c
  e ← after_digits d
  f ← after_char b'-' e
  g ← after_digits f
  after_char b'.' g

-- How far the copying of the text has come: looking for a match, inside the first group with so
-- many characters left of it, or inside `.*`, which ends with the line.
pub data Mode : Type 0 where
  scan : Mode
  group : ℕ → Mode
  line : Mode

abbrev pub newline : ℕ
newline = 10

-- The length of the first group is that of the match up to `.*`, less the dot.
abbrev mode_at : Text → Option Text → Mode
mode_at s none = scan
mode_at s (some rest) = group (length s - length rest - 1)

-- One character is written for each that is read; the dot behind the first group becomes a dash.
abbrev copy : Mode → ℕ → ℕ × Mode
copy scan c = (c, scan)
copy (group zero) c = (b'-', line)
copy (group (suc k)) c = (c, group k)
copy line c = (c, if c == newline then scan else line)

-- A match begins at the text's first character only while looking for one.
abbrev enter : Mode → Text → Mode
enter scan s = mode_at s (after_prefix s)
enter m s = m

pub rewrite : Mode → Text → Text
rewrite m [] = []
rewrite m (c ∷ s) = let (c', m') = copy (enter m (c ∷ s)) c in c' ∷ rewrite m' s

-- re.ReplaceAllString(s, "$1-$2")
unfoldable pub standardize : Text → Text
unfolding rewrite after_prefix
standardize s = rewrite scan s
