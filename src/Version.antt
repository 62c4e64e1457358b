-- ===== src/Version.antt =====
-- ceph/version.go: the record of a Ceph version, the order that the collectors test, and `String`.
-- Parsing is in the modules below, with the proofs.
pub mod Decimal
pub mod Order
pub mod Pattern
pub mod Parse
pub mod Printed
pub mod RoundTrip
mod Tests
use ceph_exporter.Base.{
  ℕ, ◌++◌, [], ◌∷◌, Bool, true, false, not, ◌||◌, ℤ, pos, ltb_ℤ, eqb_ℤ, Text, if◌then◌else◌,
}
use Decimal.{print_int}

pub record Version : Type 0 where
  pub major : ℤ
  pub minor : ℤ
  pub patch : ℤ
  pub revision : ℤ
  pub commit : Text

-- The first version of each release that the collectors tell apart.
abbrev release : ℕ → Version
release n = record { major = pos n; minor = pos 2; patch = pos 0; revision = pos 0; commit = [] }

abbrev pub nautilus : Version
nautilus = release 14

abbrev pub octopus : Version
octopus = release 15

abbrev pub pacific : Version
pacific = release 16

abbrev pub quincy : Version
quincy = release 17

-- version.IsAtLeast(constraint)
unfoldable pub is_at_least : Version → Version → Bool
is_at_least v c =
    if ltb_ℤ c.major v.major
    then true
    else if ltb_ℤ v.major c.major
    then false
    else if ltb_ℤ c.minor v.minor
    then true
    else if ltb_ℤ v.minor c.minor
    then false
    else if ltb_ℤ c.patch v.patch
    then true
    else if ltb_ℤ v.patch c.patch
    then false
    else if ltb_ℤ c.revision v.revision
    then true
    else if ltb_ℤ v.revision c.revision
    then false
    else true

abbrev pub is_empty : Text → Bool
is_empty [] = true
is_empty (c ∷ s) = false

-- "%d.%d.%d"
abbrev pub dotted : ℤ → ℤ → ℤ → Text
dotted a b c = print_int a ++ b'.' ∷ (print_int b ++ b'.' ∷ print_int c)

-- version.String(), which writes the patch number where the revision belongs
unfoldable pub to_string : Version → Text
to_string v =
    let str = dotted v.major v.minor v.patch in
    if not (eqb_ℤ v.revision (pos 0)) || not (is_empty v.commit)
    then (let str' = str ++ b'-' ∷ print_int v.patch in
        if not (is_empty v.commit) then str' ++ b'-' ∷ v.commit else str')
    else str
