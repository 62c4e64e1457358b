-- ===== src/Monitors/Tags.antt =====
-- versionRegexp of ceph/monitors.go: the tags in the name of a version.
use ceph_exporter.Base.{
  ℕ, zero, suc, Bool, true, false, ◌&&◌, ◌||◌, Option, none, some, ◌>>=◌, [], ◌∷◌, ◌++◌, Text,
  codes, is_digit, leb, if◌then◌else◌, ◌==◌,
}

pub record VersionTags : Type 0 where
  pub version_tag : Text
  pub sha1 : Text
  pub release_tag : Text

abbrev or_else : Option VersionTags → Option VersionTags → Option VersionTags
or_else (some t) other = some t
or_else none other = other

-- [A-Za-z0-9]
abbrev is_alphanumeric : ℕ → Bool
is_alphanumeric c = is_digit c || leb b'A' c && leb c b'Z' || leb b'a' c && leb c b'z'

-- What follows a literal, if the text begins with it.
unfoldable pub after_literal : Text → Text → Option Text
after_literal [] s = some s
after_literal (p ∷ ps) [] = none
after_literal (p ∷ ps) (c ∷ s) = let rest = after_literal ps s in if c == p then rest else none

-- [A-Za-z0-9]{n}, and what follows it
unfoldable pub alphanumerics : ℕ → Text → Option (Text × Text)
alphanumerics zero s = some ([], s)
alphanumerics (suc n) [] = none
alphanumerics (suc n) (c ∷ s) =
    let rest = alphanumerics n s in
    if is_alphanumeric c then (do (run, tail) ← rest; some (c ∷ run, tail)) else none

-- \w*
unfoldable pub word_run : Text → Text
word_run [] = []
word_run (c ∷ s) = let rest = word_run s in if is_alphanumeric c || c == b'_' then c ∷ rest else []

abbrev non_empty : Text → Option Text
non_empty [] = none
non_empty s = some s

-- ` \(([A-Za-z0-9]{40})\) (\w+)`, behind the tag of the version
unfoldable pub tags_behind : Text → Text → Option VersionTags
unfolding after_literal alphanumerics word_run
tags_behind tag s = do
  s' ← after_literal (codes " (") s
  (sha, s'') ← alphanumerics 40 s'
  s''' ← after_literal (codes ") ") s''
  release ← non_empty (word_run s''')
  some (record { version_tag = tag; sha1 = sha; release_tag = release })

-- `.*`, as far as it can go
unfoldable pub tag_from : Text → Text → Option VersionTags
unfolding tags_behind
tag_from tag [] = tags_behind tag []
tag_from tag (c ∷ s) =
    let longer = tag_from (tag ++ c ∷ []) s in
    or_else (if c == 10 then none else longer) (tags_behind tag (c ∷ s))

-- \d+ and a dot, so often, and one digit: the rest of the last number is like any text behind it
unfoldable pub numbers_from : ℕ → Bool → Text → Text → Option VersionTags
unfolding tag_from
numbers_from n started tag [] = none
numbers_from zero started tag (c ∷ s) = if is_digit c then tag_from (tag ++ c ∷ []) s else none
numbers_from (suc n) started tag (c ∷ s) =
    let more = numbers_from (suc n) true (tag ++ c ∷ []) s in
    let next = numbers_from n false (tag ++ c ∷ []) s in
    if is_digit c then more else if started && c == b'.' then next else none

-- FindStringSubmatch
unfoldable pub find_tags : Text → Option VersionTags
unfolding after_literal numbers_from
find_tags [] = none
find_tags (c ∷ s) =
    or_else (do s' ← after_literal (codes "ceph version ") (c ∷ s); numbers_from 2 false [] s')
      (find_tags s)
