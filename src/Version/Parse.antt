-- ===== src/Version/Parse.antt =====
-- `ParseCephVersion`.
use ceph_exporter.Base.{List, [], ◌∷◌, Text, split}
use ceph_exporter.Base.Result.{Result, ok, err, ◌>>=◌}
use ceph_exporter.Version.{Version}
use ceph_exporter.Version.Decimal.{NumError, atoi}
use ceph_exporter.Version.Pattern.{standardize}

pub data ParseError : Type 0 where
  invalid_version : ParseError
  number : NumError → ParseError

abbrev wrap : {A : Type 0} → Result NumError A → Result ParseError A
wrap (ok a) = ok a
wrap (err e) = err (number e)

-- splitVersion[2], if there are three words
abbrev pub third_word : List Text → Result ParseError Text
third_word (a ∷ b ∷ c ∷ rest) = ok c
third_word _ = err invalid_version

pub record Parts : Type 0 where
  pub major : Text
  pub minor : Text
  pub patch : Text
  pub revision : Text
  pub commit : Text

-- otherVersions: the patch alone, or the patch, the revision and the commit
abbrev pub other_versions : Text → Text → List Text → Result ParseError Parts
other_versions a b (p ∷ []) =
    ok (record { major = a; minor = b; patch = p; revision = b'0' ∷ []; commit = [] })
other_versions a b (p ∷ r ∷ c ∷ []) =
    ok (record { major = a; minor = b; patch = p; revision = r; commit = c })
other_versions a b _ = err invalid_version

-- someVersions: exactly three parts
abbrev pub some_versions : List Text → Result ParseError Parts
some_versions (a ∷ b ∷ c ∷ []) = other_versions a b (split b'-' c)
some_versions _ = err invalid_version

-- The four numbers, read in this order.
unfoldable pub numbers : Parts → Result ParseError Version
numbers p = do
  major ← wrap (atoi p.major)
  minor ← wrap (atoi p.minor)
  patch ← wrap (atoi p.patch)
  revision ← wrap (atoi p.revision)
  ok (record {
    major = major;
    minor = minor;
    patch = patch;
    revision = revision;
    commit = p.commit;
  })

unfoldable pub parse_ceph_version : Text → Result ParseError Version
unfolding numbers
parse_ceph_version s = do
  word ← third_word (split b' ' (standardize s))
  parts ← some_versions (split b'.' word)
  numbers parts
