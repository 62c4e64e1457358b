-- ===== src/Scenarios/Versions.antt =====
-- The theorems on versions, at the versions of ceph/version_test.go and others.
use ceph_exporter.Base.{◌≡◌, ◌++◌, ◌∷◌, codes, Text, arith}
use ceph_exporter.Base.Result.{ok}
use ceph_exporter.Version.{to_string}
use ceph_exporter.Version.Pattern.Ansible.{banner, first_group}
use ceph_exporter.Version.Parse.{parse_ceph_version}
use ceph_exporter.Version.Printed.{IsCommit, version_of, build, AreInts}
use ceph_exporter.Version.Decimal.{print_nat}
use ceph_exporter.Version.RoundTrip.{parse-build, parse-ansible, parse-to_string_build}

abbrev commit_hash : Text
commit_hash = codes "g5c1a8dd"

commit_hash-IsCommit : IsCommit commit_hash
commit_hash-IsCommit = record {
  no_dash = ground arith;
  no_dot = ground arith;
  no_space = ground arith;
  no_newline = ground arith;
}

numbers-AreInts : AreInts 14 2 9 12
numbers-AreInts = ground arith

parse-build_example :
    parse_ceph_version (banner ++ build 14 2 9 12 (codes "g5c1a8dd"))
    ≡ ok (version_of 14 2 9 12 (codes "g5c1a8dd"))
parse-build_example = parse-build 14 2 9 12 (codes "g5c1a8dd") numbers-AreInts commit_hash-IsCommit

parse-ansible_example :
    parse_ceph_version (
      banner
      ++ (first_group (print_nat 14) (print_nat 2) (print_nat 9) (print_nat 12)
          ++ b'.' ∷ codes "g5c1a8dd"))
    ≡ parse_ceph_version (banner ++ build 14 2 9 12 (codes "g5c1a8dd"))
parse-ansible_example =
    parse-ansible 14 2 9 12 (codes "g5c1a8dd") numbers-AreInts commit_hash-IsCommit

parse-to_string_build_example :
    parse_ceph_version (banner ++ to_string (version_of 14 2 9 12 (codes "g5c1a8dd")))
    ≡ ok (version_of 14 2 9 9 (codes "g5c1a8dd"))
parse-to_string_build_example =
    parse-to_string_build 14 2 9 12 b'g' (codes "5c1a8dd") numbers-AreInts commit_hash-IsCommit
