-- ===== src/Version/Tests.antt =====
-- The cases of ceph/version_test.go.
use ceph_exporter.Base.{◌≡◌, refl, pos, codes, split}
use ceph_exporter.Base.Result.{ok}
use ceph_exporter.Version.{Version}
use ceph_exporter.Version.Decimal.{atoi}
use ceph_exporter.Version.Pattern.{standardize}
use ceph_exporter.Version.Parse.{parse_ceph_version}

abbrev nautilus_build : Version
nautilus_build = record {
  major = pos 14;
  minor = pos 2;
  patch = pos 9;
  revision = pos 12;
  commit = codes "g5c1a8dd";
}

parse_official : parse_ceph_version (codes "ceph version 14.2.9-12-g5c1a8dd") ≡ ok nautilus_build
unfolding parse_ceph_version standardize atoi split
parse_official = refl

parse_ansible :
    parse_ceph_version (codes "ceph version 14.2.9-12.g5c1a8dd (abc) nautilus (stable)")
    ≡ ok nautilus_build
unfolding parse_ceph_version standardize atoi split
parse_ansible = refl
