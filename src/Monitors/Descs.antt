-- ===== src/Monitors/Descs.antt =====
-- The descriptors that `NewMonitorCollector` of ceph/monitors.go makes.
use ceph_exporter.Base.{[], ◌∷◌}
use ceph_exporter.Prometheus.{Desc, describe}

abbrev pub clock_skew : Desc
clock_skew =
    describe "ceph_monitor_clock_skew_seconds" "Clock skew the monitor node is incurring"
      ("monitor" ∷ [])

abbrev pub latency : Desc
latency =
    describe "ceph_monitor_latency_seconds" "Latency the monitor node is incurring" ("monitor" ∷ [])

abbrev pub nodesin_quorum : Desc
nodesin_quorum = describe "ceph_monitor_quorum_count" "The total size of the monitor quorum" []

abbrev pub ceph_versions : Desc
ceph_versions =
    describe "ceph_versions" "Counts of current versioned daemons, parsed from `ceph versions`"
      ("daemon" ∷ "version_tag" ∷ "sha1" ∷ "release_name" ∷ [])

abbrev pub ceph_features : Desc
ceph_features =
    describe "ceph_features" "Counts of current client features, parsed from `ceph features`"
      ("daemon" ∷ "release" ∷ "features" ∷ [])
