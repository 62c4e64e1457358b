-- ===== src/Health/Descs.antt =====
-- The descriptors that `NewClusterHealthCollector` of ceph/health.go makes: the first half, by health and by the states
-- of placement groups.
use ceph_exporter.Base.{[], ◌∷◌}
use ceph_exporter.Prometheus.{Desc, describe}

abbrev pub health_status : Desc
health_status =
    describe "ceph_health_status"
      "Health status of Cluster, can vary only between 3 states (err:2, warn:1, ok:0)" []

abbrev pub health_status_interpreter : Desc
health_status_interpreter =
    describe "ceph_health_status_interp"
      "Health status of Cluster, can vary only between 4 states (err:3, critical_warn:2, soft_warn:1, ok:0)"
      []

abbrev pub mons_down : Desc
mons_down = describe "ceph_mons_down" "Count of Mons that are in DOWN state" []

abbrev pub total_pgs : Desc
total_pgs = describe "ceph_total_pgs" "Total no. of PGs in the cluster" []

abbrev pub pg_state : Desc
pg_state = describe "ceph_pg_state" "State of PGs in the cluster" ("state" ∷ [])

abbrev pub active_pgs : Desc
active_pgs = describe "ceph_active_pgs" "No. of active PGs in the cluster" []

abbrev pub scrubbing_pgs : Desc
scrubbing_pgs = describe "ceph_scrubbing_pgs" "No. of scrubbing PGs in the cluster" []

abbrev pub deep_scrubbing_pgs : Desc
deep_scrubbing_pgs =
    describe "ceph_deep_scrubbing_pgs" "No. of deep scrubbing PGs in the cluster" []

abbrev pub recovering_pgs : Desc
recovering_pgs = describe "ceph_recovering_pgs" "No. of recovering PGs in the cluster" []

abbrev pub recovery_wait_pgs : Desc
recovery_wait_pgs =
    describe "ceph_recovery_wait_pgs" "No. of PGs in the cluster with recovery_wait state" []

abbrev pub backfilling_pgs : Desc
backfilling_pgs = describe "ceph_backfilling_pgs" "No. of backfilling PGs in the cluster" []

abbrev pub backfill_wait_pgs : Desc
backfill_wait_pgs =
    describe "ceph_backfill_wait_pgs" "No. of PGs in the cluster with backfill_wait state" []

abbrev pub forced_recovery_pgs : Desc
forced_recovery_pgs =
    describe "ceph_forced_recovery_pgs" "No. of PGs in the cluster with forced_recovery state" []

abbrev pub forced_backfill_pgs : Desc
forced_backfill_pgs =
    describe "ceph_forced_backfill_pgs" "No. of PGs in the cluster with forced_backfill state" []

abbrev pub down_pgs : Desc
down_pgs = describe "ceph_down_pgs" "No. of PGs in the cluster in down state" []

abbrev pub incomplete_pgs : Desc
incomplete_pgs = describe "ceph_incomplete_pgs" "No. of PGs in the cluster in incomplete state" []

abbrev pub inconsistent_pgs : Desc
inconsistent_pgs =
    describe "ceph_inconsistent_pgs" "No. of PGs in the cluster in inconsistent state" []

abbrev pub snaptrim_pgs : Desc
snaptrim_pgs = describe "ceph_snaptrim_pgs" "No. of snaptrim PGs in the cluster" []

abbrev pub snaptrim_wait_pgs : Desc
snaptrim_wait_pgs =
    describe "ceph_snaptrim_wait_pgs" "No. of PGs in the cluster with snaptrim_wait state" []

abbrev pub repairing_pgs : Desc
repairing_pgs = describe "ceph_repairing_pgs" "No. of PGs in the cluster with repair state" []

abbrev pub slow_ops : Desc
slow_ops = describe "ceph_slow_requests" "No. of slow requests/slow ops" []

abbrev pub degraded_pgs : Desc
degraded_pgs = describe "ceph_degraded_pgs" "No. of PGs in a degraded state" []

abbrev pub stuck_degraded_pgs : Desc
stuck_degraded_pgs = describe "ceph_stuck_degraded_pgs" "No. of PGs stuck in a degraded state" []

abbrev pub unclean_pgs : Desc
unclean_pgs = describe "ceph_unclean_pgs" "No. of PGs in an unclean state" []

abbrev pub stuck_unclean_pgs : Desc
stuck_unclean_pgs = describe "ceph_stuck_unclean_pgs" "No. of PGs stuck in an unclean state" []

abbrev pub undersized_pgs : Desc
undersized_pgs = describe "ceph_undersized_pgs" "No. of undersized PGs in the cluster" []

abbrev pub stuck_undersized_pgs : Desc
stuck_undersized_pgs =
    describe "ceph_stuck_undersized_pgs" "No. of stuck undersized PGs in the cluster" []

abbrev pub stale_pgs : Desc
stale_pgs = describe "ceph_stale_pgs" "No. of stale PGs in the cluster" []

abbrev pub stuck_stale_pgs : Desc
stuck_stale_pgs = describe "ceph_stuck_stale_pgs" "No. of stuck stale PGs in the cluster" []

abbrev pub peering_pgs : Desc
peering_pgs = describe "ceph_peering_pgs" "No. of peering PGs in the cluster" []

abbrev pub degraded_objects_count : Desc
degraded_objects_count =
    describe "ceph_degraded_objects" "No. of degraded objects across all PGs, includes replicas" []

abbrev pub misplaced_objects_count : Desc
misplaced_objects_count =
    describe "ceph_misplaced_objects" "No. of misplaced objects across all PGs, includes replicas"
      []

abbrev pub misplaced_ratio : Desc
misplaced_ratio = describe "ceph_misplaced_ratio" "ratio of misplaced objects to total objects" []

abbrev pub new_crash_report_count : Desc
new_crash_report_count =
    describe "ceph_new_crash_reports" "Number of new crash reports available" []
