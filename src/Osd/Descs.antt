-- ===== src/Osd/Descs.antt =====
-- The descriptors that `NewOSDCollector` of ceph/osd.go makes.
use ceph_exporter.Base.{String, List, [], ◌∷◌}
use ceph_exporter.Prometheus.{Desc, describe}

abbrev pub osd_labels : List String
osd_labels = "osd" ∷ "device_class" ∷ "host" ∷ "rack" ∷ "root" ∷ []

abbrev pub crush_weight : Desc
crush_weight = describe "ceph_osd_crush_weight" "OSD Crush Weight" osd_labels

abbrev pub depth : Desc
depth = describe "ceph_osd_depth" "OSD Depth" osd_labels

abbrev pub reweight : Desc
reweight = describe "ceph_osd_reweight" "OSD Reweight" osd_labels

abbrev pub bytes : Desc
bytes = describe "ceph_osd_bytes" "OSD Total Bytes" osd_labels

abbrev pub used_bytes : Desc
used_bytes = describe "ceph_osd_used_bytes" "OSD Used Storage in Bytes" osd_labels

abbrev pub avail_bytes : Desc
avail_bytes = describe "ceph_osd_avail_bytes" "OSD Available Storage in Bytes" osd_labels

abbrev pub utilization : Desc
utilization = describe "ceph_osd_utilization" "OSD Utilization" osd_labels

abbrev pub variance : Desc
variance = describe "ceph_osd_variance" "OSD Variance" osd_labels

abbrev pub pgs : Desc
pgs = describe "ceph_osd_pgs" "OSD Placement Group Count" osd_labels

abbrev pub pg_upmap_items_total : Desc
pg_upmap_items_total =
    describe "ceph_osd_pg_upmap_items_total" "OSD PG-Upmap Exception Table Entry Count" []

abbrev pub total_bytes : Desc
total_bytes = describe "ceph_osd_total_bytes" "OSD Total Storage Bytes" []

abbrev pub total_used_bytes : Desc
total_used_bytes = describe "ceph_osd_total_used_bytes" "OSD Total Used Storage Bytes" []

abbrev pub total_avail_bytes : Desc
total_avail_bytes = describe "ceph_osd_total_avail_bytes" "OSD Total Available Storage Bytes " []

abbrev pub average_util : Desc
average_util = describe "ceph_osd_average_utilization" "OSD Average Utilization" []

abbrev pub commit_latency : Desc
commit_latency =
    describe "ceph_osd_perf_commit_latency_seconds" "OSD Perf Commit Latency" osd_labels

abbrev pub apply_latency : Desc
apply_latency = describe "ceph_osd_perf_apply_latency_seconds" "OSD Perf Apply Latency" osd_labels

abbrev pub osd_in : Desc
osd_in = describe "ceph_osd_in" "OSD In Status" osd_labels

abbrev pub osd_up : Desc
osd_up = describe "ceph_osd_up" "OSD Up Status" osd_labels

abbrev pub osd_full_ratio : Desc
osd_full_ratio = describe "ceph_osd_full_ratio" "OSD Full Ratio Value" []

abbrev pub osd_near_full_ratio : Desc
osd_near_full_ratio = describe "ceph_osd_near_full_ratio" "OSD Near Full Ratio Value" []

abbrev pub osd_backfill_full_ratio : Desc
osd_backfill_full_ratio = describe "ceph_osd_backfill_full_ratio" "OSD Backfill Full Ratio Value" []

abbrev pub osd_full : Desc
osd_full = describe "ceph_osd_full" "OSD Full Status" osd_labels

abbrev pub osd_near_full : Desc
osd_near_full = describe "ceph_osd_near_full" "OSD Near Full Status" osd_labels

abbrev pub osd_backfill_full : Desc
osd_backfill_full = describe "ceph_osd_backfill_full" "OSD Backfill Full Status" osd_labels

abbrev pub osd_metadata : Desc
osd_metadata =
    describe "ceph_osd_metadata" "OSD Metadata"
      ("osd" ∷ "objectstore" ∷ "ceph_version_when_created" ∷ "created_at" ∷ [])

abbrev pub osd_down : Desc
osd_down =
    describe "ceph_osd_down" "Number of OSDs down in the cluster"
      ("status" ∷ "osd" ∷ "device_class" ∷ "host" ∷ "rack" ∷ "root" ∷ [])

abbrev pub scrubbing_state : Desc
scrubbing_state = describe "ceph_osd_scrub_state" "State of OSDs involved in a scrub" osd_labels

abbrev pub pg_objects_recovered : Desc
pg_objects_recovered =
    describe "ceph_pg_objects_recovered" "Number of objects recovered in a PG" ("pgid" ∷ [])

abbrev pub osd_objects_backfilled : Desc
osd_objects_backfilled =
    describe "ceph_osd_objects_backfilled" "Average number of objects backfilled in an OSD"
      ("pgid" ∷ "osd" ∷ "device_class" ∷ "host" ∷ "rack" ∷ "root" ∷ [])

abbrev pub oldest_inactive_pg : Desc
oldest_inactive_pg =
    describe "ceph_pg_oldest_inactive"
      "The amount of time in seconds that the oldest PG has been inactive for" []
