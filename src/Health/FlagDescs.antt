-- ===== src/Health/FlagDescs.antt =====
-- The descriptors that `NewClusterHealthCollector` of ceph/health.go makes: the second half, from the flags of the OSD
-- map on.
use ceph_exporter.Base.{[], ◌∷◌}
use ceph_exporter.Prometheus.{Desc, describe}

abbrev pub too_many_repairs : Desc
too_many_repairs =
    describe "ceph_osds_too_many_repair" "Number of OSDs with too many repaired reads" []

abbrev pub objects : Desc
objects = describe "ceph_cluster_objects" "No. of rados objects within the cluster" []

abbrev pub osd_map_flag_full : Desc
osd_map_flag_full =
    describe "ceph_osdmap_flag_full" "The cluster is flagged as full and cannot service writes" []

abbrev pub osd_map_flag_pause_rd : Desc
osd_map_flag_pause_rd = describe "ceph_osdmap_flag_pauserd" "Reads are paused" []

abbrev pub osd_map_flag_pause_wr : Desc
osd_map_flag_pause_wr = describe "ceph_osdmap_flag_pausewr" "Writes are paused" []

abbrev pub osd_map_flag_no_up : Desc
osd_map_flag_no_up = describe "ceph_osdmap_flag_noup" "OSDs are not allowed to start" []

abbrev pub osd_map_flag_no_down : Desc
osd_map_flag_no_down =
    describe "ceph_osdmap_flag_nodown"
      "OSD failure reports are ignored, OSDs will not be marked as down" []

abbrev pub osd_map_flag_no_in : Desc
osd_map_flag_no_in =
    describe "ceph_osdmap_flag_noin" "OSDs that are out will not be automatically marked in" []

abbrev pub osd_map_flag_no_out : Desc
osd_map_flag_no_out =
    describe "ceph_osdmap_flag_noout"
      "OSDs will not be automatically marked out after the configured interval" []

abbrev pub osd_map_flag_no_backfill : Desc
osd_map_flag_no_backfill = describe "ceph_osdmap_flag_nobackfill" "OSDs will not be backfilled" []

abbrev pub osd_map_flag_no_recover : Desc
osd_map_flag_no_recover = describe "ceph_osdmap_flag_norecover" "Recovery is suspended" []

abbrev pub osd_map_flag_no_rebalance : Desc
osd_map_flag_no_rebalance =
    describe "ceph_osdmap_flag_norebalance" "Data rebalancing is suspended" []

abbrev pub osd_map_flag_no_scrub : Desc
osd_map_flag_no_scrub = describe "ceph_osdmap_flag_noscrub" "Scrubbing is disabled" []

abbrev pub osd_map_flag_no_deep_scrub : Desc
osd_map_flag_no_deep_scrub =
    describe "ceph_osdmap_flag_nodeep_scrub" "Deep scrubbing is disabled" []

abbrev pub osd_map_flag_no_tier_agent : Desc
osd_map_flag_no_tier_agent =
    describe "ceph_osdmap_flag_notieragent" "Cache tiering activity is suspended" []

abbrev pub osd_map_flags : Desc
osd_map_flags = describe "ceph_osd_map_flags" "A metric for all OSDMap flags" ("flag" ∷ [])

abbrev pub osds_down : Desc
osds_down = describe "ceph_osds_down" "Count of OSDs that are in DOWN state" []

abbrev pub osds_up : Desc
osds_up = describe "ceph_osds_up" "Count of OSDs that are in UP state" []

abbrev pub osds_in : Desc
osds_in =
    describe "ceph_osds_in" "Count of OSDs that are in IN state and available to serve requests" []

abbrev pub osds_num : Desc
osds_num = describe "ceph_osds" "Count of total OSDs in the cluster" []

abbrev pub remapped_pgs : Desc
remapped_pgs =
    describe "ceph_pgs_remapped" "No. of PGs that are remapped and incurring cluster-wide movement"
      []

abbrev pub recovery_io_rate : Desc
recovery_io_rate =
    describe "ceph_recovery_io_bytes" "Rate of bytes being recovered in cluster per second" []

abbrev pub recovery_io_keys : Desc
recovery_io_keys =
    describe "ceph_recovery_io_keys" "Rate of keys being recovered in cluster per second" []

abbrev pub recovery_io_objects : Desc
recovery_io_objects =
    describe "ceph_recovery_io_objects" "Rate of objects being recovered in cluster per second" []

abbrev pub client_read_bytes_per_sec : Desc
client_read_bytes_per_sec =
    describe "ceph_client_io_read_bytes" "Rate of bytes being read by all clients per second" []

abbrev pub client_write_bytes_per_sec : Desc
client_write_bytes_per_sec =
    describe "ceph_client_io_write_bytes" "Rate of bytes being written by all clients per second" []

abbrev pub client_io_ops : Desc
client_io_ops =
    describe "ceph_client_io_ops" "Total client ops on the cluster measured per second" []

abbrev pub client_io_read_ops : Desc
client_io_read_ops =
    describe "ceph_client_io_read_ops"
      "Total client read I/O ops on the cluster measured per second" []

abbrev pub client_io_write_ops : Desc
client_io_write_ops =
    describe "ceph_client_io_write_ops"
      "Total client write I/O ops on the cluster measured per second" []

abbrev pub cache_flush_io_rate : Desc
cache_flush_io_rate =
    describe "ceph_cache_flush_io_bytes"
      "Rate of bytes being flushed from the cache pool per second" []

abbrev pub cache_evict_io_rate : Desc
cache_evict_io_rate =
    describe "ceph_cache_evict_io_bytes"
      "Rate of bytes being evicted from the cache pool per second" []

abbrev pub cache_promote_io_ops : Desc
cache_promote_io_ops =
    describe "ceph_cache_promote_io_ops" "Total cache promote operations measured per second" []

abbrev pub mgrs_active : Desc
mgrs_active = describe "ceph_mgrs_active" "Count of active mgrs, can be either 0 or 1" []

abbrev pub mgrs_num : Desc
mgrs_num = describe "ceph_mgrs" "Total number of mgrs, including standbys" []

abbrev pub rbd_mirror_up : Desc
rbd_mirror_up = describe "ceph_rbd_mirror_up" "Alive rbd-mirror daemons" ("name" ∷ [])
