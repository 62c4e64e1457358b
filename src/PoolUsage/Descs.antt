-- ===== src/PoolUsage/Descs.antt =====
-- The descriptors that `NewPoolUsageCollector` of ceph/pool_usage.go makes.
use ceph_exporter.Base.{String, List, [], ◌∷◌}
use ceph_exporter.Prometheus.{Desc, describe}

abbrev pub pool_label : List String
pool_label = "pool" ∷ []

abbrev pub used_bytes : Desc
used_bytes =
    describe "ceph_pool_used_bytes" "Capacity of the pool that is currently under use" pool_label

abbrev pub raw_used_bytes : Desc
raw_used_bytes =
    describe "ceph_pool_raw_used_bytes"
      "Raw capacity of the pool that is currently under use, this factors in the size" pool_label

abbrev pub max_avail : Desc
max_avail = describe "ceph_pool_available_bytes" "Free space for the pool" pool_label

abbrev pub percent_used : Desc
percent_used =
    describe "ceph_pool_percent_used"
      "Percentage of the capacity available to this pool that is used by this pool" pool_label

abbrev pub objects : Desc
objects =
    describe "ceph_pool_objects_total" "Total no. of objects allocated within the pool" pool_label

abbrev pub dirty_objects : Desc
dirty_objects =
    describe "ceph_pool_dirty_objects_total" "Total no. of dirty objects in a cache-tier pool"
      pool_label

abbrev pub unfound_objects : Desc
unfound_objects =
    describe "ceph_pool_unfound_objects_total" "Total no. of unfound objects for the pool"
      pool_label

abbrev pub read_io : Desc
read_io = describe "ceph_pool_read_total" "Total read I/O calls for the pool" pool_label

abbrev pub read_bytes : Desc
read_bytes = describe "ceph_pool_read_bytes_total" "Total read throughput for the pool" pool_label

abbrev pub write_io : Desc
write_io = describe "ceph_pool_write_total" "Total write I/O calls for the pool" pool_label

abbrev pub write_bytes : Desc
write_bytes =
    describe "ceph_pool_write_bytes_total" "Total write throughput for the pool" pool_label
