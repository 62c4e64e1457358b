-- ===== src/PoolInfo/Descs.antt =====
-- The descriptors that `NewPoolInfoCollector` of ceph/pool.go makes.
use ceph_exporter.Base.{String, List, [], ◌∷◌}
use ceph_exporter.Prometheus.{Desc, describe}

abbrev pub pool_labels : List String
pool_labels = "pool" ∷ "profile" ∷ "root" ∷ []

abbrev pub pg_num : Desc
pg_num = describe "ceph_pool_pg_num" "The total count of PGs alotted to a pool" pool_labels

abbrev pub placement_pg_num : Desc
placement_pg_num =
    describe "ceph_pool_pgp_num" "The total count of PGs alotted to a pool and used for placements"
      pool_labels

abbrev pub min_size : Desc
min_size =
    describe "ceph_pool_min_size"
      "Minimum number of copies or chunks of an object that need to be present for active I/O"
      pool_labels

abbrev pub actual_size : Desc
actual_size =
    describe "ceph_pool_size"
      "Total copies or chunks of an object that need to be present for a healthy cluster"
      pool_labels

abbrev pub quota_max_bytes : Desc
quota_max_bytes =
    describe "ceph_pool_quota_max_bytes" "Maximum amount of bytes of data allowed in a pool"
      pool_labels

abbrev pub quota_max_objects : Desc
quota_max_objects =
    describe "ceph_pool_quota_max_objects" "Maximum amount of RADOS objects allowed in a pool"
      pool_labels

abbrev pub stripe_width : Desc
stripe_width =
    describe "ceph_pool_stripe_width" "Stripe width of a RADOS object in a pool" pool_labels

abbrev pub expansion_factor : Desc
expansion_factor =
    describe "ceph_pool_expansion_factor" "Data expansion multiplier for a pool" pool_labels
