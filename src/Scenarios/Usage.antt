-- ===== src/Scenarios/Usage.antt =====
-- The theorems on the use of pools, at two pools, of which the cluster gives details of one.
use ceph_exporter.Base.{
  String, ◌≡◌, refl, some, List, [], ◌∷◌, lookup, map, IsMap, strings_eq, string_eq,
}
use ceph_exporter.Json.{Json, str, num, find, same_key, get, items}
use ceph_exporter.Conn.{Conn}
use ceph_exporter.Prometheus.{keyed}
use ceph_exporter.Version.Decimal.{atoi}
use ceph_exporter.PoolUsage.{PoolUsage, Stats, pools_reply, collect}
use ceph_exporter.PoolUsage.Laws.{AreDistinct, named, collect-IsMap_usage, collect-unfound}
use ceph_exporter.Scenarios.{whole, object, array, cluster}

abbrev used : String → Json
used name =
    object
      (("name", str name) ∷ ("id", num "1") ∷ ("stats", object (("stored", num "5") ∷ [])) ∷ [])

abbrev using : Conn
using = cluster (("df", object (("pools", array (used "rbd" ∷ used "cephfs" ∷ [])) ∷ [])) ∷ [])

abbrev stored : Stats whole
stored = record {
  bytes_used = 0;
  stored_raw = 0;
  stored = 5;
  max_avail = 0;
  percent_used = 0;
  objects = 0;
  dirty_objects = 0;
  read_io = 0;
  read_bytes = 0;
  write_io = 0;
  write_bytes = 0;
}

abbrev two_pools : List (PoolUsage whole)
two_pools =
    record { name = "rbd"; stats = stored } ∷ record { name = "cephfs"; stats = stored } ∷ []

pools_reply-using : pools_reply whole using ≡ some two_pools
unfolding pools_reply find same_key get items lookup atoi
pools_reply-using = refl

two_pools-AreDistinct : AreDistinct whole two_pools
two_pools-AreDistinct = ((refl, tt), (tt, tt))

collect-IsMap_usage_example : IsMap (map keyed (collect whole using))
collect-IsMap_usage_example =
    collect-IsMap_usage whole using two_pools pools_reply-using two_pools-AreDistinct

collect-unfound_example :
    lookup ("ceph_pool_unfound_objects_total" ∷ "rbd" ∷ []) (map keyed (collect whole using))
    ≡ some 2
unfolding named
collect-unfound_example = collect-unfound whole using two_pools "rbd" pools_reply-using
