-- ===== src/ClusterUsage.antt =====
-- ceph/cluster_usage.go: the capacity of the whole cluster.
mod Descs
use ceph_exporter.Base.{String, Option, none, some, ◌>>=◌, List, [], ◌∷◌, pos}
use ceph_exporter.Float.{Float64}
use ceph_exporter.Prometheus.{Desc, Metric, gauge}
use ceph_exporter.Json.{Decoder, fields, get, float64, unmarshal}
use ceph_exporter.Conn.{Conn, Command, word}
use Descs.{global_capacity, used_capacity, available_capacity}

-- Describe
abbrev pub descriptors : List Desc
descriptors = global_capacity ∷ used_capacity ∷ available_capacity ∷ []

-- ceph df detail
abbrev pub ceph_usage_command : Command
ceph_usage_command =
    ("prefix", word "df") ∷ ("detail", word "detail") ∷ ("format", word "json") ∷ []

module _ (fl : Float64) where
  open fl use {Value, of_int}

  pub record ClusterStats : Type 0 where
    pub total_bytes : Value
    pub total_used_bytes : Value
    pub total_avail_bytes : Value

  abbrev zero_stats : ClusterStats
  zero_stats = record {
    total_bytes = of_int (pos 0);
    total_used_bytes = of_int (pos 0);
    total_avail_bytes = of_int (pos 0);
  }

  decode_stats : Decoder ClusterStats
  decode_stats j = do
    fs ← fields j
    total ← get "total_bytes" (of_int (pos 0)) (float64 fl) fs
    used ← get "total_used_bytes" (of_int (pos 0)) (float64 fl) fs
    avail ← get "total_avail_bytes" (of_int (pos 0)) (float64 fl) fs
    some (record { total_bytes = total; total_used_bytes = used; total_avail_bytes = avail })

  decode_cluster_stats : Decoder ClusterStats
  unfolding decode_stats
  decode_cluster_stats j = do fs ← fields j; get "stats" zero_stats decode_stats fs

  -- The three gauges.
  pub record ClusterUsageCollector : Type 0 where
    pub global_capacity : Value
    pub used_capacity : Value
    pub available_capacity : Value

  pub stats_reply : Conn → Option ClusterStats
  unfolding decode_cluster_stats
  stats_reply conn = do
    buf ← conn.mon_command ceph_usage_command
    unmarshal decode_cluster_stats buf

  -- collect: `none` is an error, with no gauge set
  set_gauges : Option ClusterStats → Option ClusterUsageCollector
  set_gauges none = none
  set_gauges (some stats) = some (record {
    global_capacity = stats.total_bytes;
    used_capacity = stats.total_used_bytes;
    available_capacity = stats.total_avail_bytes;
  })

  abbrev gauge_metric : Desc → Value → Metric Value
  gauge_metric d x = record { desc = d; kind = gauge; value = x; labels = [] }

  abbrev metrics_list : ClusterUsageCollector → List (Metric Value)
  metrics_list c =
      gauge_metric global_capacity c.global_capacity
      ∷ gauge_metric used_capacity c.used_capacity
      ∷ gauge_metric available_capacity c.available_capacity
      ∷ []

  abbrev finish :
      ClusterUsageCollector
      → Option ClusterUsageCollector
      → ClusterUsageCollector × List (Metric Value)
  finish c none = (c, [])
  finish c (some c') = (c', metrics_list c')

  -- Collect: the new gauges, and what is sent
  unfoldable pub collect :
      ClusterUsageCollector → Conn → ClusterUsageCollector × List (Metric Value)
  unfolding stats_reply set_gauges
  collect c conn = finish c (set_gauges (stats_reply conn))
