-- ===== src/PoolUsage.antt =====
-- ceph/pool_usage.go: the use of each pool.
mod Descs
pub mod Laws
use ceph_exporter.Base.{String, Option, none, some, ◌>>=◌, List, [], ◌∷◌, ◌++◌, pos}
use ceph_exporter.Float.{Float64, of_count}
use ceph_exporter.Prometheus.{Desc, Metric, gauge}
use ceph_exporter.Json.{Decoder, fields, get, string, int, float64, slice, unmarshal}
use ceph_exporter.Conn.{Conn, Command, PoolStat, word}
use Descs.{
  used_bytes, raw_used_bytes, max_avail, percent_used, objects, dirty_objects, unfound_objects,
  read_io, read_bytes, write_io, write_bytes,
}

-- Describe
abbrev pub descriptors : List Desc
descriptors =
    used_bytes ∷ raw_used_bytes ∷ max_avail ∷ percent_used ∷ objects ∷ dirty_objects
    ∷ unfound_objects ∷ read_io ∷ read_bytes ∷ write_io ∷ write_bytes ∷ []

abbrev pub unfound_name : String
unfound_name = unfound_objects.name

-- ceph df detail
abbrev pub ceph_usage_command : Command
ceph_usage_command =
    ("prefix", word "df") ∷ ("detail", word "detail") ∷ ("format", word "json") ∷ []

module _ (fl : Float64) where
  open fl use {Value, of_int, max}

  pub record Stats : Type 0 where
    pub bytes_used : Value
    pub stored_raw : Value
    pub stored : Value
    pub max_avail : Value
    pub percent_used : Value
    pub objects : Value
    pub dirty_objects : Value
    pub read_io : Value
    pub read_bytes : Value
    pub write_io : Value
    pub write_bytes : Value

  -- An element of cephPoolStats, but for the id, which is read and not used.
  pub record PoolUsage : Type 0 where
    pub name : String
    pub stats : Stats

  zero_of : Value
  zero_of = of_int (pos 0)

  decode_stats : Decoder Stats
  unfolding zero_of
  decode_stats j = do
    fs ← fields j
    bytes_used ← get "bytes_used" zero_of (float64 fl) fs
    stored_raw ← get "stored_raw" zero_of (float64 fl) fs
    stored ← get "stored" zero_of (float64 fl) fs
    max_avail ← get "max_avail" zero_of (float64 fl) fs
    percent_used ← get "percent_used" zero_of (float64 fl) fs
    objects ← get "objects" zero_of (float64 fl) fs
    dirty_objects ← get "dirty" zero_of (float64 fl) fs
    read_io ← get "rd" zero_of (float64 fl) fs
    read_bytes ← get "rd_bytes" zero_of (float64 fl) fs
    write_io ← get "wr" zero_of (float64 fl) fs
    write_bytes ← get "wr_bytes" zero_of (float64 fl) fs
    some (record {
      bytes_used = bytes_used;
      stored_raw = stored_raw;
      stored = stored;
      max_avail = max_avail;
      percent_used = percent_used;
      objects = objects;
      dirty_objects = dirty_objects;
      read_io = read_io;
      read_bytes = read_bytes;
      write_io = write_io;
      write_bytes = write_bytes;
    })

  zero_stats : Stats
  unfolding zero_of
  zero_stats = record {
    bytes_used = zero_of;
    stored_raw = zero_of;
    stored = zero_of;
    max_avail = zero_of;
    percent_used = zero_of;
    objects = zero_of;
    dirty_objects = zero_of;
    read_io = zero_of;
    read_bytes = zero_of;
    write_io = zero_of;
    write_bytes = zero_of;
  }

  decode_pool : Decoder PoolUsage
  unfolding decode_stats zero_stats
  decode_pool j = do
    fs ← fields j
    name ← get "name" "" string fs
    id ← get "id" (pos 0) int fs
    stats ← get "stats" zero_stats decode_stats fs
    some (record { name = name; stats = stats })

  zero_pool : PoolUsage
  unfolding zero_stats
  zero_pool = record { name = ""; stats = zero_stats }

  decode_pools : Decoder (List PoolUsage)
  unfolding decode_pool zero_pool
  decode_pools j = do fs ← fields j; get "pools" [] (slice zero_pool decode_pool) fs

  unfoldable pub pools_reply : Conn → Option (List PoolUsage)
  unfolding decode_pools
  pools_reply conn = do buf ← conn.mon_command ceph_usage_command; unmarshal decode_pools buf

  abbrev const_metric : Desc → Value → String → Metric Value
  const_metric d x pool = record { desc = d; kind = gauge; value = x; labels = pool ∷ [] }

  abbrev pub unfound : String → Option PoolStat → List (Metric Value)
  unfound pool none = []
  unfound pool (some st) = const_metric unfound_objects (of_count fl st.objects_unfound) pool ∷ []

  -- What the loop sends for one pool.
  abbrev pub pool_metrics : (String → Option PoolStat) → PoolUsage → List (Metric Value)
  pool_metrics get_pool_stats p =
      const_metric used_bytes p.stats.stored p.name
      ∷ const_metric raw_used_bytes (max p.stats.stored_raw p.stats.bytes_used) p.name
      ∷ const_metric max_avail p.stats.max_avail p.name
      ∷ const_metric percent_used p.stats.percent_used p.name
      ∷ const_metric objects p.stats.objects p.name
      ∷ const_metric dirty_objects p.stats.dirty_objects p.name
      ∷ const_metric read_io p.stats.read_io p.name
      ∷ const_metric read_bytes p.stats.read_bytes p.name
      ∷ const_metric write_io p.stats.write_io p.name
      ∷ const_metric write_bytes p.stats.write_bytes p.name
      ∷ unfound p.name (get_pool_stats p.name)

  unfoldable pub all_metrics : (String → Option PoolStat) → List PoolUsage → List (Metric Value)
  all_metrics get_pool_stats [] = []
  all_metrics get_pool_stats (p ∷ ps) =
      pool_metrics get_pool_stats p ++ all_metrics get_pool_stats ps

  -- An error sends nothing.
  unfoldable pub send : (String → Option PoolStat) → Option (List PoolUsage) → List (Metric Value)
  unfolding all_metrics
  send get_pool_stats none = []
  send get_pool_stats (some ps) = all_metrics get_pool_stats ps

  -- Collect
  unfoldable pub collect : Conn → List (Metric Value)
  unfolding pools_reply send
  collect conn = send conn.get_pool_stats (pools_reply conn)
