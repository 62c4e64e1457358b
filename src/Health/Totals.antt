-- ===== src/Health/Totals.antt =====
-- `collect` of ceph/health.go from the states on: the rates, the OSDs, the managers and the mirrors.
use ceph_exporter.Base.{
  ℕ, zero, suc, ◌+◌, ◌-◌, ◌^◌, ltb, negsuc, String, Bool, true, false, Option, none, some, ◌>>=◌,
  List, [], ◌∷◌, ◌++◌, ℤ, pos, length, lookup, string_eq, string_beq, if◌then◌else◌,
}
use ceph_exporter.Float.{Float64, of_count, parse}
use ceph_exporter.Prometheus.{Metric, Desc}
use ceph_exporter.Json.{read_map, raw, Json, num, obj, Decoder, fields, get, string}
use ceph_exporter.Health.Descs.{
  total_pgs, degraded_objects_count, misplaced_objects_count, misplaced_ratio,
}
use ceph_exporter.Health.FlagDescs
use ceph_exporter.Version.Decimal.{int64_bound}
use ceph_exporter.Health.Progress.{const_metric}
use ceph_exporter.Health.Reply.{PgMap, MgrMap}

module _ (fl : Float64) where
  open fl use {Value, of_int, add, sub}

  abbrev plain : Desc → Value → Metric Value
  plain d x = const_metric fl d x []

  abbrev pub rate_metrics : PgMap fl → List (Metric Value)
  rate_metrics m =
      plain FlagDescs.client_read_bytes_per_sec m.read_byte_per_sec
      ∷ plain FlagDescs.client_write_bytes_per_sec m.write_byte_per_sec
      ∷ plain FlagDescs.client_io_ops (add m.read_op_per_sec m.write_op_per_sec)
      ∷ plain FlagDescs.client_io_read_ops m.read_op_per_sec
      ∷ plain FlagDescs.client_io_write_ops m.write_op_per_sec
      ∷ plain FlagDescs.recovery_io_keys m.recovering_keys_per_sec
      ∷ plain FlagDescs.recovery_io_objects m.recovering_objects_per_sec
      ∷ plain FlagDescs.recovery_io_rate m.recovering_byte_per_sec
      ∷ plain FlagDescs.cache_evict_io_rate m.cache_evict_byte_per_sec
      ∷ plain FlagDescs.cache_flush_io_rate m.cache_flush_byte_per_sec
      ∷ plain FlagDescs.cache_promote_io_ops m.cache_promote_op_per_sec
      ∷ []

  -- osdMap
  pub record OsdMap : Type 0 where
    pub num_osds : Value
    pub num_up_osds : Value
    pub num_in_osds : Value
    pub num_remapped_pgs : Value

  abbrev pub no_osds : OsdMap
  no_osds = record {
    num_osds = of_int (pos 0);
    num_up_osds = of_int (pos 0);
    num_in_osds = of_int (pos 0);
    num_remapped_pgs = of_int (pos 0);
  }

  -- m[key].(float64): `none` is a panic
  abbrev float_of : Option Json → Option Value
  float_of (some (num s)) = parse fl s
  float_of _ = none

  unfoldable pub read_osd_map : List (String × Json) → Option OsdMap
  read_osd_map m = do
    num_osds ← float_of (lookup "num_osds" m)
    num_up_osds ← float_of (lookup "num_up_osds" m)
    num_in_osds ← float_of (lookup "num_in_osds" m)
    num_remapped_pgs ← float_of (lookup "num_remapped_pgs" m)
    some (record {
      num_osds = num_osds;
      num_up_osds = num_up_osds;
      num_in_osds = num_in_osds;
      num_remapped_pgs = num_remapped_pgs;
    })

  -- m["osdmap"].(map[string]interface{})
  abbrev map_in : Option Json → Option (List (String × Json))
  map_in (some (obj fs)) = read_map Json.null raw [] fs
  map_in _ = none

  -- The map by the version: from Octopus on it is the outer one. `none` is a panic.
  unfoldable pub by_version : Bool → Option (List (String × Json)) → Option OsdMap
  unfolding read_osd_map
  by_version b none = some no_osds
  by_version true (some m) = read_osd_map m
  by_version false (some m) = do inner ← map_in (lookup "osdmap" m); read_osd_map inner

  abbrev pub osd_metrics : OsdMap → PgMap fl → List (Metric Value)
  osd_metrics o m =
      plain FlagDescs.osds_up o.num_up_osds
      ∷ plain FlagDescs.osds_in o.num_in_osds
      ∷ plain FlagDescs.osds_num o.num_osds
      ∷ plain FlagDescs.osds_down (sub o.num_osds o.num_up_osds)
      ∷ plain FlagDescs.remapped_pgs o.num_remapped_pgs
      ∷ plain total_pgs m.num_pgs
      ∷ plain FlagDescs.objects m.total_objects
      ∷ plain degraded_objects_count m.degraded_objects
      ∷ plain misplaced_objects_count m.misplaced_objects
      ∷ plain misplaced_ratio m.misplaced_ratio
      ∷ []

  -- The active manager, 0 or 1, and those that stand by, by the version.
  abbrev pub managers : Bool → MgrMap fl → ℕ × ℤ
  managers true m = (if m.available then 1 else 0, m.num_standbys)
  managers false m = (if string_beq m.active_name "" then 0 else 1, pos (length m.standbys))

  -- An `int` sum that is at least -2^63 and below 2^64, as the machine keeps it.
  abbrev wrapped : ℤ → ℤ
  wrapped (pos n) = if ltb n int64_bound then pos n else negsuc (2 ^ 64 - 1 - n)
  wrapped (negsuc n) = negsuc n

  abbrev one_more : ℤ → ℤ
  one_more (pos n) = pos (n + 1)
  one_more (negsuc zero) = pos 0
  one_more (negsuc (suc n)) = negsuc n

  -- activeMgr + standByMgrs, of which the first is 0 or 1
  abbrev pub plus : ℕ → ℤ → ℤ
  plus zero z = z
  plus (suc n) z = wrapped (one_more z)

  abbrev pub manager_metrics : ℕ × ℤ → List (Metric Value)
  manager_metrics (active, standby) =
      plain FlagDescs.mgrs_active (of_count fl active)
      ∷ plain FlagDescs.mgrs_num (of_int (plus active standby))
      ∷ []

  abbrev decode_metadata : Decoder String
  decode_metadata j = do fs ← fields j; get "id" "" string fs

  abbrev pub decode_daemon : Decoder String
  decode_daemon j = do fs ← fields j; get "metadata" "" decode_metadata fs

  abbrev pub up : Option String → List (Metric Value)
  up none = []
  up (some id) = const_metric fl FlagDescs.rbd_mirror_up (of_count fl 1) (id ∷ []) ∷ []

  -- The daemons of the mirrors, but for the entry "summary".
  unfoldable pub mirror_metrics : List (String × Json) → List (Metric Value)
  mirror_metrics [] = []
  mirror_metrics ((name, j) ∷ rest) =
      (if string_beq name "summary" then [] else up (decode_daemon j)) ++ mirror_metrics rest
