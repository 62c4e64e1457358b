-- ===== src/Health/Scrape.antt =====
-- `Describe` and `Collect` of ceph/health.go.
pub mod Luminous
use ceph_exporter.Base.{
  ℕ, String, ◌≡◌, refl, ap, ◌∙◌, true, Option, none, some, List, [], ◌∷◌, ◌++◌, map, lookup,
  string_eq, Text,
}
use mathlib.Core.List.{Perm}
use ceph_exporter.Float.{Float64, of_count}
use ceph_exporter.Prometheus.{Desc, Metric, gauge}
use ceph_exporter.Version.{Version}
use ceph_exporter.Conn.{Conn}
use ceph_exporter.Exporter.Interleaving.{Received, Received-Perm}
use ceph_exporter.Health.Descs
use ceph_exporter.Health.FlagDescs
use ceph_exporter.Health.Progress.{Progress, reached}
use ceph_exporter.Health.Collector.{ClusterHealthCollector, Visit, collect}
use ceph_exporter.Health.Io.{collect_recovery_client_io}

-- The legacy gauges of collectorsList by the names of their flags, OSDFlagToGaugeMap; the gauge of
-- the interpreter stands before them.
abbrev pub flag_gauges : List (String × Desc)
flag_gauges =
    ("full", FlagDescs.osd_map_flag_full)
    ∷ ("pauserd", FlagDescs.osd_map_flag_pause_rd)
    ∷ ("pausewr", FlagDescs.osd_map_flag_pause_wr)
    ∷ ("noup", FlagDescs.osd_map_flag_no_up)
    ∷ ("nodown", FlagDescs.osd_map_flag_no_down)
    ∷ ("noin", FlagDescs.osd_map_flag_no_in)
    ∷ ("noout", FlagDescs.osd_map_flag_no_out)
    ∷ ("nobackfill", FlagDescs.osd_map_flag_no_backfill)
    ∷ ("norecover", FlagDescs.osd_map_flag_no_recover)
    ∷ ("norebalance", FlagDescs.osd_map_flag_no_rebalance)
    ∷ ("noscrub", FlagDescs.osd_map_flag_no_scrub)
    ∷ ("nodeep_scrub", FlagDescs.osd_map_flag_no_deep_scrub)
    ∷ ("notieragent", FlagDescs.osd_map_flag_no_tier_agent)
    ∷ []

abbrev pub descriptor_list : List Desc
descriptor_list =
    Descs.health_status ∷ Descs.health_status_interpreter ∷ Descs.mons_down ∷ Descs.total_pgs
    ∷ Descs.degraded_pgs ∷ Descs.active_pgs ∷ Descs.stuck_degraded_pgs ∷ Descs.unclean_pgs
    ∷ Descs.stuck_unclean_pgs ∷ Descs.undersized_pgs ∷ Descs.stuck_undersized_pgs ∷ Descs.stale_pgs
    ∷ Descs.stuck_stale_pgs ∷ Descs.peering_pgs ∷ Descs.scrubbing_pgs ∷ Descs.deep_scrubbing_pgs
    ∷ Descs.recovering_pgs ∷ Descs.recovery_wait_pgs ∷ Descs.backfilling_pgs
    ∷ Descs.backfill_wait_pgs ∷ Descs.forced_recovery_pgs ∷ Descs.forced_backfill_pgs
    ∷ Descs.down_pgs ∷ Descs.incomplete_pgs ∷ Descs.inconsistent_pgs ∷ Descs.snaptrim_pgs
    ∷ Descs.snaptrim_wait_pgs ∷ Descs.repairing_pgs ∷ Descs.slow_ops ∷ Descs.degraded_objects_count
    ∷ Descs.misplaced_objects_count ∷ Descs.misplaced_ratio ∷ Descs.new_crash_report_count
    ∷ FlagDescs.too_many_repairs ∷ FlagDescs.objects ∷ FlagDescs.osd_map_flag_full
    ∷ FlagDescs.osd_map_flag_pause_rd ∷ FlagDescs.osd_map_flag_pause_wr
    ∷ FlagDescs.osd_map_flag_no_up ∷ FlagDescs.osd_map_flag_no_down ∷ FlagDescs.osd_map_flag_no_in
    ∷ FlagDescs.osd_map_flag_no_out ∷ FlagDescs.osd_map_flag_no_backfill
    ∷ FlagDescs.osd_map_flag_no_recover ∷ FlagDescs.osd_map_flag_no_rebalance
    ∷ FlagDescs.osd_map_flag_no_scrub ∷ FlagDescs.osd_map_flag_no_deep_scrub
    ∷ FlagDescs.osd_map_flag_no_tier_agent ∷ FlagDescs.osds_down ∷ FlagDescs.osds_up
    ∷ FlagDescs.osds_in ∷ FlagDescs.osds_num ∷ FlagDescs.remapped_pgs ∷ FlagDescs.recovery_io_rate
    ∷ FlagDescs.recovery_io_keys ∷ FlagDescs.recovery_io_objects
    ∷ FlagDescs.client_read_bytes_per_sec ∷ FlagDescs.client_write_bytes_per_sec
    ∷ FlagDescs.client_io_ops ∷ FlagDescs.client_io_read_ops ∷ FlagDescs.client_io_write_ops
    ∷ FlagDescs.cache_flush_io_rate ∷ FlagDescs.cache_evict_io_rate ∷ FlagDescs.cache_promote_io_ops
    ∷ FlagDescs.mgrs_active ∷ FlagDescs.mgrs_num ∷ Descs.pg_state ∷ []

-- Describe
abbrev pub descriptors : List Desc
descriptors = FlagDescs.rbd_mirror_up ∷ descriptor_list

module _ (fl : Float64) where
  open fl use {Value}

  abbrev pub or_zero : Option Value → Value
  or_zero none = of_count fl 0
  or_zero (some x) = x

  abbrev pub gauge_metric : Desc → Value → Metric Value
  gauge_metric d x = record { desc = d; kind = gauge; value = x; labels = [] }

  -- What the gauges of collectorsList send, at the end of Collect.
  unfoldable pub gauge_metrics : Progress fl → List (Metric Value)
  gauge_metrics p =
      gauge_metric Descs.health_status_interpreter p.interpreter
      ∷ map (λ (name, d). gauge_metric d (or_zero (lookup name p.flags))) flag_gauges

  -- What the two goroutines of Collect send, each in its own order; `plain` is the reply to `ceph
  -- status` in the plain format.
  unfoldable pub senders :
      Visit → Conn → Option Text → Version → ClusterHealthCollector fl → List (List (Metric Value))
  unfolding collect collect_recovery_client_io
  senders visit conn plain version c =
      (reached (collect fl visit conn version c)).sent
      ∷ (collect_recovery_client_io fl plain).0
      ∷ []

  abbrev pub kept : Progress fl → ClusterHealthCollector fl
  kept p = record { interpreter = p.interpreter; flags = p.flags; checks = p.checks }

  -- Collect, where the goroutines' metrics are received in the order `order`.
  unfoldable pub scrape :
      Visit
      → Conn
      → List (Metric Value)
      → Version
      → ClusterHealthCollector fl
      → ClusterHealthCollector fl × List (Metric Value)
  unfolding collect gauge_metrics
  scrape visit conn order version c =
      let p = reached (collect fl visit conn version c) in (kept p, order ++ gauge_metrics p)
