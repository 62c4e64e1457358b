-- ===== src/Osd/Collector.antt =====
-- `OSDCollector` of ceph/osd.go: its state, `Collect`, and the round of the loop that it starts.
pub mod Interleavings
pub mod Owners
pub mod Runs
pub mod Laws
use ceph_exporter.Base.{
  ℕ, String, Bool, true, false, Option, none, some, ◌>>=◌, List, [], ◌∷◌, ◌++◌, map, if◌then◌else◌,
}
use ceph_exporter.Float.{Float64, of_count}
use ceph_exporter.Prometheus.{Desc, Metric, GaugeVecs, gauge, metrics_of}
use ceph_exporter.Json.{Buffer, unmarshal}
use ceph_exporter.Conn.{Conn}
use ceph_exporter.Exporter.Interleaving.{concat}
use ceph_exporter.Osd.Descs.{osd_down, scrubbing_state, pg_objects_recovered}
use ceph_exporter.Osd.Labels.{TreeNode, build_osd_labels}
use ceph_exporter.Osd.Scrub.{Cache, PgStat, update}
use ceph_exporter.Osd.Inactive.{Tracked, round}
use ceph_exporter.Osd.Replies.{tree_command, pg_dump_command}
use ceph_exporter.Osd.Decoders.{decode_tree, decode_pg_dump}
use ceph_exporter.Osd.Names.{Labels}
use ceph_exporter.Osd.Usage.{collect_df}
use ceph_exporter.Osd.Gather.{collect_metadata, collect_perf, collect_dump}
use ceph_exporter.Osd.Sent.{collect_tree_down, scrub_metrics}
use ceph_exporter.Osd.Writes.{
  OsdGauge, crush_weight, depth, reweight, bytes, used_bytes, avail_bytes, utilization, variance,
  pgs, commit_latency, apply_latency, osd_in, osd_up, osd_metadata, oldest_inactive_pg, Write,
  write, Vecs, apply, apply_all, desc, collector_list,
}

-- The vectors that Collect resets.
abbrev pub is_reset : OsdGauge → Bool
is_reset crush_weight = true
is_reset depth = true
is_reset reweight = true
is_reset bytes = true
is_reset used_bytes = true
is_reset avail_bytes = true
is_reset utilization = true
is_reset variance = true
is_reset pgs = true
is_reset commit_latency = true
is_reset apply_latency = true
is_reset osd_in = true
is_reset osd_up = true
is_reset osd_metadata = true
is_reset _ = false

-- Describe
abbrev pub descriptors : List Desc
descriptors = map desc collector_list ++ (osd_down ∷ scrubbing_state ∷ pg_objects_recovered ∷ [])

-- performPGDumpBrief
unfoldable pub pg_dump : Conn → Option (List PgStat)
unfolding decode_pg_dump
pg_dump conn = do buf ← conn.mgr_command (pg_dump_command ∷ []); unmarshal decode_pg_dump buf

module _ (fl : Float64) where
  unfoldable pub tree_reply : Conn → Option (List (TreeNode fl.Value))
  unfolding decode_tree
  tree_reply conn = do buf ← conn.mon_command (tree_command []); unmarshal (decode_tree fl) buf

  unfoldable pub from_tree : Labels fl → Option (List (TreeNode fl.Value)) → Option (Labels fl)
  unfolding build_osd_labels
  from_tree old none = some old
  from_tree old (some ns) = build_osd_labels ns

  -- buildOSDLabelCache: an error, which the caller does not look at, leaves the old cache. `none` is
  -- a tree in which the climb to the parents has no end.
  unfoldable pub build_osd_label_cache : Conn → Labels fl → Option (Labels fl)
  unfolding tree_reply from_tree
  build_osd_label_cache conn old = from_tree old (tree_reply conn)

  unfoldable pub updated : Cache → Option (List PgStat) → Cache
  unfolding update
  updated cache none = cache
  updated cache (some groups) = update cache groups

  unfoldable pub reported : Labels fl → Cache → Option (List PgStat) → List (Metric fl.Value)
  unfolding scrub_metrics update
  reported labels cache none = []
  reported labels cache (some groups) = scrub_metrics fl labels (update cache groups)

  -- What the goroutines that fill gauges write, each in its own order.
  unfoldable pub writers : (Buffer → Buffer) → Conn → Labels fl → List (List (Write fl.Value))
  unfolding collect_perf collect_metadata collect_dump collect_df
  writers replace_nan conn labels =
      (collect_perf fl labels conn).0
      ∷ (collect_metadata fl conn).0
      ∷ (collect_dump fl labels conn).0
      ∷ (collect_df fl replace_nan labels conn).0
      ∷ []

  module _ (gv : GaugeVecs fl.Value) where
    pub record OsdCollector : Type 0 where
      pub osd_scrub_cache : Cache
      pub osd_labels_cache : Labels fl
      pub oldest_inactive_pg_map : Tracked
      pub vecs : Vecs fl gv

    unfoldable pub reset_all : Vecs fl gv → Vecs fl gv
    reset_all vecs g = if is_reset g then gv.reset (vecs g) else vecs g

    -- The collector, and what the other two goroutines have sent.
    pub record Collected : Type 0 where
      pub collector : OsdCollector
      pub down : List (Metric fl.Value)
      pub scrubbed : List (Metric fl.Value)

    -- Collect behind the labels, where the writes of the goroutines happen in the order `ws`; then all
    -- of collectorList is sent.
    unfoldable pub gather : Conn → List (Write fl.Value) → Labels fl → OsdCollector → Collected
    unfolding reset_all apply_all updated reported collect_tree_down
    gather conn ws labels o = record {
      collector = record o {
        osd_labels_cache = labels;
        osd_scrub_cache = updated o.osd_scrub_cache (pg_dump conn);
        vecs = apply_all fl gv ws (reset_all o.vecs);
      };
      down = collect_tree_down fl labels conn;
      scrubbed = reported labels o.osd_scrub_cache (pg_dump conn);
    }

    -- Collect; `none` where the labels are never built.
    unfoldable pub collect : Conn → List (Write fl.Value) → OsdCollector → Option Collected
    unfolding build_osd_label_cache gather
    collect conn ws o = do
      labels ← build_osd_label_cache conn o.osd_labels_cache
      some (gather conn ws labels o)

    unfoldable pub looped : ℕ → Option (List PgStat) → OsdCollector → OsdCollector
    unfolding round apply
    looped now none o = o
    looped now (some groups) o =
        let (tracked, seconds) = round now o.oldest_inactive_pg_map groups in
        record o {
          oldest_inactive_pg_map = tracked;
          vecs = apply fl gv (write oldest_inactive_pg [] (of_count fl seconds)) o.vecs;
        }

    -- A round of oldestInactivePGLoop.
    unfoldable pub loop_round : ℕ → Conn → OsdCollector → OsdCollector
    unfolding pg_dump looped
    loop_round now conn o = looped now (pg_dump conn) o

    -- A gauge that is no vector shows 0 from the beginning.
    abbrev pub initial : List String → gv.Vec
    initial [] = gv.set gv.new [] (of_count fl 0)
    initial (label ∷ labels) = gv.new

    -- NewOSDCollector
    abbrev pub new_osd_collector : OsdCollector
    new_osd_collector = record {
      osd_scrub_cache = [];
      osd_labels_cache = [];
      oldest_inactive_pg_map = [];
      vecs = λ g. initial (desc g).labels;
    }

    -- What collectorList sends, at the end of Collect.
    unfoldable pub vec_metrics : Vecs fl gv → List (Metric fl.Value)
    vec_metrics vecs = concat (map (λ g. metrics_of gv (desc g) gauge (vecs g)) collector_list)
