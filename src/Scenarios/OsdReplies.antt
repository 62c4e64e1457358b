-- ===== src/Scenarios/OsdReplies.antt =====
-- The theorems on the gauges of OSDs, at a cluster of one OSD that is full.
use ceph_exporter.Base.{
  ℕ, String, ◌≡◌, refl, sym, Option, ◌∙◌, if◌then◌else◌, none, some, List, [], ◌∷◌, ◌++◌, pos,
  string_eq, strings_eq, lookup, length,
}
use mathlib.Core.List.{Memᴰ}
use mathlib.Core.Path.{subst}
use ceph_exporter.Version.Decimal.{atoi, print_nat}
use ceph_exporter.Prometheus.{Metric, IsWellFormed}
use ceph_exporter.Json.{str, num, get, items}
use ceph_exporter.Conn.{Conn}
use ceph_exporter.Exporter.Interleaving.{Received, closed, returned, concat}
use ceph_exporter.Osd.Names.{Labels, labels_of, label_from_name, scan_id}
use ceph_exporter.Osd.Replies.{DfNode, DfSummary, Df, DumpInfo}
use ceph_exporter.Osd.Usage.{df_nodes, from_df}
use ceph_exporter.Osd.Usage.Columns.{
  Column, used_bytes_column, Total, bytes_total, shown_by, total_shown_by, last_row, cell,
  AreReadable,
}
use ceph_exporter.Osd.Usage.Columns as Columns
use ceph_exporter.Osd.Usage.Laws.{total, IsReadableSummary, from_df-last_row, from_df-unread_kb}
use ceph_exporter.Osd.Gather.{dump_infos}
use ceph_exporter.Osd.Gather.Flags.{full, last_flag, dump_infos-last_flag}
use ceph_exporter.Osd.Gather.Flags as Flags
use ceph_exporter.Osd.Writes.{
  OsdGauge, desc, osd_full, osd_near_full, osd_backfill_full, osd_in, osd_up, osd_metadata,
  osd_full_ratio, osd_near_full_ratio, osd_backfill_full_ratio, pg_upmap_items_total, crush_weight,
  depth, reweight, Write, write, going, returned, same,
}
use ceph_exporter.Osd.Collector.{
  OsdCollector, Collected, collect, gather, build_osd_label_cache, tree_reply, is_reset, writers,
}
use ceph_exporter.Osd.Collector.Interleavings.{last_write}
use ceph_exporter.Osd.Collector.Laws.{IsAcyclic, collect-last_write, collect-IsWellFormed}
use ceph_exporter.Osd.Labels.{TreeNode}
use ceph_exporter.Scenarios.Osds
use ceph_exporter.Scenarios.Osds.{tree, depth-IsRanked, depth_le}
use ceph_exporter.Scenarios.{drain, whole, vectors, object, array, cluster}

abbrev pub osds : Conn
osds = cluster (
    (
      "osd tree",
      object (
          (
            "nodes",
            array (
                object (
                  ("id", num "-2")
                  ∷ ("name", str "node1")
                  ∷ ("type", str "host")
                  ∷ ("crush_weight", num "1")
                  ∷ ("children", array (num "0" ∷ []))
                  ∷ [])
                ∷ object (
                    ("id", num "0")
                    ∷ ("name", str "osd.0")
                    ∷ ("type", str "osd")
                    ∷ ("crush_weight", num "1")
                    ∷ [])
                ∷ []),
          )
          ∷ []),
    )
    ∷ (
      "osd metadata",
      array (
          object (
            ("id", num "0")
            ∷ ("ceph_version_when_created", str "v16")
            ∷ ("created_at", str "2024")
            ∷ ("osd_objectstore", str "bluestore")
            ∷ [])
          ∷ []),
    )
    ∷ (
      "osd dump",
      object (
          ("full_ratio", num "9")
          ∷ ("nearfull_ratio", num "8")
          ∷ ("backfillfull_ratio", num "7")
          ∷ (
            "osds",
            array (
                object (
                  ("osd", num "0")
                  ∷ ("up", num "1")
                  ∷ ("in", num "1")
                  ∷ ("state", array (str "exists" ∷ str "full" ∷ []))
                  ∷ [])
                ∷ []),
          )
          ∷ []),
    )
    ∷ [])

abbrev names : List String
names = "osd.0" ∷ "" ∷ "" ∷ "" ∷ "" ∷ []

abbrev stored : Write ℕ
stored = write osd_metadata ("0" ∷ "bluestore" ∷ "v16" ∷ "2024" ∷ []) 1

abbrev dumped : List (Write ℕ)
dumped =
    write osd_near_full_ratio [] 8
    ∷ write osd_backfill_full_ratio [] 7
    ∷ write pg_upmap_items_total [] 0
    ∷ write osd_in names 1
    ∷ write osd_up names 1
    ∷ write osd_full names 0
    ∷ write osd_near_full names 0
    ∷ write osd_backfill_full names 0
    ∷ write osd_full names 1
    ∷ []

abbrev order : List (Write ℕ)
order = write osd_full_ratio [] 9 ∷ stored ∷ dumped

-- An OSD that was full before, and is no longer in the cluster.
abbrev gone : List String
gone = "osd.7" ∷ "" ∷ "" ∷ "" ∷ "" ∷ []

abbrev filled : OsdGauge → List (List String × ℕ)
filled g = if same g osd_full then (gone, 1) ∷ [] else []

abbrev collector : OsdCollector whole vectors
collector = record {
  osd_scrub_cache = [];
  osd_labels_cache = [];
  oldest_inactive_pg_map = [];
  vecs = filled;
}

osds_tree : tree_reply whole osds ≡ some tree
unfolding tree_reply lookup items get atoi
osds_tree = refl

pub osds-IsAcyclic : (ns : List (TreeNode ℕ)) → tree_reply whole osds ≡ some ns → IsAcyclic ns
osds-IsAcyclic ns e =
    subst (λ (o : Option (List (TreeNode ℕ))). of_tree o) (sym osds_tree ∙ e)
      (Osds.depth, depth-IsRanked, depth_le)
  where
    of_tree : Option (List (TreeNode ℕ)) → Type 0
    of_tree none = Unit
    of_tree (some ns) = IsAcyclic ns

-- The goroutines run one after the other.
abbrev in_turn : Labels whole → List (Write ℕ)
in_turn labels = concat (writers whole (λ b. b) osds labels)

pub in_turn-Received : {A : Type 0} (outs : List (List A)) → Received outs (concat outs)
in_turn-Received [] = closed
in_turn-Received (ws ∷ outs) = drain ws (in_turn-Received outs)

collect-last_write_example :
    (labels : Labels whole) × (c : Collected whole vectors) × (build_osd_label_cache whole osds []
      ≡ some labels)
    × (collect whole vectors osds (in_turn labels) collector ≡ some c)
    × ((g : OsdGauge) (ls : List String)
        → lookup ls (c.collector.vecs g)
          ≡ last_write g ls (if is_reset g then none else lookup ls (filled g)) (in_turn labels))
collect-last_write_example =
    collect-last_write whole vectors (λ b. b) osds collector in_turn osds-IsAcyclic
      (λ labels. in_turn-Received (writers whole (λ b. b) osds labels))

collect-IsWellFormed_example :
    ((w : Write ℕ)
      → Memᴰ w (concat (writers whole (λ b. b) osds []))
      → length w.labels ≡ length (desc w.gauge).labels)
    × ((m : Metric ℕ) → Memᴰ m (gather whole vectors osds order [] collector).down → IsWellFormed m)
    × ((m : Metric ℕ)
        → Memᴰ m (gather whole vectors osds order [] collector).scrubbed
        → IsWellFormed m)
collect-IsWellFormed_example = collect-IsWellFormed whole vectors (λ b. b) osds [] order collector

abbrev node : String → DfNode
node kb = record {
  name = "osd.0";
  crush_weight = "1";
  depth = "2";
  reweight = "1";
  kb = kb;
  used_kb = "5";
  avail_kb = "3";
  utilization = "60";
  variance = "1";
  pgs = "many";
}

abbrev summary : DfSummary
summary = record { total_kb = "8"; total_used_kb = "5"; total_avail_kb = "3"; average_util = "60" }

abbrev table : Df
table = record { nodes = node "8" ∷ []; summary = summary }

node-IsReadable : Columns.IsReadable whole (node "8")
unfolding atoi
node-IsReadable = record {
  reads_crush_weight = (1, refl);
  reads_depth = (2, refl);
  reads_reweight = (1, refl);
  reads_kb = (8, refl);
  reads_used_kb = (5, refl);
  reads_avail_kb = (3, refl);
  reads_utilization = (60, refl);
  reads_variance = (1, refl);
}

nodes-AreReadable : AreReadable whole (node "8" ∷ [])
unfolding AreReadable
nodes-AreReadable = (node-IsReadable, tt)

summary-IsReadableSummary : IsReadableSummary whole summary
unfolding atoi
summary-IsReadableSummary = record {
  reads_total_kb = (8, refl);
  reads_total_used_kb = (5, refl);
  reads_total_avail_kb = (3, refl);
  reads_average_util = (60, refl);
}

from_df-last_row_example :
    ((from_df whole [] (some table)).1 ≡ going)
    × ((c : Column) (ls : List String)
        → last_write (shown_by c) ls none (from_df whole [] (some table)).0
          ≡ last_row whole [] c ls none (node "8" ∷ []))
    × ((t : Total)
        → last_write (total_shown_by t) [] none (from_df whole [] (some table)).0
          ≡ total whole t summary)
from_df-last_row_example =
    from_df-last_row whole [] table none (nodes-AreReadable, summary-IsReadableSummary)

from_df-unread_kb_example :
    from_df whole []
      (some (record { nodes = node "8" ∷ node "none" ∷ node "8" ∷ []; summary = summary }))
    ≡ (
      (df_nodes whole [] (node "8" ∷ [])).0
          ++ (write crush_weight names 1 ∷ write depth names 2 ∷ write reweight names 1 ∷ []),
      returned,
    )
unfolding atoi scan_id lookup label_from_name
from_df-unread_kb_example =
    from_df-unread_kb whole [] (node "8" ∷ []) (node "none") (node "8" ∷ []) summary
      nodes-AreReadable (1, refl) (2, refl) (1, refl) refl

abbrev info : DumpInfo
info = record { osd = "0"; up = "1"; is_in = "1"; state = "exists" ∷ "full" ∷ [] }

info-IsReadable : Flags.IsReadable whole info
unfolding atoi
info-IsReadable = record {
  id = pos 0;
  reads_osd = refl;
  is_in = 1;
  reads_in = refl;
  is_up = 1;
  reads_up = refl;
}

infos-AreReadable : Flags.AreReadable whole (info ∷ [])
unfolding Flags.AreReadable
infos-AreReadable = (info-IsReadable, tt)

dump_infos-last_flag_example :
    ((dump_infos whole [] (info ∷ [])).1 ≡ going)
    × (last_write osd_full names none (dump_infos whole [] (info ∷ [])).0 ≡ some 1)
unfolding last_flag labels_of lookup infos-AreReadable info-IsReadable print_nat
dump_infos-last_flag_example =
    dump_infos-last_flag whole [] none full names (info ∷ []) infos-AreReadable
