-- ===== src/Osd/Sent.antt =====
-- What `collectOSDTreeDown` and `collectOSDScrubState` of ceph/osd.go send.
use ceph_exporter.Base.{
  ℕ, Option, none, some, ◌>>=◌, List, [], ◌∷◌, ◌++◌, map, ℤ, string_beq, int_eq, if◌then◌else◌,
}
use ceph_exporter.Float.{Float64, of_count}
use ceph_exporter.Prometheus.{Metric, gauge}
use ceph_exporter.Json.{unmarshal}
use ceph_exporter.Conn.{Conn}
use ceph_exporter.Osd.Descs.{osd_down, scrubbing_state}
use ceph_exporter.Osd.Scrub.{Cache}
use ceph_exporter.Osd.Replies.{OsdNode, tree_command}
use ceph_exporter.Osd.Decoders.{decode_tree_down}
use ceph_exporter.Osd.Names.{Labels, label_from_name, label_values, labels_of}

module _ (fl : Float64) where
  open fl use {Value, of_int, mul, div}

  unfoldable pub down_metric : Labels fl → OsdNode → Metric Value
  unfolding label_from_name
  down_metric labels n = record {
    desc = osd_down;
    kind = gauge;
    value = of_count fl 1;
    labels = n.status ∷ label_values fl n.name (label_from_name fl labels n.name);
  }

  unfoldable pub down_metrics : Labels fl → List OsdNode → List (Metric Value)
  unfolding down_metric
  down_metrics labels [] = []
  down_metrics labels (n ∷ ns) =
      (if string_beq n.type "osd" then down_metric labels n ∷ [] else []) ++ down_metrics labels ns

  unfoldable pub from_tree_down : Labels fl → Option (List OsdNode) → List (Metric Value)
  unfolding down_metrics
  from_tree_down labels none = []
  from_tree_down labels (some ns) = down_metrics labels ns

  -- collectOSDTreeDown
  unfoldable pub collect_tree_down : Labels fl → Conn → List (Metric Value)
  unfolding decode_tree_down from_tree_down
  collect_tree_down labels conn =
      from_tree_down labels
        (do buf ← conn.mon_command (tree_command ("down" ∷ [])); unmarshal decode_tree_down buf)

  unfoldable pub scrub_metric : Labels fl → ℤ × ℕ → Metric Value
  unfolding labels_of
  scrub_metric labels (osd, state) = record {
    desc = scrubbing_state;
    kind = gauge;
    value = of_count fl state;
    labels = labels_of fl labels osd;
  }

  -- The last loop of collectOSDScrubState.
  unfoldable pub scrub_metrics : Labels fl → Cache → List (Metric Value)
  unfolding scrub_metric
  scrub_metrics labels cache = map (scrub_metric labels) cache
