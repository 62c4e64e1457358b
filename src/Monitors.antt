-- ===== src/Monitors.antt =====
-- ceph/monitors.go: the quorum, the clocks and the latency of the monitors, and the versions and
-- features of all daemons.
pub mod Descs
pub mod Tags
pub mod Commands
pub mod Laws
use ceph_exporter.Base.{
  ℕ, String, Bool, true, false, Option, none, some, ◌>>=◌, List, [], ◌∷◌, ◌++◌, map, length, ℤ, pos,
  codes, string_of, insert, lookup, string_eq, if◌then◌else◌,
}
use ceph_exporter.Float.{Float64, of_count, parse}
use ceph_exporter.Prometheus.{Desc, Metric, gauge, GaugeVecs, metrics_of}
use ceph_exporter.Json.{Buffer, Decoder, fields, get, string, int, number, slice, map_of, unmarshal}
use ceph_exporter.Conn.{Conn, Command, word}
use ceph_exporter.Exporter.Versions.{
  Gabs, Children, children, not_obj, other_error, ceph_versions_command, parse_ceph_versions,
}
use Commands.{TimeCheck, FeatureGroup, Features, GabsArrays, Replies, replies}
use Descs
use Tags.{VersionTags, find_tags}

-- Describe
abbrev pub descriptors : List Desc
descriptors =
    Descs.clock_skew ∷ Descs.latency ∷ Descs.ceph_versions ∷ Descs.ceph_features
    ∷ Descs.nodesin_quorum ∷ []

module _ (fl : Float64) (ga : GabsArrays fl.Value) where
  open fl use {Value, of_int}

  -- The label values under which a version is counted.
  abbrev pub tagged : String → Option VersionTags → List String
  tagged daemon none = daemon ∷ "unknown" ∷ "unknown" ∷ "unknown" ∷ []
  tagged daemon (some t) =
      daemon ∷ string_of t.version_tag ∷ string_of t.sha1 ∷ string_of t.release_tag ∷ []

  unfoldable pub version_labels : String → String × Value → List String × Value
  unfolding find_tags
  version_labels daemon (version, n) = (tagged daemon (find_tags (codes version)), n)

  abbrev pub feature_labels : String → FeatureGroup → List String × Value
  feature_labels daemon g = (daemon ∷ g.release ∷ g.features ∷ [], of_int g.num)

  module _ (gv : GaugeVecs fl.Value) where
    pub record MonitorCollector : Type 0 where
      pub clock_skew : gv.Vec
      pub latency : gv.Vec
      pub nodesin_quorum : Value
      pub ceph_versions : gv.Vec
      pub ceph_features : gv.Vec

    -- WithLabelValues(ls).Set(x), for each of a list
    unfoldable pub set_all : gv.Vec → List (List String × Value) → gv.Vec
    set_all v [] = v
    set_all v ((ls, x) ∷ rest) = set_all (gv.set v ls x) rest

    unfoldable pub set_versions : gv.Vec → List (String × List (String × Value)) → gv.Vec
    unfolding set_all version_labels
    set_versions v [] = v
    set_versions v ((daemon, counts) ∷ rest) =
        set_versions (set_all v (map (version_labels daemon) counts)) rest

    unfoldable pub set_features : gv.Vec → Features → gv.Vec
    unfolding set_all
    set_features v [] = v
    set_features v ((daemon, groups) ∷ rest) =
        set_features (set_all v (map (feature_labels daemon) groups)) rest

    abbrev pub reset : MonitorCollector → MonitorCollector
    reset c = record c {
      latency = gv.reset c.latency;
      clock_skew = gv.reset c.clock_skew;
      ceph_versions = gv.reset c.ceph_versions;
      ceph_features = gv.reset c.ceph_features;
    }

    -- The loop over the checks: a number that cannot be read ends it, with `false`.
    unfoldable pub set_checks :
        List (String × TimeCheck) → MonitorCollector → MonitorCollector × Bool
    set_checks [] c = (c, true)
    set_checks ((mon, t) ∷ rest) c = elim (parse fl t.skew) [
      | none ↦ (c, false)
      | some skew ↦ elim (parse fl t.latency) [
        | none ↦ (record c { clock_skew = gv.set c.clock_skew (mon ∷ []) skew }, false)
        | some latency ↦ set_checks rest (record c {
          clock_skew = gv.set c.clock_skew (mon ∷ []) skew;
          latency = gv.set c.latency (mon ∷ []) latency;
        })
      ]
    ]

    unfoldable pub set_rest : Replies fl ga → MonitorCollector × Bool → MonitorCollector × Bool
    unfolding set_versions set_features
    set_rest r (c, false) = (c, false)
    set_rest r (c, true) = (
      record c {
        nodesin_quorum = of_count fl (length r.quorum);
        ceph_versions = set_versions c.ceph_versions r.versions;
        ceph_features = set_features c.ceph_features r.features;
      },
      true,
    )

    unfoldable pub show : Option (Replies fl ga) → MonitorCollector → MonitorCollector × Bool
    unfolding set_checks set_rest
    show none c = (c, false)
    show (some r) c = set_rest r (set_checks r.time_checks (reset c))

    -- Collect: the gauges, and whether they are sent.
    unfoldable pub collect : Conn → MonitorCollector → MonitorCollector × Bool
    unfolding replies show
    collect conn c = show (replies fl ga conn) c

    -- NewMonitorCollector
    abbrev pub new_monitor_collector : MonitorCollector
    new_monitor_collector = record {
      clock_skew = gv.new;
      latency = gv.new;
      nodesin_quorum = of_count fl 0;
      ceph_versions = gv.new;
      ceph_features = gv.new;
    }

    -- What collectorList and metricsList send, at the end of Collect.
    unfoldable pub sent_metrics : MonitorCollector → List (Metric fl.Value)
    sent_metrics c =
        metrics_of gv Descs.clock_skew gauge c.clock_skew
        ++ metrics_of gv Descs.latency gauge c.latency
        ++ metrics_of gv Descs.ceph_versions gauge c.ceph_versions
        ++ metrics_of gv Descs.ceph_features gauge c.ceph_features
        ++ record {
          desc = Descs.nodesin_quorum;
          kind = gauge;
          value = c.nodesin_quorum;
          labels = [];
        }
          ∷ []
