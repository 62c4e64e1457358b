-- ===== src/Health/Collector.antt =====
-- `ClusterHealthCollector` of ceph/health.go and its `collect`.
pub mod Laws
pub mod Safety
pub mod WellFormed
pub mod Table
use ceph_exporter.Base.{ℕ, String, Bool, true, false, Option, none, some, List, [], ◌∷◌, ◌++◌, map}
use ceph_exporter.Float.{Float64, of_count}
use ceph_exporter.Prometheus.{Metric}
use ceph_exporter.Version.{Version, is_at_least, octopus}
use ceph_exporter.Json.{unmarshal}
use ceph_exporter.Conn.{Conn, Command, word}
use ceph_exporter.Health.States.{send_states}
use ceph_exporter.Health.KnownChecks.{known_checks}
use ceph_exporter.Health.Progress.{Progress, Outcome, going, failed, panicked, ◌>>=◌}
use ceph_exporter.Health.Checks.{
  zero_gauges, zero_flag, flag_names, set_status, read_summaries, read_checks,
}
use ceph_exporter.Health.Reply.{HealthStats, decode_stats}
use ceph_exporter.Health.Totals.{
  OsdMap, rate_metrics, by_version, osd_metrics, managers, manager_metrics, mirror_metrics,
}

-- ceph status
abbrev pub status_command : Command
status_command = ("prefix", word "status") ∷ ("format", word "json") ∷ []

-- An order in which `range` visits the checks of a reply, which are a map: Go leaves it open.
abbrev pub Visit : Type 0
Visit = List (String × String) → List (String × String)

abbrev pub is_empty : List (String × ℕ) → Bool
is_empty [] = true
is_empty (check ∷ rest) = false

module _ (fl : Float64) where
  -- What the collector keeps from one collection to the next.
  pub record ClusterHealthCollector : Type 0 where
    pub interpreter : fl.Value
    pub flags : List (String × fl.Value)
    pub checks : List (String × ℕ)

  -- NewClusterHealthCollector
  abbrev pub new_cluster_health_collector : ClusterHealthCollector
  new_cluster_health_collector = record {
    interpreter = of_count fl 0;
    flags = map (zero_flag fl) flag_names;
    checks = known_checks;
  }

  unfoldable pub stats_reply : Conn → Option (HealthStats fl)
  unfolding decode_stats
  stats_reply conn = elim (conn.mon_command status_command) [
    | none ↦ none
    | some buf ↦ unmarshal (decode_stats fl) buf
  ]

  abbrev begin : ClusterHealthCollector → Progress fl
  begin c = record { interpreter = c.interpreter; flags = c.flags; checks = c.checks; sent = [] }

  abbrev pub send_all : List (Metric fl.Value) → Progress fl → Progress fl
  send_all ms p = record p { sent = p.sent ++ ms }

  abbrev pub send_osds :
      Version → HealthStats fl → Option (OsdMap fl) → Progress fl → Outcome (Progress fl)
  unfolding mirror_metrics
  send_osds version stats none p = panicked p
  send_osds version stats (some o) p = going (
      send_all
        (osd_metrics fl o stats.pg_map
          ++ (manager_metrics fl (managers fl (is_at_least version octopus) stats.mgr_map)
              ++ mirror_metrics fl stats.mirror_daemons))
        p)

  -- The gauges and the checks, and then what is only sent.
  unfoldable pub read_health :
      Visit → Version → HealthStats fl → Progress fl → Outcome (Progress fl)
  unfolding zero_gauges set_status read_summaries read_checks
  read_health visit version stats p =
      read_summaries fl stats.summaries (set_status fl stats.status (zero_gauges fl p))
      >>= read_checks fl version (is_empty p.checks) (visit stats.checks)

  unfoldable pub send_totals : Version → HealthStats fl → Progress fl → Outcome (Progress fl)
  unfolding send_states by_version send_osds
  send_totals version stats p =
      send_osds version stats (by_version fl (is_at_least version octopus) stats.osd_map)
        (send_all (send_states fl stats.pg_map.pgs_by_state ++ rate_metrics fl stats.pg_map) p)

  unfoldable pub collect_stats :
      Visit → Version → Option (HealthStats fl) → Progress fl → Outcome (Progress fl)
  unfolding read_health send_totals
  collect_stats visit version none p = failed p
  collect_stats visit version (some stats) p =
      read_health visit version stats p >>= send_totals version stats

  -- collect
  unfoldable pub collect : Visit → Conn → Version → ClusterHealthCollector → Outcome (Progress fl)
  unfolding stats_reply collect_stats
  collect visit conn version c = collect_stats visit version (stats_reply conn) (begin c)
