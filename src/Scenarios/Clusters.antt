-- ===== src/Scenarios/Clusters.antt =====
-- The theorems on the health of a cluster, at one with a monitor down and flags set.
use ceph_exporter.Base.{
  String, ◌≡◌, refl, some, List, [], ◌∷◌, lookup, map, string_eq, strings_eq, insert, codes,
}
use mathlib.Core.List.{Perm}
use mathlib.Core.List.Perm as Perms
use ceph_exporter.Json.{read_map, Json, str, num, get}
use ceph_exporter.Conn.{Conn}
use ceph_exporter.Prometheus.{keyed}
use ceph_exporter.Version.{quincy, is_at_least}
use ceph_exporter.Version.Decimal.{atoi}
use ceph_exporter.Health.Descs.{pg_state, active_pgs}
use ceph_exporter.Health.Messages.{mons_down}
use ceph_exporter.Health.KnownChecks.{known_checks}
use ceph_exporter.Health.States.{PgsByState, send_states}
use ceph_exporter.Health.States.Laws.{total, send_states-total}
use ceph_exporter.Health.Totals.{by_version}
use ceph_exporter.Health.Progress.{Progress, reached}
use ceph_exporter.Health.Checks.{extended}
use ceph_exporter.Health.Checks.Results.{ShowsWarning, IsTable, made, renewed, any_known}
use ceph_exporter.Health.Reply.{HealthStats, zero_pg_map, zero_mgr_map}
use ceph_exporter.Health.Collector.{
  ClusterHealthCollector, Visit, new_cluster_health_collector, stats_reply, collect,
}
use ceph_exporter.Health.Collector.Laws.{Shows, collect-Shows}
use ceph_exporter.Health.Collector.Table.{collect-ShowsWarning}
use ceph_exporter.Scenarios.{whole, object, cluster}

abbrev entries : List (PgsByState whole)
entries =
    record { states = "active+clean"; count = 7 }
    ∷ record { states = "active+clean+scrubbing+deep"; count = 2 }
    ∷ []

send_states-total_example :
    lookup (pg_state.name ∷ "active" ∷ []) (map keyed (send_states whole entries))
    ≡ some (total whole (codes "active") 0 entries)
unfolding lookup
send_states-total_example = send_states-total whole entries "active" active_pgs refl

abbrev checks : List (String × String)
checks =
    ("OSDMAP_FLAGS", "noout,noscrub flag(s) set") ∷ ("MON_DOWN", "1/3 mons down, quorum b,c") ∷ []

abbrev check : String → Json
check message =
    object
      (("severity", str "HEALTH_WARN") ∷ ("summary", object (("message", str message) ∷ [])) ∷ [])

abbrev health : Json
health = object (
    ("status", str "HEALTH_ERR")
    ∷ (
      "checks",
      object (
          ("OSDMAP_FLAGS", check "noout,noscrub flag(s) set")
          ∷ ("MON_DOWN", check "1/3 mons down, quorum b,c")
          ∷ []),
    )
    ∷ [])

abbrev osds : Json
osds = object (
    ("num_osds", num "3")
    ∷ ("num_up_osds", num "2")
    ∷ ("num_in_osds", num "3")
    ∷ ("num_remapped_pgs", num "0")
    ∷ [])

abbrev pub sick : Conn
sick = cluster (("status", object (("health", health) ∷ ("osdmap", osds) ∷ [])) ∷ [])

abbrev fresh : ClusterHealthCollector whole
fresh = new_cluster_health_collector whole

abbrev stats : HealthStats whole
stats = record {
  summaries = [];
  status = "HEALTH_ERR";
  checks = checks;
  osd_map = some (
      ("num_osds", num "3")
      ∷ ("num_up_osds", num "2")
      ∷ ("num_in_osds", num "3")
      ∷ ("num_remapped_pgs", num "0")
      ∷ []);
  pg_map = zero_pg_map whole;
  mgr_map = zero_mgr_map whole;
  mirror_daemons = [];
}

stats_reply-sick : stats_reply whole sick ≡ some stats
unfolding stats_reply get lookup read_map atoi insert
stats_reply-sick = refl

-- The order in which `range` happens to visit the two checks.
abbrev backwards : Visit
backwards (c ∷ d ∷ []) = d ∷ c ∷ []
backwards cs = cs

backwards-Perm : Perm (backwards stats.checks) stats.checks
backwards-Perm = Perms.swap _ _ _

collect-Shows_example :
    Shows whole quincy known_checks stats
      (backwards stats.checks)
      (reached (collect whole backwards sick quincy fresh))
unfolding collect lookup get read_map atoi insert mons_down by_version is_at_least
collect-Shows_example =
    collect-Shows whole backwards sick quincy fresh stats
      (reached (collect whole backwards sick quincy fresh)) backwards-Perm refl stats_reply-sick
      refl

-- After a first collection that has read two checks.
abbrev second : ClusterHealthCollector whole
second = record fresh { checks = extended quincy (extended quincy known_checks) }

abbrev collected_again : Progress whole
collected_again = reached (collect whole backwards sick quincy second)

collect-ShowsWarning_example :
    ShowsWarning whole collected_again.interpreter × IsTable collected_again.checks
unfolding collect lookup get read_map atoi insert mons_down by_version is_at_least any_known
collect-ShowsWarning_example =
    collect-ShowsWarning whole backwards sick quincy second stats collected_again backwards-Perm
      (renewed quincy (renewed quincy made)) stats_reply-sick refl refl
