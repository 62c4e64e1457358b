-- ===== src/Health/Collector/WellFormed.antt =====
-- The metrics of `collect` of ceph/health.go have a label value for each of their labels.
use ceph_exporter.Base.{
  String, ◌≡◌, refl, Bool, true, false, Option, none, some, List, [], ◌∷◌, ◌++◌, all, all-append,
  both, length, ◌==◌, ==_iff, string_beq, string_eq, if◌then◌else◌,
}
use ceph_exporter.Float.{Float64}
use ceph_exporter.Json.{Json}
use ceph_exporter.Conn.{Conn}
use ceph_exporter.Version.{Version, is_at_least, octopus}
use ceph_exporter.Prometheus.{Desc, Metric}
use ceph_exporter.Prometheus.WellFormed.{is_well_formed, are_well_formed}
use ceph_exporter.Health.Progress.{Progress, reached}
use ceph_exporter.Health.Checks as Checks
use ceph_exporter.Health.States as States
use ceph_exporter.Health.Totals as Totals
use ceph_exporter.Health.Reply.{HealthStats}
use ceph_exporter.Health.Collector as Health
use ceph_exporter.Health.Checks.WellFormed.{
  is_fit, is_sound, going-is_sound, panicked-is_sound, zero-is_fit, >>=-is_sound, send_all-is_fit,
  read_summaries-is_sound, read_checks-is_sound, set_status-is_fit,
}

module _ (fl : Float64) where
  open fl use {Value}

  read_health-is_sound :
      (visit : Health.Visit) (v : Version) (stats : HealthStats fl) (p : Progress fl)
      → is_fit fl p ≡ true
      → is_sound fl (Health.read_health fl visit v stats p) ≡ true
  unfolding Health.read_health
  read_health-is_sound visit v stats p h =
      >>=-is_sound fl (Checks.read_summaries fl stats.summaries _) _
        (read_summaries-is_sound fl stats.summaries _
          (set_status-is_fit fl stats.status _ (zero-is_fit fl p h)))
        (λ q k. read_checks-is_sound fl v (Health.is_empty p.checks) (visit stats.checks) q k)

  -- The gauges of the states have no labels.
  state_metrics-are_well_formed :
      (m : States.Counters fl) (gauges : List (String × Desc))
      → all (λ (state, d). length d.labels == 0) gauges ≡ true
      → are_well_formed (States.state_metrics fl m gauges) ≡ true
  unfolding States.state_metrics
  state_metrics-are_well_formed m [] h = refl
  state_metrics-are_well_formed m ((state, d) ∷ rest) h =
      let (h1, h2) =
        both (length d.labels == 0) (all (λ (state, d). length d.labels == 0) rest) h in
      rw ((==_iff (length d.labels) 0).0 h1) (state_metrics-are_well_formed m rest h2)

  send_states-are_well_formed :
      (ps : List (States.PgsByState fl)) → are_well_formed (States.send_states fl ps) ≡ true
  unfolding States.send_states
  send_states-are_well_formed ps =
      state_metrics-are_well_formed (States.count_pgs fl (States.no_counts fl) ps)
        States.pg_state_gauges refl

  mirrors-are_well_formed :
      (daemons : List (String × Json)) → are_well_formed (Totals.mirror_metrics fl daemons) ≡ true
  unfolding Totals.mirror_metrics
  mirrors-are_well_formed [] = refl
  mirrors-are_well_formed ((name, j) ∷ rest) =
      all-append is_well_formed
        (if string_beq name "summary" then [] else Totals.up fl (Totals.decode_daemon fl j))
        (Totals.mirror_metrics fl rest) (go (string_beq name "summary") (Totals.decode_daemon fl j))
        (mirrors-are_well_formed rest)
    where
      go :
          (b : Bool) (o : Option String) → are_well_formed (if b then [] else Totals.up fl o) ≡ true
      go true o = refl
      go false none = refl
      go false (some id) = refl

  send_totals-is_sound :
      (v : Version) (stats : HealthStats fl) (p : Progress fl)
      → is_fit fl p ≡ true
      → is_sound fl (Health.send_totals fl v stats p) ≡ true
  unfolding Health.send_totals
  send_totals-is_sound v stats p h =
      go (Totals.by_version fl (is_at_least v octopus) stats.osd_map) _ (
        send_all-is_fit fl _ p
          (all-append is_well_formed (States.send_states fl stats.pg_map.pgs_by_state)
            (Totals.rate_metrics fl stats.pg_map)
            (send_states-are_well_formed stats.pg_map.pgs_by_state) refl)
          h)
    where
      others : List (Metric Value)
      others =
          Totals.manager_metrics fl (Totals.managers fl (is_at_least v octopus) stats.mgr_map)
          ++ Totals.mirror_metrics fl stats.mirror_daemons

      totals : Totals.OsdMap fl → List (Metric Value)
      totals o = Totals.osd_metrics fl o stats.pg_map ++ others

      go :
          (o : Option (Totals.OsdMap fl)) (q : Progress fl)
          → is_fit fl q ≡ true
          → is_sound fl (Health.send_osds fl v stats o q) ≡ true
      go none q k = panicked-is_sound fl q k
      go (some o) q k = going-is_sound fl (Health.send_all fl (totals o) q) (
          send_all-is_fit fl (totals o) q
            (all-append is_well_formed (Totals.osd_metrics fl o stats.pg_map) others refl (
              all-append is_well_formed
                (Totals.manager_metrics fl
                  (Totals.managers fl (is_at_least v octopus) stats.mgr_map))
                (Totals.mirror_metrics fl stats.mirror_daemons) refl
                (mirrors-are_well_formed stats.mirror_daemons)))
            k)

  pub collect-are_well_formed :
      (visit : Health.Visit) (conn : Conn) (v : Version) (c : Health.ClusterHealthCollector fl)
      → are_well_formed (reached (Health.collect fl visit conn v c)).sent ≡ true
  unfolding Health.collect is_sound is_fit
  collect-are_well_formed visit conn v c = go (Health.stats_reply fl conn)
    where
      go :
          (o : Option (HealthStats fl))
          → are_well_formed (reached (Health.collect_stats fl visit v o (Health.begin fl c))).sent
            ≡ true
      go none = refl
      go (some stats) =
          >>=-is_sound fl (Health.read_health fl visit v stats (Health.begin fl c))
            (Health.send_totals fl v stats)
            (read_health-is_sound visit v stats (Health.begin fl c) refl)
            (λ q k. send_totals-is_sound v stats q k)
