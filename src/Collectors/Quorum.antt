-- ===== src/Collectors/Quorum.antt =====
-- The vectors of ceph/monitors.go keep series with one label value for each of their labels.
use ceph_exporter.Base.{
  ℕ, String, ◌≡◌, refl, Bool, true, false, Option, none, some, List, [], ◌∷◌, ◌++◌, map, all,
  all-append, both, Option-cases, inl, inr, length, ◌==◌, ==_iff, codes,
}
use ceph_exporter.Float.{Float64, parse}
use ceph_exporter.Conn.{Conn}
use ceph_exporter.Prometheus.{Metric, GaugeVecs, gauge, metrics_of}
use ceph_exporter.Prometheus.WellFormed.{
  is_well_formed, are_well_formed, Fits, reset-Fits, set-Fits, metrics_of-Fits,
}
use ceph_exporter.Monitors.Descs as MonitorsDescs
use ceph_exporter.Monitors
use ceph_exporter.Monitors.Commands.{
  GabsArrays, TimeCheck, FeatureGroup, Features, Replies, replies,
}
use ceph_exporter.Monitors.Tags.{VersionTags, find_tags}
use ceph_exporter.Collectors.Vectors.{and_vec}

module _ (fl : Float64) (gv : GaugeVecs fl.Value) where
  open fl use {Value}

  module _ (arrays : GabsArrays Value) where
    abbrev pub MonitorsFit : Monitors.MonitorCollector fl arrays gv → Type 0
    MonitorsFit c =
        Fits gv 1 c.clock_skew
        × Fits gv 1 c.latency
        × Fits gv 4 c.ceph_versions
        × Fits gv 3 c.ceph_features

    set_all-Fits :
        (n : ℕ) (xs : List (List String × Value)) (v : gv.Vec)
        → all (λ (ls, x). length ls == n) xs ≡ true
        → Fits gv n v
        → Fits gv n (Monitors.set_all fl arrays gv v xs)
    unfolding Monitors.set_all
    set_all-Fits n [] v e h = h
    set_all-Fits n ((ls, x) ∷ xs) v e h =
        let (e1, e2) = both (length ls == n) (all (λ (ls, x). length ls == n) xs) e in
        set_all-Fits n xs (gv.set v ls x) e2 (set-Fits gv n v ls x ((==_iff (length ls) n).0 e1) h)

    have_tags :
        (daemon : String) (counts : List (String × Value))
        → all (λ (ls, x). length ls == 4) (map (Monitors.version_labels fl arrays daemon) counts)
          ≡ true
    unfolding Monitors.version_labels
    have_tags daemon [] = refl
    have_tags daemon ((version, n) ∷ counts) =
        rw (go (find_tags (codes version))) (have_tags daemon counts)
      where
        go : (o : Option VersionTags) → (length (Monitors.tagged fl arrays daemon o) == 4) ≡ true
        go none = refl
        go (some t) = refl

    set_versions-Fits :
        (daemons : List (String × List (String × Value))) (v : gv.Vec)
        → Fits gv 4 v
        → Fits gv 4 (Monitors.set_versions fl arrays gv v daemons)
    unfolding Monitors.set_versions
    set_versions-Fits [] v h = h
    set_versions-Fits ((daemon, counts) ∷ rest) v h =
        set_versions-Fits rest
          (Monitors.set_all fl arrays gv v (map (Monitors.version_labels fl arrays daemon) counts))
          (set_all-Fits 4 (map (Monitors.version_labels fl arrays daemon) counts) v
            (have_tags daemon counts) h)

    have_features :
        (daemon : String) (groups : List FeatureGroup)
        → all (λ (ls, x). length ls == 3) (map (Monitors.feature_labels fl arrays daemon) groups)
          ≡ true
    have_features daemon [] = refl
    have_features daemon (g ∷ groups) = have_features daemon groups

    set_features-Fits :
        (daemons : Features) (v : gv.Vec)
        → Fits gv 3 v
        → Fits gv 3 (Monitors.set_features fl arrays gv v daemons)
    unfolding Monitors.set_features
    set_features-Fits [] v h = h
    set_features-Fits ((daemon, groups) ∷ rest) v h =
        set_features-Fits rest
          (Monitors.set_all fl arrays gv v (map (Monitors.feature_labels fl arrays daemon) groups))
          (set_all-Fits 3 (map (Monitors.feature_labels fl arrays daemon) groups) v
            (have_features daemon groups) h)

    set_checks-MonitorsFit :
        (checks : List (String × TimeCheck)) (c : Monitors.MonitorCollector fl arrays gv)
        → MonitorsFit c
        → MonitorsFit (Monitors.set_checks fl arrays gv checks c).0
    unfolding Monitors.set_checks
    set_checks-MonitorsFit [] c h = h
    set_checks-MonitorsFit ((mon, t) ∷ rest) c (a, b, d, e) =
        elim (Option-cases (parse fl t.skew)) [
          | inl q ↦ rw (q, Monitors.set_checks) (a, b, d, e)
          | inr (skew, q) ↦ elim (Option-cases (parse fl t.latency)) [
            | inl p ↦
                rw (q, p, Monitors.set_checks)
                  (set-Fits gv 1 c.clock_skew (mon ∷ []) skew refl a, b, d, e)
            | inr (latency, p) ↦
                rw (q, p, Monitors.set_checks)
                  (set_checks-MonitorsFit rest
                    (record c {
                      clock_skew = gv.set c.clock_skew (mon ∷ []) skew;
                      latency = gv.set c.latency (mon ∷ []) latency;
                    })
                    (
                      set-Fits gv 1 c.clock_skew (mon ∷ []) skew refl a,
                      set-Fits gv 1 c.latency (mon ∷ []) latency refl b,
                      d,
                      e,
                    ))
          ]
        ]

    set_rest-MonitorsFit :
        (r : Replies fl arrays) (s : Monitors.MonitorCollector fl arrays gv × Bool)
        → MonitorsFit s.0
        → MonitorsFit (Monitors.set_rest fl arrays gv r s).0
    unfolding Monitors.set_rest
    set_rest-MonitorsFit r (c, false) h = h
    set_rest-MonitorsFit r (c, true) (a, b, d, e) = (
      a,
      b,
      set_versions-Fits r.versions c.ceph_versions d,
      set_features-Fits r.features c.ceph_features e,
    )

    pub collect-MonitorsFit :
        (conn : Conn) (c : Monitors.MonitorCollector fl arrays gv)
        → MonitorsFit c
        → MonitorsFit (Monitors.collect fl arrays gv conn c).0
    unfolding Monitors.collect Monitors.show
    collect-MonitorsFit conn c h = go (replies fl arrays conn)
      where
        go : (o : Option (Replies fl arrays)) → MonitorsFit (Monitors.show fl arrays gv o c).0
        go none = h
        go (some r) = set_rest-MonitorsFit r _ (
            set_checks-MonitorsFit r.time_checks (Monitors.reset fl arrays gv c) (
              reset-Fits gv 1 c.clock_skew,
              reset-Fits gv 1 c.latency,
              reset-Fits gv 4 c.ceph_versions,
              reset-Fits gv 3 c.ceph_features,
            ))

    abbrev plain : Monitors.MonitorCollector fl arrays gv → Metric Value
    plain c = record {
      desc = MonitorsDescs.nodesin_quorum;
      kind = gauge;
      value = c.nodesin_quorum;
      labels = [];
    }

    pub sent_metrics-MonitorsFit :
        (c : Monitors.MonitorCollector fl arrays gv)
        → MonitorsFit c
        → are_well_formed (Monitors.sent_metrics fl arrays gv c) ≡ true
    unfolding Monitors.sent_metrics
    sent_metrics-MonitorsFit c (a, b, d, e) =
        let v1 = metrics_of gv MonitorsDescs.clock_skew gauge c.clock_skew in
        let v2 = v1 ++ metrics_of gv MonitorsDescs.latency gauge c.latency in
        let v3 = v2 ++ metrics_of gv MonitorsDescs.ceph_versions gauge c.ceph_versions in
        let v4 = v3 ++ metrics_of gv MonitorsDescs.ceph_features gauge c.ceph_features in
        let h1 = metrics_of-Fits gv MonitorsDescs.clock_skew gauge c.clock_skew a in
        let h2 = and_vec fl gv MonitorsDescs.latency c.latency v1 h1 b in
        let h3 = and_vec fl gv MonitorsDescs.ceph_versions c.ceph_versions v2 h2 d in
        let h4 = and_vec fl gv MonitorsDescs.ceph_features c.ceph_features v3 h3 e in
        all-append is_well_formed v4 (plain c ∷ []) h4 refl
