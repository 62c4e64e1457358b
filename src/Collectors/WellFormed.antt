-- ===== src/Collectors/WellFormed.antt =====
-- The collectors that an exporter of ceph/exporter.go runs keep vectors that fit, and send metrics
-- that do.
use ceph_exporter.Base.{
  ◌≡◌, refl, Bool, true, false, Option, none, some, List, [], ◌∷◌, all, all-append, string_eq,
  if◌then◌else◌, >>=-eq-some, all-split,
}
use mathlib.Core.Option.{some-injective}
use mathlib.Core.Path.{subst}
use ceph_exporter.Float.{Float64}
use ceph_exporter.Prometheus.{Metric}
use ceph_exporter.Prometheus.WellFormed.{is_well_formed, are_well_formed, all-Received, new-Fits}
use ceph_exporter.Conn.{Conn}
use ceph_exporter.Version.{Version}
use ceph_exporter.Exporter.{
  CollectorKind, cluster_usage, pool_usage, pool_info, cluster_health, mon, osd, crashes, rgw, mds,
  rbd_mirror_status,
}
use ceph_exporter.Exporter.Interleaving.{concat}
use ceph_exporter.Health.Progress.{Progress, reached}
use ceph_exporter.Health.Collector as Health
use ceph_exporter.Health.Collector.WellFormed as HealthSent
use ceph_exporter.Health.Collector.Safety.{has_panicked}
use ceph_exporter.Health.Io.WellFormed as IoSent
use ceph_exporter.Health.Scrape as Scrape
use ceph_exporter.Health.Io.{collect_recovery_client_io}
use ceph_exporter.Osd.Collector as Osd
use ceph_exporter.Osd.Collector.Owners.{is_fitting}
use ceph_exporter.Osd.Collector.Runs.{are_fitting-writers}
use ceph_exporter.Osd.Writes as Writes
use ceph_exporter.PoolInfo
use ceph_exporter.Monitors
use ceph_exporter.Rgw
use ceph_exporter.Osd.Names.{Labels}
use ceph_exporter.Osd.Sent.{collect_tree_down}
use ceph_exporter.Osd.Writes.{apply_all}
use ceph_exporter.Osd.Collector.Laws.{
  tree_down-is_well_formed, tree_down_reply, reported-is_well_formed,
}
use ceph_exporter.Collectors.{
  Host, AnyCollector, of_cluster_usage, of_pool_usage, of_crashes, of_pool_info, of_health, of_mon,
  of_osd, of_rgw, of_mds, of_rbd_mirror, osd_order, osds, collect_osds, collect_health, scraped,
  collect, new, pools, monitors, gateways,
}
use ceph_exporter.Collectors.Sent as Sent
use ceph_exporter.Collectors.Vectors as Vectors
use ceph_exporter.Collectors.Gateways as Gateways
use ceph_exporter.Collectors.Quorum as Quorum

module _ (fl : Float64) (host : Host fl) where
  open fl use {Value}
  open host use {arrays, gv, replace_nan, parse_time, around, schedule}

  -- What a collector keeps to send has a label value for each label.
  abbrev pub IsFit : AnyCollector fl host → Type 0
  IsFit (of_cluster_usage c) = Unit
  IsFit of_pool_usage = Unit
  IsFit of_crashes = Unit
  IsFit (of_pool_info vecs) = Vectors.PoolsFit fl gv vecs
  IsFit (of_health c) = Unit
  IsFit (of_mon c) = Quorum.MonitorsFit fl gv arrays c
  IsFit (of_osd o) = Vectors.OsdsFit fl gv o.vecs
  IsFit (of_rgw r) = Gateways.GatewaysFit fl gv r
  IsFit (of_mds m) = are_well_formed m.ch ≡ true
  IsFit (of_rbd_mirror c) = Unit

  -- A collector that fits, and what it sends.
  abbrev pub IsSound : AnyCollector fl host × List (Metric Value) → Type 0
  IsSound (c, ms) = IsFit c × (are_well_formed ms ≡ true)

  pub new-IsFit : (kind : CollectorKind) → IsFit (new fl host kind)
  unfolding new
  new-IsFit cluster_usage = tt
  new-IsFit pool_usage = tt
  new-IsFit pool_info = λ g. new-Fits gv _
  new-IsFit cluster_health = tt
  new-IsFit mon = (new-Fits gv 1, new-Fits gv 1, new-Fits gv 4, new-Fits gv 3)
  new-IsFit osd = Vectors.new-OsdsFit fl gv
  new-IsFit crashes = tt
  new-IsFit (rgw background) =
      (new-Fits gv 0, new-Fits gv 0, new-Fits gv 0, new-Fits gv 0, new-Fits gv 0)
  new-IsFit (mds background) = refl
  new-IsFit (rbd_mirror_status v) = tt

  fitting-outs :
      (outs : List (List (Writes.Write Value)))
      → all is_fitting (concat outs) ≡ true
      → all (all is_fitting) outs ≡ true
  fitting-outs [] h = refl
  fitting-outs (ws ∷ outs) h =
      let (h1, h2) = all-split is_fitting ws (concat outs) h in rw h1 (fitting-outs outs h2)

  two-outs :
      (ms ms' : List (Metric Value))
      → are_well_formed ms ≡ true
      → are_well_formed ms' ≡ true
      → all are_well_formed (ms ∷ ms' ∷ []) ≡ true
  two-outs ms ms' h k = rw (h, k) refl

  order-is_fitting :
      (conn : Conn) (labels : Labels fl) → all is_fitting (osd_order fl host conn labels) ≡ true
  order-is_fitting conn labels =
      let outs = Osd.writers fl replace_nan conn labels in
      all-Received is_fitting outs (osd_order fl host conn labels)
        ((schedule conn).merge-Received outs)
        (fitting-outs outs (are_fitting-writers fl replace_nan conn labels))

  gathered-IsSound :
      (conn : Conn) (ws : List (Writes.Write Value)) (labels : Labels fl)
      (o : Osd.OsdCollector fl gv)
      → all is_fitting ws ≡ true
      → Vectors.OsdsFit fl gv o.vecs
      → IsSound (osds fl host (schedule conn) (Osd.gather fl gv conn ws labels o))
  unfolding Osd.gather Osd.vec_metrics collect_tree_down
  gathered-IsSound conn ws labels o e h =
      let vecs = apply_all fl gv ws (Osd.reset_all fl gv o.vecs) in
      let fits =
        Vectors.apply_all-OsdsFit fl gv ws (Osd.reset_all fl gv o.vecs) e
          (Vectors.reset_all-OsdsFit fl gv o.vecs h) in
      let outs =
        collect_tree_down fl labels conn
        ∷ Osd.reported fl labels o.osd_scrub_cache (Osd.pg_dump conn)
        ∷ [] in
      (
        fits,
        all-append is_well_formed ((schedule conn).merge outs) (Osd.vec_metrics fl gv vecs)
            (all-Received is_well_formed outs ((schedule conn).merge outs)
              ((schedule conn).merge-Received outs)
              (two-outs (collect_tree_down fl labels conn)
                (Osd.reported fl labels o.osd_scrub_cache (Osd.pg_dump conn))
                (tree_down-is_well_formed fl labels (tree_down_reply fl conn))
                (reported-is_well_formed fl labels o.osd_scrub_cache (Osd.pg_dump conn))))
            (Vectors.concat-are_well_formed fl gv Writes.desc vecs Writes.collector_list fits),
      )

  collect_osds-IsSound :
      (conn : Conn) (o : Osd.OsdCollector fl gv) (r : AnyCollector fl host × List (Metric Value))
      → Vectors.OsdsFit fl gv o.vecs
      → collect_osds fl host conn o ≡ some r
      → IsSound r
  unfolding collect_osds Osd.collect
  collect_osds-IsSound conn o r h k =
      let (labels, _, k1) =
        >>=-eq-some (Osd.build_osd_label_cache fl conn o.osd_labels_cache) _ k in
      let (c, k2, k3) =
        >>=-eq-some (Osd.collect fl gv conn (osd_order fl host conn labels) o) _ k1 in
      let (labels', _, k4) =
        >>=-eq-some (Osd.build_osd_label_cache fl conn o.osd_labels_cache) _ k2 in
      subst IsSound (some-injective _ _ k3) (
        subst (λ c. IsSound (osds fl host (schedule conn) c)) (some-injective _ _ k4)
          (gathered-IsSound conn (osd_order fl host conn labels) labels' o
            (order-is_fitting conn labels) h))

  gauges-are_well_formed : (p : Progress fl) → are_well_formed (Scrape.gauge_metrics fl p) ≡ true
  unfolding Scrape.gauge_metrics
  gauges-are_well_formed p = refl

  scraped-IsSound :
      (conn : Conn) (v : Version) (c : Health.ClusterHealthCollector fl)
      → IsSound (scraped fl host conn v c)
  unfolding scraped Scrape.scrape Scrape.senders
  scraped-IsSound conn v c =
      let outs = Scrape.senders fl (schedule conn).visit conn (around conn).plain_status v c in
      (
        tt,
        all-append is_well_formed ((schedule conn).merge outs) _
            (all-Received is_well_formed outs ((schedule conn).merge outs)
              ((schedule conn).merge-Received outs)
              (two-outs (reached (Health.collect fl (schedule conn).visit conn v c)).sent
                (collect_recovery_client_io fl (around conn).plain_status).0
                (HealthSent.collect-are_well_formed fl (schedule conn).visit conn v c)
                (IoSent.collect_recovery_client_io-is_fit fl (around conn).plain_status)))
            (gauges-are_well_formed (reached (Health.collect fl (schedule conn).visit conn v c))),
      )

  collect_health-IsSound :
      (conn : Conn) (v : Version) (c : Health.ClusterHealthCollector fl)
      (r : AnyCollector fl host × List (Metric Value))
      → collect_health fl host conn v c ≡ some r
      → IsSound r
  unfolding collect_health
  collect_health-IsSound conn v c r h =
      go (has_panicked (Health.collect fl (schedule conn).visit conn v c)) h
    where
      go : (b : Bool) → (if b then none else some (scraped fl host conn v c)) ≡ some r → IsSound r
      go true k = cc
      go false k = subst IsSound (some-injective _ _ k) (scraped-IsSound conn v c)

  pools-IsSound :
      (conn : Conn) (vecs : PoolInfo.Vecs fl gv)
      → Vectors.PoolsFit fl gv vecs
      → IsSound (pools fl host vecs (PoolInfo.collect fl gv conn vecs))
  unfolding pools PoolInfo.vec_metrics
  pools-IsSound conn vecs h = go (PoolInfo.collect fl gv conn vecs) refl
    where
      go :
          (o : Option (PoolInfo.Vecs fl gv))
          → PoolInfo.collect fl gv conn vecs ≡ o
          → IsSound (pools fl host vecs o)
      go none q = (h, refl)
      go (some vecs') q =
          let fits = Vectors.collect-PoolsFit fl gv conn vecs vecs' q in
          (
            fits,
            Vectors.concat-are_well_formed fl gv PoolInfo.desc vecs' PoolInfo.collector_list fits,
          )

  monitors-IsSound :
      (s : Monitors.MonitorCollector fl arrays gv × Bool)
      → Quorum.MonitorsFit fl gv arrays s.0
      → IsSound (monitors fl host s)
  unfolding monitors
  monitors-IsSound (c, false) h = (h, refl)
  monitors-IsSound (c, true) h = (h, Quorum.sent_metrics-MonitorsFit fl gv arrays c h)

  gateways-IsSound :
      (s : Rgw.RgwCollector fl gv × List (Metric Value))
      → Gateways.GatewaysFit fl gv s.0
      → are_well_formed s.1 ≡ true
      → IsSound (gateways fl host s)
  unfolding gateways
  gateways-IsSound (r, ms) h k = (
    h,
    all-append is_well_formed ms (Rgw.vec_metrics fl gv r) k
        (Gateways.vec_metrics-GatewaysFit fl gv r h),
  )

  some-IsSound :
      (s r : AnyCollector fl host × List (Metric Value)) → some s ≡ some r → IsSound s → IsSound r
  some-IsSound s r h k = subst IsSound (some-injective _ _ h) k

  pub collect-IsSound :
      (conn : Conn) (v : Version) (c : AnyCollector fl host)
      (r : AnyCollector fl host × List (Metric Value))
      → IsFit c
      → collect fl host c conn v ≡ some r
      → IsSound r
  unfolding collect
  collect-IsSound conn v (of_cluster_usage c) r h k =
      some-IsSound _ r k (tt, Sent.cluster_usage-are_well_formed fl c conn)
  collect-IsSound conn v of_pool_usage r h k =
      some-IsSound _ r k (tt, Sent.pool_usage-are_well_formed fl conn)
  collect-IsSound conn v of_crashes r h k =
      some-IsSound _ r k (tt, Sent.crashes-are_well_formed fl conn)
  collect-IsSound conn v (of_pool_info vecs) r h k = some-IsSound _ r k (pools-IsSound conn vecs h)
  collect-IsSound conn v (of_health c) r h k = collect_health-IsSound conn v c r k
  collect-IsSound conn v (of_mon c) r h k = some-IsSound _ r k (
      monitors-IsSound (Monitors.collect fl arrays gv conn c)
        (Quorum.collect-MonitorsFit fl gv arrays conn c h))
  collect-IsSound conn v (of_osd o) r h k = collect_osds-IsSound conn o r h k
  collect-IsSound conn v (of_rgw g) r h k =
      let s = around conn in
      let (fits, sent) =
        Gateways.collect-GatewaysFit fl gv parse_time s.clock s.gc_list s.reshard_list g h in
      some-IsSound _ r k (
        gateways-IsSound (Rgw.collect parse_time s.clock fl gv s.gc_list s.reshard_list g) fits
          sent)
  collect-IsSound conn v (of_mds m) r h k =
      some-IsSound _ r k (Sent.mds-are_well_formed fl (around conn).mds_commands m h)
  collect-IsSound conn v (of_rbd_mirror c) r h k =
      some-IsSound _ r k (tt, Sent.rbd_mirror-are_well_formed fl c (around conn).rbd_status v)
