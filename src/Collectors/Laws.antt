-- ===== src/Collectors/Laws.antt =====
-- A scrape of an exporter of ceph/exporter.go with its own collectors.
use ceph_exporter.Base.{String, ◌≡◌, refl, ap, ◌∙◌, true, some, List, string_eq, ◌>>=◌}
use ceph_exporter.Float.{Float64}
use ceph_exporter.Prometheus.{Metric}
use ceph_exporter.Conn.{Conn}
use ceph_exporter.Version.{Version}
use ceph_exporter.Exporter.{Exporter, version_reply, versions_reply, Collectors}
use ceph_exporter.Exporter as Exporter
use ceph_exporter.Exporter.Versions.{Counts}
use ceph_exporter.Exporter.Collection.{collect-AreEnding}
use ceph_exporter.Health.Collector.{ClusterHealthCollector, stats_reply}
use ceph_exporter.Health.Collector.Safety.{has_osds, collect-has_panicked}
use ceph_exporter.Osd.Labels.{TreeNode}
use ceph_exporter.Osd.Collector as Osd
use ceph_exporter.Osd.Collector.Laws.{IsAcyclic, collect-last_write}
use ceph_exporter.Collectors.{
  Host, AnyCollector, of_cluster_usage, of_pool_usage, of_crashes, of_pool_info, of_health, of_mon,
  of_osd, of_rgw, of_mds, of_rbd_mirror, osd_order, osds, collect_osds, collect_health, scraped,
  collect, collectors,
}

module _ (fl : Float64) (host : Host fl) where
  open fl use {Value}
  open host use {arrays, gv, replace_nan, schedule}

  collect_osds-IsAcyclic :
      (conn : Conn) (o : Osd.OsdCollector fl gv)
      → ((ns : List (TreeNode Value)) → Osd.tree_reply fl conn ≡ some ns → IsAcyclic ns)
      → (r : AnyCollector fl host × List (Metric Value)) × (collect_osds fl host conn o ≡ some r)
  unfolding collect_osds
  collect_osds-IsAcyclic conn o acyclic =
      let (labels, c, built, collected, _) =
        collect-last_write fl gv replace_nan conn o (osd_order fl host conn) acyclic
          (λ labels. (schedule conn).merge-Received (Osd.writers fl replace_nan conn labels)) in
      (
        osds fl host (schedule conn) c,
        ap
              (λ l. l >>= λ labels.
                Osd.collect fl gv conn (osd_order fl host conn labels) o >>= λ c.
                some (osds fl host (schedule conn) c))
              built
            ∙ ap (λ c. c >>= λ c. some (osds fl host (schedule conn) c)) collected,
      )

  collect_health-has_osds :
      (conn : Conn) (v : Version) (c : ClusterHealthCollector fl)
      → has_osds fl v (stats_reply fl conn) ≡ true
      → (r : AnyCollector fl host × List (Metric Value)) × (collect_health fl host conn v c
          ≡ some r)
  unfolding collect_health
  collect_health-has_osds conn v c h =
      (scraped fl host conn v c, rw (collect-has_panicked fl (schedule conn).visit conn v c h) refl)

  collect-ends :
      (conn : Conn) (v : Version) (c : AnyCollector fl host)
      → ((ns : List (TreeNode Value)) → Osd.tree_reply fl conn ≡ some ns → IsAcyclic ns)
      → has_osds fl v (stats_reply fl conn) ≡ true
      → (r : AnyCollector fl host × List (Metric Value)) × (collect fl host c conn v ≡ some r)
  unfolding collect
  collect-ends conn v (of_cluster_usage c) acyclic h = (_, refl)
  collect-ends conn v of_pool_usage acyclic h = (_, refl)
  collect-ends conn v of_crashes acyclic h = (_, refl)
  collect-ends conn v (of_pool_info vecs) acyclic h = (_, refl)
  collect-ends conn v (of_health c) acyclic h = collect_health-has_osds conn v c h
  collect-ends conn v (of_mon c) acyclic h = (_, refl)
  collect-ends conn v (of_osd o) acyclic h = collect_osds-IsAcyclic conn o acyclic
  collect-ends conn v (of_rgw r) acyclic h = (_, refl)
  collect-ends conn v (of_mds m) acyclic h = (_, refl)
  collect-ends conn v (of_rbd_mirror c) acyclic h = (_, refl)

  -- A scrape of an exporter ends without a panic, whatever its collectors hold and in whatever modes
  -- it runs, where the cluster answers the two questions about versions, the CRUSH tree that it
  -- replies, if it does, has no cycle, and the reply to the status command, if it can be read, has no
  -- OSD map or one with the four numbers where the version has them.
  pub scrape-ends :
      (e : Exporter arrays.gabs (collectors fl host)) (conn : Conn) (v : Version)
      (versions : List (String × Counts arrays.gabs))
      → version_reply conn ≡ some v
      → versions_reply arrays.gabs (collectors fl host) conn ≡ some versions
      → ((ns : List (TreeNode Value)) → Osd.tree_reply fl conn ≡ some ns → IsAcyclic ns)
      → has_osds fl v (stats_reply fl conn) ≡ true
      → (e' : Exporter arrays.gabs (collectors fl host)) × (outs : List (List (Metric Value)))
        × (Exporter.collect arrays.gabs (collectors fl host) e conn ≡ some (e', outs))
  scrape-ends e conn v versions h k acyclic osds =
      let ((e', outs), ended) =
        collect-AreEnding arrays.gabs (collectors fl host) e conn v versions h k
          (λ x i. collect-ends conn v x.1 acyclic osds) in
      (e', outs, ended)
