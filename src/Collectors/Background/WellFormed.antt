-- ===== src/Collectors/Background/WellFormed.antt =====
-- A round of a goroutine of ceph/osd.go, ceph/mds.go or ceph/rgw.go leaves a collector that fits, and
-- sends metrics that have a label value for each of their labels.
use ceph_exporter.Base.{ℕ, refl, ltb, Bool-cases, inl, inr, Option-cases}
use ceph_exporter.Float.{Float64}
use ceph_exporter.Conn.{Conn}
use ceph_exporter.Osd.Collector as Osd
use ceph_exporter.Rgw
use ceph_exporter.Mds
use ceph_exporter.Collectors.{
  Host, AnyCollector, of_cluster_usage, of_pool_usage, of_pool_info, of_health, of_mon, of_crashes,
  of_osd, of_rgw, of_mds, of_rbd_mirror,
}
use ceph_exporter.Collectors.Sent as Sent
use ceph_exporter.Collectors.Vectors as Vectors
use ceph_exporter.Collectors.Gateways as Gateways
use ceph_exporter.Collectors.WellFormed.{IsFit, IsSound}
use ceph_exporter.Osd.Collector.Owners.{is_fitting}
use ceph_exporter.Collectors.Background.{background_round}

module _ (fl : Float64) (host : Host fl) where
  open host use {gv, parse_time, around}

  loop_round-OsdsFit :
      (now : ℕ) (conn : Conn) (o : Osd.OsdCollector fl gv)
      → Vectors.OsdsFit fl gv o.vecs
      → Vectors.OsdsFit fl gv (Osd.loop_round fl gv now conn o).vecs
  unfolding Osd.loop_round Osd.looped is_fitting
  loop_round-OsdsFit now conn o h = elim (Option-cases (Osd.pg_dump conn)) [
    | inl e ↦ rw e h
    | inr (pgs, e) ↦ rw e (Vectors.apply-OsdsFit fl gv _ o.vecs refl h)
  ]

  pub background_round-IsSound :
      (now : ℕ) (conn : Conn) (c : AnyCollector fl host)
      → IsFit fl host c
      → IsSound fl host (background_round fl host now conn c)
  unfolding background_round Rgw.background_round Mds.background_round
  background_round-IsSound now conn (of_osd o) h = (loop_round-OsdsFit now conn o h, refl)
  background_round-IsSound now conn (of_rgw r) h = elim (Bool-cases (ltb 0 r.goroutines)) [
    | inl e ↦ rw e (Gateways.refresh-GatewaysFit fl gv parse_time (around conn).clock _ _ r h)
    | inr e ↦ rw e (h, refl)
  ]
  background_round-IsSound now conn (of_mds m) h = elim (Bool-cases (ltb 0 m.goroutines)) [
    | inl e ↦ rw e (Sent.refresh-are_well_formed fl (around conn).mds_commands m.ch h, refl)
    | inr e ↦ rw e (h, refl)
  ]
  background_round-IsSound now conn (of_cluster_usage c) h = (h, refl)
  background_round-IsSound now conn of_pool_usage h = (h, refl)
  background_round-IsSound now conn of_crashes h = (h, refl)
  background_round-IsSound now conn (of_pool_info vecs) h = (h, refl)
  background_round-IsSound now conn (of_health c) h = (h, refl)
  background_round-IsSound now conn (of_mon c) h = (h, refl)
  background_round-IsSound now conn (of_rbd_mirror c) h = (h, refl)
