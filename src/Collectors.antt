-- ===== src/Collectors.antt =====
-- ceph/exporter.go: the collectors that an exporter runs, as their constructors make them and with
-- the Collect and the Describe of each. They fill the interface that the exporter takes.
pub mod Laws
pub mod WellFormed
pub mod Reachable
pub mod Sent
pub mod Vectors
pub mod Gateways
pub mod Quorum
pub mod Background
pub mod Fit
use ceph_exporter.Base.{
  ℕ, String, Bool, true, false, if◌then◌else◌, Option, none, some, ◌>>=◌, List, [], ◌∷◌, ◌++◌, ℤ,
  Text,
}
use mathlib.Core.List.{Perm}
use ceph_exporter.Float.{Float64, of_count}
use ceph_exporter.Prometheus.{Desc, Metric, GaugeVecs}
use ceph_exporter.Json.{Buffer}
use ceph_exporter.Conn.{Conn}
use ceph_exporter.Version.{Version, is_at_least, pacific}
use ceph_exporter.Exporter.{
  CollectorKind, cluster_usage, pool_usage, pool_info, cluster_health, mon, osd, crashes, rgw, mds,
  rbd_mirror_status, VersionedCollectors,
}
use ceph_exporter.Exporter.Interleaving.{Received}
use ceph_exporter.ClusterUsage
use ceph_exporter.PoolUsage
use ceph_exporter.PoolInfo
use ceph_exporter.Health.Collector.{ClusterHealthCollector, new_cluster_health_collector}
use ceph_exporter.Health.Collector as Health
use ceph_exporter.Health.Scrape
use ceph_exporter.Health.Collector.Safety.{has_panicked}
use ceph_exporter.Monitors
use ceph_exporter.Monitors.Commands.{GabsArrays}
use ceph_exporter.Osd.Collector as Osd
use ceph_exporter.Descriptors
use ceph_exporter.Osd.Names.{Labels}
use ceph_exporter.Osd.Writes.{Write}
use ceph_exporter.Crashes
use ceph_exporter.Rgw
use ceph_exporter.Mds
use ceph_exporter.RbdMirror

-- What the collectors use at the time of a call apart from the connection: the readings of the
-- clock, the outputs of the command line tools, and the plain text of `ceph status`.
pub record Surroundings : Type 0 where
  pub clock : ℕ → ℤ
  pub gc_list : Option Buffer
  pub reshard_list : Option Buffer
  pub rbd_status : Option Buffer
  pub mds_commands : Mds.Commands
  pub plain_status : Option Text

-- What a run may choose: an order of the goroutines, by what each of them does, and the order in
-- which `range` visits the checks of a reply, which are a map.
pub record Schedule : Type 1 where
  pub merge : {A : Type 0} → List (List A) → List A
  pub merge-Received : {A : Type 0} (outs : List (List A)) → Received outs (merge outs)
  pub visit : List (String × String) → List (String × String)
  pub visit-Perm : (checks : List (String × String)) → Perm (visit checks) checks

-- The libraries, and what there is at the time of each call, for which its connection stands.
pub record Host (fl : Float64) : Type 1 where
  pub arrays : GabsArrays fl.Value
  pub gv : GaugeVecs fl.Value
  pub replace_nan : Buffer → Buffer
  pub parse_time : Text → Option ℤ
  pub around : Conn → Surroundings
  pub schedule : Conn → Schedule

module _ (fl : Float64) (host : Host fl) where
  open fl use {Value}
  open host use {arrays, gv, replace_nan, parse_time, around, schedule}

  pub data AnyCollector : Type 0 where
    of_cluster_usage : ClusterUsage.ClusterUsageCollector fl → AnyCollector
    of_pool_usage of_crashes : AnyCollector
    of_pool_info : PoolInfo.Vecs fl gv → AnyCollector
    of_health : ClusterHealthCollector fl → AnyCollector
    of_mon : Monitors.MonitorCollector fl arrays gv → AnyCollector
    of_osd : Osd.OsdCollector fl gv → AnyCollector
    of_rgw : Rgw.RgwCollector fl gv → AnyCollector
    of_mds : Mds.MdsCollector fl → AnyCollector
    of_rbd_mirror : RbdMirror.RbdMirrorStatusCollector fl → AnyCollector

  abbrev zero : Value
  zero = of_count fl 0

  unfoldable pub new : CollectorKind → AnyCollector
  new cluster_usage =
      of_cluster_usage
        (record { global_capacity = zero; used_capacity = zero; available_capacity = zero })
  new pool_usage = of_pool_usage
  new pool_info = of_pool_info (PoolInfo.new_vecs fl gv)
  new cluster_health = of_health (new_cluster_health_collector fl)
  new mon = of_mon (Monitors.new_monitor_collector fl arrays gv)
  new osd = of_osd (Osd.new_osd_collector fl gv)
  new crashes = of_crashes
  new (rgw background) = of_rgw (Rgw.new_rgw_collector fl gv background)
  new (mds background) = of_mds (record { background = background; ch = []; goroutines = 0 })
  new (rbd_mirror_status v) =
      of_rbd_mirror
        (record { version = v; status = zero; daemon_status = zero; image_status = zero })

  -- Describe: none of them asks the cluster.
  unfoldable pub descriptors : AnyCollector → List Desc
  descriptors (of_cluster_usage c) = ClusterUsage.descriptors
  descriptors of_pool_usage = PoolUsage.descriptors
  descriptors of_crashes = Crashes.descriptors
  descriptors (of_pool_info vecs) = PoolInfo.descriptors
  descriptors (of_health c) = Scrape.descriptors
  descriptors (of_mon c) = Monitors.descriptors
  descriptors (of_osd o) = Osd.descriptors
  descriptors (of_rgw r) = Rgw.descriptors
  descriptors (of_mds m) = Mds.descriptors
  descriptors (of_rbd_mirror c) = RbdMirror.descriptors (is_at_least c.version pacific)

  abbrev pub mapped :
      {C : Type 0}
      → (C → AnyCollector)
      → C × List (Metric Value)
      → AnyCollector × List (Metric Value)
  mapped f (c, ms) = (f c, ms)

  -- An error is logged, and nothing is sent.
  unfoldable pub pools :
      PoolInfo.Vecs fl gv → Option (PoolInfo.Vecs fl gv) → AnyCollector × List (Metric Value)
  unfolding PoolInfo.vec_metrics
  pools old none = (of_pool_info old, [])
  pools old (some vecs) = (of_pool_info vecs, PoolInfo.vec_metrics fl gv vecs)

  unfoldable pub monitors :
      Monitors.MonitorCollector fl arrays gv × Bool → AnyCollector × List (Metric Value)
  unfolding Monitors.sent_metrics
  monitors (c, false) = (of_mon c, [])
  monitors (c, true) = (of_mon c, Monitors.sent_metrics fl arrays gv c)

  unfoldable pub gateways :
      Rgw.RgwCollector fl gv × List (Metric Value) → AnyCollector × List (Metric Value)
  unfolding Rgw.vec_metrics
  gateways (r, ms) = (of_rgw r, ms ++ Rgw.vec_metrics fl gv r)

  -- The OSDs' goroutines write in one order, and two of them send in another.
  abbrev pub osds : Schedule → Osd.Collected fl gv → AnyCollector × List (Metric Value)
  osds s c = (
    of_osd c.collector,
    s.merge (c.down ∷ c.scrubbed ∷ []) ++ Osd.vec_metrics fl gv c.collector.vecs,
  )

  -- The order of the OSDs' writes, by the labels that are built.
  abbrev pub osd_order : Conn → Labels fl → List (Write Value)
  osd_order conn labels = (schedule conn).merge (Osd.writers fl replace_nan conn labels)

  unfoldable pub collect_osds :
      Conn → Osd.OsdCollector fl gv → Option (AnyCollector × List (Metric Value))
  unfolding Osd.build_osd_label_cache Osd.collect Osd.vec_metrics Osd.writers
  collect_osds conn o = do
    labels ← Osd.build_osd_label_cache fl conn o.osd_labels_cache
    c ← Osd.collect fl gv conn (osd_order conn labels) o
    some (osds (schedule conn) c)

  abbrev pub scraped :
      Conn → Version → ClusterHealthCollector fl → AnyCollector × List (Metric Value)
  unfolding Scrape.senders Scrape.scrape
  scraped conn v c = mapped of_health (
      Scrape.scrape fl (schedule conn).visit conn
        ((schedule conn).merge
          (Scrape.senders fl (schedule conn).visit conn (around conn).plain_status v c))
        v c)

  -- A goroutine that panics ends the program.
  unfoldable pub collect_health :
      Conn → Version → ClusterHealthCollector fl → Option (AnyCollector × List (Metric Value))
  unfolding Health.collect
  collect_health conn v c =
      if has_panicked (Health.collect fl (schedule conn).visit conn v c)
      then none
      else some (scraped conn v c)

  unfoldable pub collect :
      AnyCollector → Conn → Version → Option (AnyCollector × List (Metric Value))
  unfolding collect_osds collect_health pools monitors gateways
  collect (of_cluster_usage c) conn v =
      some (mapped of_cluster_usage (ClusterUsage.collect fl c conn))
  collect of_pool_usage conn v = some (of_pool_usage, PoolUsage.collect fl conn)
  collect of_crashes conn v = some (of_crashes, Crashes.collect fl conn)
  collect (of_pool_info vecs) conn v = some (pools vecs (PoolInfo.collect fl gv conn vecs))
  collect (of_health c) conn v = collect_health conn v c
  collect (of_mon c) conn v = some (monitors (Monitors.collect fl arrays gv conn c))
  collect (of_osd o) conn v = collect_osds conn o
  collect (of_rgw r) conn v = some (
      gateways (
        Rgw.collect parse_time (around conn).clock fl gv (around conn).gc_list
          (around conn).reshard_list r))
  collect (of_mds m) conn v = some (mapped of_mds (Mds.collect fl (around conn).mds_commands m))
  collect (of_rbd_mirror c) conn v =
      some (mapped of_rbd_mirror (RbdMirror.collect fl c (around conn).rbd_status v))

  -- The collectors of an exporter. What the endless goroutines of some of them do between the calls
  -- is in Collectors/Background.
  abbrev pub collectors : VersionedCollectors Value
  collectors = record {
    Collector = AnyCollector;
    new = new;
    describe = λ c conn. (c, descriptors c);
    collect = collect;
  }
