-- ===== src/Collectors/Background.antt =====
-- The goroutines of an exporter that never end, between its calls: `oldestInactivePGLoop` of
-- ceph/osd.go, which runs from the start, and `backgroundCollect` of ceph/mds.go and ceph/rgw.go,
-- which a Collect starts in the background mode.
pub mod WellFormed
use ceph_exporter.Base.{
  ℕ, String, ◌≡◌, Bool, true, false, if◌then◌else◌, Option, none, some, List, [], ◌∷◌, ℤ, ltb,
  lookup, insert, string_eq,
}
use ceph_exporter.Float.{Float64}
use ceph_exporter.Prometheus.{Metric}
use ceph_exporter.Conn.{Conn}
use ceph_exporter.Exporter as Exporter
use ceph_exporter.Osd.Collector as Osd
use ceph_exporter.Rgw
use ceph_exporter.Mds
use ceph_exporter.Collectors.{
  Host, AnyCollector, of_cluster_usage, of_pool_usage, of_pool_info, of_health, of_mon, of_crashes,
  of_osd, of_rgw, of_mds, of_rbd_mirror, mapped, collectors,
}

module _ (fl : Float64) (host : Host fl) where
  open fl use {Value}
  open host use {arrays, gv, parse_time, around}

  abbrev cs : Exporter.VersionedCollectors Value
  cs = collectors fl host

  -- A round at the time `now` of a goroutine that the collector has started, if it has started one:
  -- the collector afterwards, and what the round sends to the channel of a Collect. Those of the
  -- metadata servers fill the channel of their collector.
  unfoldable pub background_round :
      ℕ → Conn → AnyCollector fl host → AnyCollector fl host × List (Metric Value)
  unfolding Osd.loop_round Rgw.background_round Mds.background_round
  background_round now conn (of_osd o) = (of_osd (Osd.loop_round fl gv now conn o), [])
  background_round now conn (of_rgw r) =
      let s = around conn in
      if ltb 0 r.goroutines
      then mapped fl host of_rgw
          (Rgw.background_round parse_time s.clock fl gv s.gc_list s.reshard_list r)
      else (of_rgw r, [])
  background_round now conn (of_mds m) =
      if ltb 0 m.goroutines
      then (of_mds (Mds.background_round fl (around conn).mds_commands m), [])
      else (of_mds m, [])
  background_round now conn c = (c, [])

  abbrev with_round :
      ℕ
      → Conn
      → String
      → Exporter.Exporter arrays.gabs cs
      → Option (AnyCollector fl host)
      → Exporter.Exporter arrays.gabs cs × List (Metric Value)
  with_round now conn name e none = (e, [])
  with_round now conn name e (some c) = (
    record e { cc = insert name (background_round now conn c).0 e.cc },
    (background_round now conn c).1,
  )

  -- A round of the collector that an exporter has under a name.
  unfoldable pub background :
      ℕ
      → Conn
      → String
      → Exporter.Exporter arrays.gabs cs
      → Exporter.Exporter arrays.gabs cs × List (Metric Value)
  unfolding background_round
  background now conn name e = with_round now conn name e (lookup name e.cc)

  -- The exporter through its life: any sequence of scrapes, of calls of Describe and of rounds of the
  -- goroutines, each with the replies that the cluster gives then.
  pub data Living : Exporter.Exporter arrays.gabs cs → Type 0 where
    started :
        (conn : Conn) (cluster config user : String) (rgw_mode mds_mode : ℤ)
        {e : Exporter.Exporter arrays.gabs cs}
        → Exporter.new_exporter arrays.gabs cs conn cluster config user rgw_mode mds_mode ≡ some e
        → Living e
    described :
        {e : Exporter.Exporter arrays.gabs cs} (conn : Conn)
        → Living e
        → Living (Exporter.describe arrays.gabs cs e conn).0
    collected :
        {e e' : Exporter.Exporter arrays.gabs cs} {outs : List (List (Metric Value))} (conn : Conn)
        → Living e
        → Exporter.collect arrays.gabs cs e conn ≡ some (e', outs)
        → Living e'
    went_round :
        {e : Exporter.Exporter arrays.gabs cs} (now : ℕ) (conn : Conn) (name : String)
        → Living e
        → Living (background now conn name e).0
