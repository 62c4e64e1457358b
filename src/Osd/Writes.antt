-- ===== src/Osd/Writes.antt =====
-- The gauges of the collector of ceph/osd.go, and what the functions that fill them do: the writes
-- that they make, in their order, and how they end.
use ceph_exporter.Base.{
  ℕ, String, Bool, Option, none, some, List, [], ◌∷◌, ◌++◌, strings_eq, if◌then◌else◌, ◌==◌,
}
use ceph_exporter.Float.{Float64, parse}
use ceph_exporter.Prometheus.{Desc, GaugeVecs}
use ceph_exporter.Osd.Descs

-- The fields of the collector that hold gauges. A gauge without labels is a vector with the one
-- series that has no label values.
pub data OsdGauge : Type 0 where
  crush_weight depth reweight bytes used_bytes avail_bytes utilization variance pgs
        pg_upmap_items_total total_bytes total_used_bytes total_avail_bytes average_util
        commit_latency apply_latency osd_in osd_up osd_metadata osd_full_ratio osd_near_full_ratio
        osd_backfill_full_ratio osd_full osd_near_full osd_backfill_full osd_objects_backfilled
        oldest_inactive_pg :
      OsdGauge

abbrev pub desc : OsdGauge → Desc
desc crush_weight = Descs.crush_weight
desc depth = Descs.depth
desc reweight = Descs.reweight
desc bytes = Descs.bytes
desc used_bytes = Descs.used_bytes
desc avail_bytes = Descs.avail_bytes
desc utilization = Descs.utilization
desc variance = Descs.variance
desc pgs = Descs.pgs
desc pg_upmap_items_total = Descs.pg_upmap_items_total
desc total_bytes = Descs.total_bytes
desc total_used_bytes = Descs.total_used_bytes
desc total_avail_bytes = Descs.total_avail_bytes
desc average_util = Descs.average_util
desc commit_latency = Descs.commit_latency
desc apply_latency = Descs.apply_latency
desc osd_in = Descs.osd_in
desc osd_up = Descs.osd_up
desc osd_metadata = Descs.osd_metadata
desc osd_full_ratio = Descs.osd_full_ratio
desc osd_near_full_ratio = Descs.osd_near_full_ratio
desc osd_backfill_full_ratio = Descs.osd_backfill_full_ratio
desc osd_full = Descs.osd_full
desc osd_near_full = Descs.osd_near_full
desc osd_backfill_full = Descs.osd_backfill_full
desc osd_objects_backfilled = Descs.osd_objects_backfilled
desc oldest_inactive_pg = Descs.oldest_inactive_pg

-- collectorList
abbrev pub collector_list : List OsdGauge
collector_list =
    crush_weight ∷ depth ∷ reweight ∷ bytes ∷ used_bytes ∷ avail_bytes ∷ utilization ∷ variance
    ∷ pgs ∷ pg_upmap_items_total ∷ total_bytes ∷ total_used_bytes ∷ total_avail_bytes ∷ average_util
    ∷ commit_latency ∷ apply_latency ∷ osd_in ∷ osd_up ∷ osd_metadata ∷ osd_full_ratio
    ∷ osd_near_full_ratio ∷ osd_backfill_full_ratio ∷ osd_full ∷ osd_near_full ∷ osd_backfill_full
    ∷ osd_objects_backfilled ∷ oldest_inactive_pg ∷ []

-- A number for each gauge, to tell them apart.
abbrev pub index : OsdGauge → ℕ
index crush_weight = 0
index depth = 1
index reweight = 2
index bytes = 3
index used_bytes = 4
index avail_bytes = 5
index utilization = 6
index variance = 7
index pgs = 8
index pg_upmap_items_total = 9
index total_bytes = 10
index total_used_bytes = 11
index total_avail_bytes = 12
index average_util = 13
index commit_latency = 14
index apply_latency = 15
index osd_in = 16
index osd_up = 17
index osd_metadata = 18
index osd_full_ratio = 19
index osd_near_full_ratio = 20
index osd_backfill_full_ratio = 21
index osd_full = 22
index osd_near_full = 23
index osd_backfill_full = 24
index osd_objects_backfilled = 25
index oldest_inactive_pg = 26

unfoldable pub same : OsdGauge → OsdGauge → Bool
same g h = index g == index h

-- o.G.WithLabelValues(labels...).Set(value)
pub record Write (V : Type 0) : Type 0 where
  pub gauge : OsdGauge
  pub labels : List String
  pub value : V

abbrev pub write : {V : Type 0} → OsdGauge → List String → V → Write V
write g ls x = record { gauge = g; labels = ls; value = x }

-- A part goes on to the next, or the function returns nil, or it returns an error.
pub data Ending : Type 0 where
  going returned failed : Ending

abbrev pub Run : Type 0 → Type 0
Run V = List (Write V) × Ending

infixl 5 ◌>>◌
abbrev pub ◌>>◌ : {V : Type 0} → Run V → Run V → Run V
(ws, going) >> (ws', e) = (ws ++ ws', e)
(ws, returned) >> rest = (ws, returned)
(ws, failed) >> rest = (ws, failed)

abbrev pub done : {V : Type 0} → Run V
done = ([], going)

module _ (fl : Float64) where
  abbrev pub set_number :
      Ending → OsdGauge → List String → (fl.Value → fl.Value) → Option fl.Value → Run fl.Value
  set_number on_error g ls f none = ([], on_error)
  set_number on_error g ls f (some x) = (write g ls (f x) ∷ [], going)

  -- A number of the reply, which is converted and set; or what becomes of one that cannot be read.
  abbrev pub number :
      Ending → OsdGauge → List String → (fl.Value → fl.Value) → String → Run fl.Value
  number on_error g ls f text = set_number on_error g ls f (parse fl text)

  module _ (gv : GaugeVecs fl.Value) where
    abbrev pub Vecs : Type 0
    Vecs = OsdGauge → gv.Vec

    unfoldable pub apply : Write fl.Value → Vecs → Vecs
    apply w vecs g = if same w.gauge g then gv.set (vecs g) w.labels w.value else vecs g

    unfoldable pub apply_all : List (Write fl.Value) → Vecs → Vecs
    unfolding apply
    apply_all [] vecs = vecs
    apply_all (w ∷ ws) vecs = apply_all ws (apply w vecs)
