-- ===== src/Collectors/Gateways.antt =====
-- The vectors of ceph/rgw.go keep series with one label value for each of their labels.
use ceph_exporter.Base.{
  ℕ, suc, ◌≡◌, refl, Bool, true, false, Option, none, some, List, [], ◌∷◌, ◌++◌, map, if◌then◌else◌,
  ℤ, Text,
}
use ceph_exporter.Float.{Float64}
use ceph_exporter.Json.{Buffer}
use ceph_exporter.Prometheus.{Metric, GaugeVecs, gauge, metrics_of}
use ceph_exporter.Prometheus.WellFormed.{are_well_formed, Fits, set-Fits, metrics_of-Fits}
use ceph_exporter.Rgw
use ceph_exporter.Rgw.Descs as RgwDescs
use ceph_exporter.Collectors.Vectors.{and_vec}

module _ (fl : Float64) (gv : GaugeVecs fl.Value) where
  open fl use {Value}

  -- The five vectors of the gateways have no labels.
  abbrev pub GatewaysFit : Rgw.RgwCollector fl gv → Type 0
  GatewaysFit r =
      Fits gv 0 r.gc_active_tasks
      × Fits gv 0 r.gc_active_objects
      × Fits gv 0 r.gc_pending_tasks
      × Fits gv 0 r.gc_pending_objects
      × Fits gv 0 r.active_reshards

  set_count-Fits : (v : gv.Vec) (x : Value) → Fits gv 0 v → Fits gv 0 (gv.set v [] x)
  set_count-Fits v x h = set-Fits gv 0 v [] x refl h

  reshards-are_well_formed :
      (parse_time : Text → Option ℤ) (clock : ℕ → ℤ) (ops : List Rgw.RgwReshardOp)
      → are_well_formed (map (Rgw.reshard_metric parse_time clock fl gv) ops) ≡ true
  reshards-are_well_formed parse_time clock [] = refl
  reshards-are_well_formed parse_time clock (op ∷ ops) =
      reshards-are_well_formed parse_time clock ops

  pub refresh-GatewaysFit :
      (parse_time : Text → Option ℤ) (clock : ℕ → ℤ) (tasks : Option (List Rgw.RgwTaskGc))
      (ops : Option (List Rgw.RgwReshardOp)) (r : Rgw.RgwCollector fl gv)
      → GatewaysFit r
      → GatewaysFit (Rgw.refresh parse_time clock fl gv tasks ops r).0
        × (are_well_formed (Rgw.refresh parse_time clock fl gv tasks ops r).1 ≡ true)
  unfolding Rgw.refresh Rgw.set_gc
  refresh-GatewaysFit parse_time clock none ops r h = (h, refl)
  refresh-GatewaysFit parse_time clock (some tasks) none r (a, b, c, d, e) = (
    (set_count-Fits _ _ a, set_count-Fits _ _ b, set_count-Fits _ _ c, set_count-Fits _ _ d, e),
    refl,
  )
  refresh-GatewaysFit parse_time clock (some tasks) (some ops) r (a, b, c, d, e) = (
    (
      set_count-Fits _ _ a,
      set_count-Fits _ _ b,
      set_count-Fits _ _ c,
      set_count-Fits _ _ d,
      set_count-Fits _ _ e,
    ),
    reshards-are_well_formed parse_time clock ops,
  )

  pub collect-GatewaysFit :
      (parse_time : Text → Option ℤ) (clock : ℕ → ℤ) (gc reshard : Option Buffer)
      (r : Rgw.RgwCollector fl gv)
      → GatewaysFit r
      → GatewaysFit (Rgw.collect parse_time clock fl gv gc reshard r).0
        × (are_well_formed (Rgw.collect parse_time clock fl gv gc reshard r).1 ≡ true)
  unfolding Rgw.collect
  collect-GatewaysFit parse_time clock gc reshard r h = go r.background
    where
      refreshed : Rgw.RgwCollector fl gv × List (Metric Value)
      refreshed = Rgw.refresh parse_time clock fl gv (Rgw.tasks_reply gc) (Rgw.ops_reply reshard) r

      started : Rgw.RgwCollector fl gv × List (Metric Value)
      started = (record r { goroutines = suc r.goroutines }, [])

      go :
          (b : Bool)
          → GatewaysFit (if b then started else refreshed).0
            × (are_well_formed (if b then started else refreshed).1 ≡ true)
      go true = (h, refl)
      go false =
          refresh-GatewaysFit parse_time clock (Rgw.tasks_reply gc) (Rgw.ops_reply reshard) r h

  pub vec_metrics-GatewaysFit :
      (r : Rgw.RgwCollector fl gv)
      → GatewaysFit r
      → are_well_formed (Rgw.vec_metrics fl gv r) ≡ true
  unfolding Rgw.vec_metrics
  vec_metrics-GatewaysFit r (a, b, c, d, e) =
      let v1 = metrics_of gv RgwDescs.gc_active_tasks gauge r.gc_active_tasks in
      let v2 = v1 ++ metrics_of gv RgwDescs.gc_active_objects gauge r.gc_active_objects in
      let v3 = v2 ++ metrics_of gv RgwDescs.gc_pending_tasks gauge r.gc_pending_tasks in
      let v4 = v3 ++ metrics_of gv RgwDescs.gc_pending_objects gauge r.gc_pending_objects in
      let h1 = metrics_of-Fits gv RgwDescs.gc_active_tasks gauge r.gc_active_tasks a in
      let h2 = and_vec fl gv RgwDescs.gc_active_objects r.gc_active_objects v1 h1 b in
      let h3 = and_vec fl gv RgwDescs.gc_pending_tasks r.gc_pending_tasks v2 h2 c in
      let h4 = and_vec fl gv RgwDescs.gc_pending_objects r.gc_pending_objects v3 h3 d in
      and_vec fl gv RgwDescs.active_reshards r.active_reshards v4 h4 e
