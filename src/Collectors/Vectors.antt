-- ===== src/Collectors/Vectors.antt =====
-- The vectors of the collectors keep series with one label value for each of their labels:
-- ceph/pool.go and osd.go.
use ceph_exporter.Base.{
  ℕ, String, ◌≡◌, refl, sym, ap, ◌∙◌, true, Option, none, some, List, [], ◌∷◌, ◌++◌, map, all,
  all-append, both, leb, if◌then◌else◌, Bool-cases, inl, inr, length, arith, ◌==◌, ==_iff, ℤ,
}
use mathlib.Core.Option.{some-injective}
use mathlib.Core.Path.{subst}
use ceph_exporter.Float.{Float64, of_count}
use ceph_exporter.Conn.{Conn}
use ceph_exporter.Prometheus.{Metric, GaugeVecs, Desc, gauge, metrics_of}
use ceph_exporter.Prometheus.WellFormed.{
  is_well_formed, are_well_formed, Fits, new-Fits, reset-Fits, set-Fits, metrics_of-Fits,
}
use ceph_exporter.Exporter.Interleaving.{concat}
use ceph_exporter.PoolInfo
use ceph_exporter.PoolInfo.{PoolGauge}
use ceph_exporter.PoolInfo.Rules.{get_crush_rule_to_root_mappings}
use ceph_exporter.Osd.Writes.{OsdGauge, Write, apply, apply_all, same}
use ceph_exporter.Osd.Writes as Writes
use ceph_exporter.Osd.Collector as Osd
use ceph_exporter.Osd.Collector.Owners.{is_fitting}

module _ (fl : Float64) (gv : GaugeVecs fl.Value) where
  open fl use {Value}

  pub and_vec :
      (d : Desc) (v : gv.Vec) (ms : List (Metric Value))
      → are_well_formed ms ≡ true
      → Fits gv (length d.labels) v
      → are_well_formed (ms ++ metrics_of gv d gauge v) ≡ true
  and_vec d v ms k h =
      all-append is_well_formed ms (metrics_of gv d gauge v) k (metrics_of-Fits gv d gauge v h)

  -- What vectors that fit send, one after the other.
  pub concat-are_well_formed :
      {G : Type 0} (desc : G → Desc) (vecs : G → gv.Vec) (gs : List G)
      → ((g : G) → Fits gv (length (desc g).labels) (vecs g))
      → are_well_formed (concat (map (λ g. metrics_of gv (desc g) gauge (vecs g)) gs)) ≡ true
  concat-are_well_formed desc vecs [] h = refl
  concat-are_well_formed desc vecs (g ∷ gs) h =
      all-append is_well_formed (metrics_of gv (desc g) gauge (vecs g)) _
        (metrics_of-Fits gv (desc g) gauge (vecs g) (h g)) (concat-are_well_formed desc vecs gs h)

  abbrev pub PoolsFit : PoolInfo.Vecs fl gv → Type 0
  PoolsFit vecs = (g : PoolGauge) → Fits gv (length (PoolInfo.desc g).labels) (vecs g)

  three_labels : (g : PoolGauge) → length (PoolInfo.desc g).labels ≡ 3
  three_labels g = ground arith

  set_pools-PoolsFit :
      (conn : Conn) (roots : List (ℤ × String)) (ps : List (PoolInfo.PoolInfo fl))
      (vecs : PoolInfo.Vecs fl gv)
      → PoolsFit vecs
      → PoolsFit (PoolInfo.set_pools fl gv conn roots vecs ps)
  unfolding PoolInfo.set_pools PoolInfo.set_pool PoolInfo.label_values
  set_pools-PoolsFit conn roots [] vecs h = h
  set_pools-PoolsFit conn roots (p ∷ ps) vecs h =
      set_pools-PoolsFit conn roots ps (PoolInfo.set_pool fl gv conn roots vecs p)
        (λ g. set-Fits gv _ (vecs g) _ _ (sym (three_labels g)) (h g))

  pub collect-PoolsFit :
      (conn : Conn) (vecs vecs' : PoolInfo.Vecs fl gv)
      → PoolInfo.collect fl gv conn vecs ≡ some vecs'
      → PoolsFit vecs'
  unfolding PoolInfo.collect PoolInfo.refresh
  collect-PoolsFit conn vecs vecs' h = go (PoolInfo.pools_reply fl conn) h
    where
      go :
          (o : Option (List (PoolInfo.PoolInfo fl)))
          → PoolInfo.refresh fl gv conn vecs o ≡ some vecs'
          → PoolsFit vecs'
      go none h = cc
      go (some ps) h = subst PoolsFit (some-injective _ _ h) (
          set_pools-PoolsFit conn (get_crush_rule_to_root_mappings conn) ps (λ g. gv.reset (vecs g))
            (λ g. reset-Fits gv _ (vecs g)))

  abbrev pub OsdsFit : Writes.Vecs fl gv → Type 0
  OsdsFit vecs = (g : OsdGauge) → Fits gv (length (Writes.desc g).labels) (vecs g)

  -- The number of the labels of a gauge.
  abbrev label_count : ℕ → ℕ
  label_count i =
      if leb i 8
      then 5
      else if leb i 13
      then 0
      else if leb i 17
      then 5
      else if i == 18
      then 4
      else if leb i 21
      then 0
      else if leb i 24
      then 5
      else if i == 25
      then 6
      else 0

  label_count_lem : (g : OsdGauge) → length (Writes.desc g).labels ≡ label_count (Writes.index g)
  label_count_lem g = ground arith

  same-label_count :
      (g h : OsdGauge)
      → same g h ≡ true
      → length (Writes.desc g).labels ≡ length (Writes.desc h).labels
  unfolding same
  same-label_count g h e =
      label_count_lem g
      ∙ ap label_count ((==_iff (Writes.index g) (Writes.index h)).0 e)
      ∙ sym (label_count_lem h)

  pub apply-OsdsFit :
      (w : Write Value) (vecs : Writes.Vecs fl gv)
      → is_fitting w ≡ true
      → OsdsFit vecs
      → OsdsFit (apply fl gv w vecs)
  unfolding apply is_fitting
  apply-OsdsFit w vecs e h g = elim (Bool-cases (same w.gauge g)) [
    | inl q ↦ rw q (
        set-Fits gv _ (vecs g) w.labels w.value
          ((==_iff (length w.labels) (length (Writes.desc w.gauge).labels)).0 e
            ∙ same-label_count w.gauge g q)
          (h g))
    | inr q ↦ rw q (h g)
  ]

  pub apply_all-OsdsFit :
      (ws : List (Write Value)) (vecs : Writes.Vecs fl gv)
      → all is_fitting ws ≡ true
      → OsdsFit vecs
      → OsdsFit (apply_all fl gv ws vecs)
  unfolding apply_all
  apply_all-OsdsFit [] vecs e h = h
  apply_all-OsdsFit (w ∷ ws) vecs e h =
      let (e1, e2) = both (is_fitting w) (all is_fitting ws) e in
      apply_all-OsdsFit ws (apply fl gv w vecs) e2 (apply-OsdsFit w vecs e1 h)

  pub reset_all-OsdsFit :
      (vecs : Writes.Vecs fl gv) → OsdsFit vecs → OsdsFit (Osd.reset_all fl gv vecs)
  unfolding Osd.reset_all
  reset_all-OsdsFit vecs h g = elim (Bool-cases (Osd.is_reset g)) [
    | inl q ↦ rw q (reset-Fits gv _ (vecs g))
    | inr q ↦ rw q (h g)
  ]

  pub new-OsdsFit : OsdsFit (Osd.new_osd_collector fl gv).vecs
  new-OsdsFit g = go (Writes.desc g).labels
    where
      go : (labels : List String) → Fits gv (length labels) (Osd.initial fl gv labels)
      go [] = set-Fits gv 0 gv.new [] (of_count fl 0) refl (new-Fits gv 0)
      go (label ∷ labels) = new-Fits gv (length (label ∷ labels))
