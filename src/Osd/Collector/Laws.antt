-- ===== src/Osd/Collector/Laws.antt =====
-- What a `Collect` of ceph/osd.go shows of the replies.
use ceph_exporter.Base.{
  ℕ, ◌≤◌, Option-cases, String, ◌≡◌, refl, ap, ◌∙◌, ◌>>=◌, true, Option, none, some, List, [], ◌∷◌,
  all, length, ==_iff, if◌then◌else◌, Bool-cases, string_beq, inl, inr,
}
use mathlib.Core.List.{Memᴰ}
use ceph_exporter.Float.{Float64}
use ceph_exporter.Prometheus.{Metric, IsWellFormed, GaugeVecs}
use ceph_exporter.Prometheus.WellFormed.{is_well_formed, all-Mem, IsWellFormed-Mem}
use ceph_exporter.Json.{Buffer, unmarshal}
use ceph_exporter.Conn.{Conn}
use ceph_exporter.Exporter.Interleaving.{Received, concat}
use ceph_exporter.Osd.Labels.{TreeNode, OsdLabel, parent_map}
use ceph_exporter.Osd.Labels.Ancestors.{IsRanked}
use ceph_exporter.Osd.Labels.Laws.{build_osd_labels-IsLabelled}
use ceph_exporter.Osd.Names.{Labels, labels_of}
use ceph_exporter.Osd.Replies.{OsdNode, tree_command}
use ceph_exporter.Osd.Decoders.{decode_tree_down}
use ceph_exporter.Osd.Scrub.{Cache, PgStat, update}
use ceph_exporter.Osd.Sent.{
  down_metric, down_metrics, from_tree_down, collect_tree_down, scrub_metric, scrub_metrics,
}
use ceph_exporter.Osd.Writes.{OsdGauge, desc, Write}
use ceph_exporter.Osd.Collector.{
  is_reset, OsdCollector, Collected, collect, gather, build_osd_label_cache, from_tree, tree_reply,
  reset_all, reported, pg_dump, writers,
}
use ceph_exporter.Osd.Collector.Interleavings.{last_write, last_write-Received, get-apply_all}
use ceph_exporter.Osd.Collector.Owners.{is_fitting}
use ceph_exporter.Osd.Collector.Runs.{has_one_writer-writers, are_fitting-writers}

-- The nodes have ranks, none above the number of nodes, that fall from each node to its parent.
abbrev pub IsAcyclic : {W : Type 0} → List (TreeNode W) → Type 0
IsAcyclic {W} ns =
    (rank : OsdLabel W → ℕ) × IsRanked (parent_map ns) rank
    × ((l : OsdLabel W) → rank l ≤ length (parent_map ns))

module _ (fl : Float64) where
  open fl use {Value}

  module _ (gv : GaugeVecs Value) where
    get-reset_all :
        (g : OsdGauge) (ls : List String) (o : OsdCollector fl gv)
        → gv.get (reset_all fl gv o.vecs g) ls ≡ (if is_reset g then none else gv.get (o.vecs g) ls)
    unfolding reset_all
    get-reset_all g ls o = elim (Bool-cases (is_reset g)) [
      | inl e ↦ rw e (gv.get-reset (o.vecs g) ls)
      | inr e ↦ rw e refl
    ]

    gather-last_write :
        (replace_nan : Buffer → Buffer) (conn : Conn) (labels : Labels fl) (ws : List (Write Value))
        (o : OsdCollector fl gv) (g : OsdGauge) (ls : List String)
        → Received (writers fl replace_nan conn labels) ws
        → gv.get ((gather fl gv conn ws labels o).collector.vecs g) ls
          ≡ last_write g ls
              (if is_reset g then none else gv.get (o.vecs g) ls)
              (concat (writers fl replace_nan conn labels))
    unfolding gather
    gather-last_write replace_nan conn labels ws o g ls r =
        get-apply_all fl gv g ls ws (reset_all fl gv o.vecs)
        ∙ ap (λ found. last_write g ls found ws) (get-reset_all g ls o)
        ∙ last_write-Received g ls _ _ ws r (has_one_writer-writers fl g replace_nan conn labels)

    build_osd_label_cache-IsAcyclic :
        (conn : Conn) (old : Labels fl)
        → ((ns : List (TreeNode Value)) → tree_reply fl conn ≡ some ns → IsAcyclic ns)
        → (labels : Labels fl) × (build_osd_label_cache fl conn old ≡ some labels)
    unfolding build_osd_label_cache from_tree
    build_osd_label_cache-IsAcyclic conn old acyclic = elim (Option-cases (tree_reply fl conn)) [
      | inl e ↦ (old, rw e refl)
      | inr (ns, e) ↦
          let (rank, is_ranked, bounded) = acyclic ns e in
          let (labels, built, _) = build_osd_labels-IsLabelled ns rank is_ranked bounded in
          (labels, rw e built)
    ]

    -- Where the CRUSH tree that the cluster replies, if it does, has no cycle, Collect builds its
    -- labels and ends, and whatever the order in which its four goroutines write, if it keeps the order
    -- of each, a series of a gauge then shows the value last written to it when they run one after the
    -- other with these labels; where there is none, nothing for a vector that is reset, and what it
    -- showed before for one that is not.
    pub collect-last_write :
        (replace_nan : Buffer → Buffer) (conn : Conn) (o : OsdCollector fl gv)
        (order : Labels fl → List (Write Value))
        → ((ns : List (TreeNode Value)) → tree_reply fl conn ≡ some ns → IsAcyclic ns)
        → ((labels : Labels fl) → Received (writers fl replace_nan conn labels) (order labels))
        → (labels : Labels fl) × (c : Collected fl gv) × (build_osd_label_cache fl conn
              o.osd_labels_cache
            ≡ some labels)
          × (collect fl gv conn (order labels) o ≡ some c)
          × ((g : OsdGauge) (ls : List String)
              → gv.get (c.collector.vecs g) ls
                ≡ last_write g ls
                    (if is_reset g then none else gv.get (o.vecs g) ls)
                    (concat (writers fl replace_nan conn labels)))
    unfolding collect
    collect-last_write replace_nan conn o order acyclic received =
        let (labels, built) = build_osd_label_cache-IsAcyclic conn o.osd_labels_cache acyclic in
        (
          labels,
          gather fl gv conn (order labels) labels o,
          built,
          rw built refl,
          λ g ls. gather-last_write replace_nan conn labels (order labels) o g ls (received labels),
        )

  all_down-is_well_formed :
      (labels : Labels fl) (ns : List OsdNode)
      → all is_well_formed (down_metrics fl labels ns) ≡ true
  unfolding down_metrics down_metric
  all_down-is_well_formed labels [] = refl
  all_down-is_well_formed labels (n ∷ ns) = elim (Bool-cases (string_beq n.type "osd")) [
    | inl e ↦ rw e (all_down-is_well_formed labels ns)
    | inr e ↦ rw e (all_down-is_well_formed labels ns)
  ]

  pub tree_down-is_well_formed :
      (labels : Labels fl) (o : Option (List OsdNode))
      → all is_well_formed (from_tree_down fl labels o) ≡ true
  unfolding from_tree_down
  tree_down-is_well_formed labels none = refl
  tree_down-is_well_formed labels (some ns) = all_down-is_well_formed labels ns

  scrub-is_well_formed :
      (labels : Labels fl) (c : Cache) → all is_well_formed (scrub_metrics fl labels c) ≡ true
  unfolding scrub_metrics scrub_metric labels_of
  scrub-is_well_formed labels [] = refl
  scrub-is_well_formed labels (_ ∷ c) = scrub-is_well_formed labels c

  pub reported-is_well_formed :
      (labels : Labels fl) (cache : Cache) (o : Option (List PgStat))
      → all is_well_formed (reported fl labels cache o) ≡ true
  unfolding reported
  reported-is_well_formed labels cache none = refl
  reported-is_well_formed labels cache (some groups) =
      scrub-is_well_formed labels (update cache groups)

  abbrev pub tree_down_reply : Conn → Option (List OsdNode)
  tree_down_reply conn = do
    buf ← conn.mon_command (tree_command ("down" ∷ []))
    unmarshal decode_tree_down buf

  -- No `WithLabelValues` and no `MustNewConstMetric` of a Collect panics: of each write to a gauge,
  -- the number of label values is the number of the labels of the gauge, and so it is of each OSD
  -- that is sent as down or with the state of its scrubs, whatever the cluster replies.
  pub collect-IsWellFormed :
      (gv : GaugeVecs Value) (replace_nan : Buffer → Buffer) (conn : Conn) (labels : Labels fl)
      (ws : List (Write Value)) (o : OsdCollector fl gv)
      → ((w : Write Value)
          → Memᴰ w (concat (writers fl replace_nan conn labels))
          → length w.labels ≡ length (desc w.gauge).labels)
        × ((m : Metric Value) → Memᴰ m (gather fl gv conn ws labels o).down → IsWellFormed m)
        × ((m : Metric Value) → Memᴰ m (gather fl gv conn ws labels o).scrubbed → IsWellFormed m)
  unfolding is_fitting gather collect_tree_down
  collect-IsWellFormed gv replace_nan conn labels ws o = (
    λ w i.
        (==_iff (length w.labels) (length (desc w.gauge).labels)).0
          (all-Mem is_fitting _ (are_fitting-writers fl replace_nan conn labels) i),
    λ m. IsWellFormed-Mem _ m (tree_down-is_well_formed labels (tree_down_reply conn)),
    λ m. IsWellFormed-Mem _ m (reported-is_well_formed labels o.osd_scrub_cache (pg_dump conn)),
  )
