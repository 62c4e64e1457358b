-- ===== src/Osd/Usage/Laws.antt =====
-- What `collectOSDDF` of ceph/osd.go shows of a whole reply, and of one with a size that it cannot
-- read.
use ceph_exporter.Base.{
  String, ◌≡◌, refl, sym, ap, ◌∙◌, Option, none, some, List, [], ◌∷◌, ◌++◌, strings_eq,
}
use mathlib.Core.Option
use mathlib.Core.List.{append_assoc}
use ceph_exporter.Float.{Float64, parse}
use ceph_exporter.Osd.Names.{Labels, kilobytes}
use ceph_exporter.Osd.Replies.{DfNode, DfSummary, Df}
use ceph_exporter.Osd.Usage.{df_node, df_nodes, df_summary, from_df}
use ceph_exporter.Osd.Usage.Columns.{
  Column, crush_weight_column, depth_column, reweight_column, bytes_column, used_bytes_column,
  avail_bytes_column, utilization_column, variance_column, pgs_column, Total, bytes_total,
  used_bytes_total, avail_bytes_total, util_total, shown_by, total_shown_by, names, row, last_row,
  Reads, AreReadable, df_node_lem, df_nodes_lem,
}
use ceph_exporter.Osd.Writes.{
  crush_weight, depth, reweight, total_bytes, total_used_bytes, total_avail_bytes, average_util,
  same, Write, write, going, returned, Run, ◌>>◌,
}
use ceph_exporter.Osd.Collector.Interleavings.{last_write, last_write-append}

module _ (fl : Float64) where
  open fl use {Value}

  pub record IsReadableSummary (s : DfSummary) : Type 0 where
    pub reads_total_kb : Reads fl s.total_kb
    pub reads_total_used_kb : Reads fl s.total_used_kb
    pub reads_total_avail_kb : Reads fl s.total_avail_kb
    pub reads_average_util : Reads fl s.average_util

  unfoldable pub total : Total → DfSummary → Option Value
  total bytes_total s = Option.map (kilobytes fl) (parse fl s.total_kb)
  total used_bytes_total s = Option.map (kilobytes fl) (parse fl s.total_used_kb)
  total avail_bytes_total s = Option.map (kilobytes fl) (parse fl s.total_avail_kb)
  total util_total s = parse fl s.average_util

  abbrev totals : (s : DfSummary) → IsReadableSummary s → List (Write Value)
  totals s h =
      write total_bytes [] (kilobytes fl h.reads_total_kb.0)
      ∷ write total_used_bytes [] (kilobytes fl h.reads_total_used_kb.0)
      ∷ write total_avail_bytes [] (kilobytes fl h.reads_total_avail_kb.0)
      ∷ write average_util [] h.reads_average_util.0
      ∷ []

  df_summary_lem : (s : DfSummary) (h : IsReadableSummary s) → df_summary fl s ≡ (totals s h, going)
  unfolding df_summary
  df_summary_lem s h =
      rw
        (
          h.reads_total_kb.1, h.reads_total_used_kb.1, h.reads_total_avail_kb.1,
          h.reads_average_util.1,
        )
        refl

  totals-column :
      (c : Column) (ls : List String) (found : Option Value) (s : DfSummary)
      (h : IsReadableSummary s)
      → last_write (shown_by c) ls found (totals s h) ≡ found
  unfolding last_write same
  totals-column crush_weight_column ls found s h = refl
  totals-column depth_column ls found s h = refl
  totals-column reweight_column ls found s h = refl
  totals-column bytes_column ls found s h = refl
  totals-column used_bytes_column ls found s h = refl
  totals-column avail_bytes_column ls found s h = refl
  totals-column utilization_column ls found s h = refl
  totals-column variance_column ls found s h = refl
  totals-column pgs_column ls found s h = refl

  totals-total :
      (t : Total) (found : Option Value) (s : DfSummary) (h : IsReadableSummary s)
      → last_write (total_shown_by t) [] found (totals s h) ≡ total t s
  unfolding last_write same total
  totals-total bytes_total found s h = rw (h.reads_total_kb.1) refl
  totals-total used_bytes_total found s h = rw (h.reads_total_used_kb.1) refl
  totals-total avail_bytes_total found s h = rw (h.reads_total_avail_kb.1) refl
  totals-total util_total found s h = rw (h.reads_average_util.1) refl

  abbrev IsReadableDf : Df → Type 0
  IsReadableDf d = AreReadable fl d.nodes × IsReadableSummary d.summary

  from_df_lem :
      (labels : Labels fl) (d : Df) (h : IsReadableDf d)
      → from_df fl labels (some d) ≡ ((df_nodes fl labels d.nodes).0 ++ totals d.summary h.1, going)
  unfolding from_df
  from_df_lem labels d h =
      rw (df_summary_lem d.summary h.1) (
        goes (df_nodes fl labels d.nodes) (df_nodes_lem fl labels pgs_column [] none d.nodes h.0).0)
    where
      goes :
          (r : Run Value)
          → r.1 ≡ going
          → (r >> (totals d.summary h.1, going)) ≡ (r.0 ++ totals d.summary h.1, going)
      goes (ws, e) q = rw q refl

  -- If all numbers of the reply can be read, those of the placement groups excepted, then each column
  -- shows with given label values the number of the last row of an OSD with these label values, in
  -- bytes where the reply counts kilobytes, the totals are those of the reply, and there is no error.
  pub from_df-last_row :
      (labels : Labels fl) (d : Df) (found : Option Value)
      → IsReadableDf d
      → ((from_df fl labels (some d)).1 ≡ going)
        × ((c : Column) (ls : List String)
            → last_write (shown_by c) ls found (from_df fl labels (some d)).0
              ≡ last_row fl labels c ls found d.nodes)
        × ((t : Total)
            → last_write (total_shown_by t) [] found (from_df fl labels (some d)).0
              ≡ total t d.summary)
  from_df-last_row labels d found h =
      let rows = h.0 in
      let s = h.1 in
      let ws = (df_nodes fl labels d.nodes).0 in
      rw (from_df_lem labels d h) (
        refl,
        λ c ls.
            last_write-append (shown_by c) ls found ws (totals d.summary s)
            ∙ totals-column c ls _ d.summary s
            ∙ (df_nodes_lem fl labels c ls found d.nodes rows).1,
        λ t.
            last_write-append (total_shown_by t) [] found ws (totals d.summary s)
            ∙ totals-total t _ d.summary s,
      )

  abbrev first_three :
      Labels fl
      → (n : DfNode) → Reads fl n.crush_weight
      → Reads fl n.depth
      → Reads fl n.reweight
      → List (Write Value)
  first_three labels n w x y =
      write crush_weight (names fl labels n) w.0
      ∷ write depth (names fl labels n) x.0
      ∷ write reweight (names fl labels n) y.0
      ∷ []

  then_stops :
      (ws more : List (Write Value)) (r r' : Run Value)
      → r' ≡ (r.0 ++ more, returned)
      → ((ws, going) >> r') ≡ (((ws, going) >> r).0 ++ more, returned)
  then_stops ws more (vs, e) r' h = rw h (ap (λ us. (us, returned)) (sym (append_assoc ws vs more)))

  df_nodes_stop :
      (labels : Labels fl) (before : List DfNode) (n : DfNode) (after : List DfNode)
      → AreReadable fl before
      → (w : Reads fl n.crush_weight) (x : Reads fl n.depth) (y : Reads fl n.reweight)
      → parse fl n.kb ≡ none
      → df_nodes fl labels (before ++ (n ∷ after))
        ≡ ((df_nodes fl labels before).0 ++ first_three labels n w x y, returned)
  unfolding df_nodes AreReadable df_node
  df_nodes_stop labels [] n after h w x y unread = rw (w.1, x.1, y.1, unread) refl
  df_nodes_stop labels (m ∷ ms) n after (h, hs) w x y unread = rw (df_node_lem fl labels m h) (
      then_stops (row fl (names fl labels m) m h) (first_three labels n w x y)
        (df_nodes fl labels ms) _ (df_nodes_stop labels ms n after hs w x y unread))

  -- Where a row has a size that cannot be read, and the three numbers before it and all those of the
  -- rows before can be read, no error is returned, and no later row and no total is shown: the
  -- function has then set the gauges of the rows before and three of this row.
  pub from_df-unread_kb :
      (labels : Labels fl) (before : List DfNode) (n : DfNode) (after : List DfNode) (s : DfSummary)
      → AreReadable fl before
      → (w : Reads fl n.crush_weight) (x : Reads fl n.depth) (y : Reads fl n.reweight)
      → parse fl n.kb ≡ none
      → from_df fl labels (some (record { nodes = before ++ (n ∷ after); summary = s })) ≡ (
        (df_nodes fl labels before).0
            ++ (write crush_weight (names fl labels n) w.0
                ∷ write depth (names fl labels n) x.0
                ∷ write reweight (names fl labels n) y.0
                ∷ []),
        returned,
      )
  unfolding from_df
  from_df-unread_kb labels before n after s h w x y unread =
      rw (df_nodes_stop labels before n after h w x y unread) refl
