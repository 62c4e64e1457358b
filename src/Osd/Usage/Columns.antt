-- ===== src/Osd/Usage/Columns.antt =====
-- What `collectOSDDF` of ceph/osd.go shows of the table of usage.
use ceph_exporter.Base.{
  String, ◌≡◌, refl, ap, ◌∙◌, false, Option, none, some, List, [], ◌∷◌, beq, strings_eq,
  if◌then◌else◌, Bool-cases, Option-cases, inl, inr,
}
use mathlib.Core.Option
use ceph_exporter.Float.{Float64, parse}
use ceph_exporter.Osd.Names.{Labels, label_from_name, label_values, kilobytes}
use ceph_exporter.Osd.Replies.{DfNode}
use ceph_exporter.Osd.Usage.{df_node, df_nodes}
use ceph_exporter.Osd.Writes.{
  OsdGauge, crush_weight, depth, reweight, bytes, used_bytes, avail_bytes, utilization, variance,
  pgs, total_bytes, total_used_bytes, total_avail_bytes, average_util, same, Write, write, going,
}
use ceph_exporter.Osd.Collector.Interleavings.{last_write, last_write-append}

-- The columns of the table, and the totals below it.
pub data Column : Type 0 where
  crush_weight_column depth_column reweight_column bytes_column used_bytes_column avail_bytes_column
        utilization_column variance_column pgs_column :
      Column

pub data Total : Type 0 where
  bytes_total used_bytes_total avail_bytes_total util_total : Total

abbrev pub shown_by : Column → OsdGauge
shown_by crush_weight_column = crush_weight
shown_by depth_column = depth
shown_by reweight_column = reweight
shown_by bytes_column = bytes
shown_by used_bytes_column = used_bytes
shown_by avail_bytes_column = avail_bytes
shown_by utilization_column = utilization
shown_by variance_column = variance
shown_by pgs_column = pgs

abbrev pub total_shown_by : Total → OsdGauge
total_shown_by bytes_total = total_bytes
total_shown_by used_bytes_total = total_used_bytes
total_shown_by avail_bytes_total = total_avail_bytes
total_shown_by util_total = average_util

module _ (fl : Float64) where
  open fl use {Value}

  -- The number of the table that stands in a column.
  unfoldable pub cell : Column → DfNode → Option Value
  cell crush_weight_column n = parse fl n.crush_weight
  cell depth_column n = parse fl n.depth
  cell reweight_column n = parse fl n.reweight
  cell bytes_column n = Option.map (kilobytes fl) (parse fl n.kb)
  cell used_bytes_column n = Option.map (kilobytes fl) (parse fl n.used_kb)
  cell avail_bytes_column n = Option.map (kilobytes fl) (parse fl n.avail_kb)
  cell utilization_column n = parse fl n.utilization
  cell variance_column n = parse fl n.variance
  cell pgs_column n = parse fl n.pgs

  abbrev pub names : Labels fl → DfNode → List String
  names labels n = label_values fl n.name (label_from_name fl labels n.name)

  -- The number of the last row that has the label values, or else what was found before.
  unfoldable pub last_row :
      Labels fl → Column → List String → Option Value → List DfNode → Option Value
  unfolding cell
  last_row labels c ls found [] = found
  last_row labels c ls found (n ∷ ns) =
      last_row labels c ls
        (if beq (names labels n) ls then Option.or_else (cell c n) found else found) ns

  abbrev pub Reads : String → Type 0
  Reads text = (x : Value) × (parse fl text ≡ some x)

  -- All numbers of a row, the placement groups excepted.
  pub record IsReadable (n : DfNode) : Type 0 where
    pub reads_crush_weight : Reads n.crush_weight
    pub reads_depth : Reads n.depth
    pub reads_reweight : Reads n.reweight
    pub reads_kb : Reads n.kb
    pub reads_used_kb : Reads n.used_kb
    pub reads_avail_kb : Reads n.avail_kb
    pub reads_utilization : Reads n.utilization
    pub reads_variance : Reads n.variance

  unfoldable pub AreReadable : List DfNode → Type 0
  AreReadable [] = Unit
  AreReadable (n ∷ ns) = IsReadable n × AreReadable ns

  abbrev groups : List String → Option Value → List (Write Value)
  groups ls none = []
  groups ls (some x) = write pgs ls x ∷ []

  abbrev pub row : List String → (n : DfNode) → IsReadable n → List (Write Value)
  row ls n h =
      write crush_weight ls h.reads_crush_weight.0
      ∷ write depth ls h.reads_depth.0
      ∷ write reweight ls h.reads_reweight.0
      ∷ write bytes ls (kilobytes fl h.reads_kb.0)
      ∷ write used_bytes ls (kilobytes fl h.reads_used_kb.0)
      ∷ write avail_bytes ls (kilobytes fl h.reads_avail_kb.0)
      ∷ write utilization ls h.reads_utilization.0
      ∷ write variance ls h.reads_variance.0
      ∷ groups ls (parse fl n.pgs)

  pub df_node_lem :
      (labels : Labels fl) (n : DfNode) (h : IsReadable n)
      → df_node fl labels n ≡ (row (names labels n) n h, going)
  unfolding df_node
  df_node_lem labels n h =
      rw
        (
          h.reads_crush_weight.1, h.reads_depth.1, h.reads_reweight.1, h.reads_kb.1,
          h.reads_used_kb.1, h.reads_avail_kb.1, h.reads_utilization.1, h.reads_variance.1,
        )
        (elim (Option-cases (parse fl n.pgs)) [ inl e ↦ rw e refl | inr (x, e) ↦ rw e refl ])

  abbrev if_hit : List String → List String → Option Value → Option Value → Option Value
  if_hit ks ls o found = if beq ks ls then Option.or_else o found else found

  last_write-groups :
      (c : Column) (ks ls : List String) (o found : Option Value)
      → same pgs (shown_by c) ≡ false
      → last_write (shown_by c) ls found (groups ks o) ≡ found
  unfolding last_write
  last_write-groups c ks ls none found h = refl
  last_write-groups c ks ls (some x) found h = rw h refl

  last_write-pgs :
      (ks ls : List String) (o found : Option Value)
      → last_write pgs ls found (groups ks o) ≡ if_hit ks ls o found
  unfolding last_write same Option.or_else
  last_write-pgs ks ls none found = elim (Bool-cases (beq ks ls)) [
    | inl e ↦ rw e refl
    | inr e ↦ rw e refl
  ]
  last_write-pgs ks ls (some x) found = refl

  last_write-row :
      (c : Column) (ks ls : List String) (found : Option Value) (n : DfNode) (h : IsReadable n)
      → last_write (shown_by c) ls found (row ks n h) ≡ if_hit ks ls (cell c n) found
  unfolding last_write same cell Option.or_else
  last_write-row crush_weight_column ks ls found n h =
      last_write-groups crush_weight_column ks ls (parse fl n.pgs) _ refl
      ∙ rw (h.reads_crush_weight.1) refl
  last_write-row depth_column ks ls found n h =
      last_write-groups depth_column ks ls (parse fl n.pgs) _ refl ∙ rw (h.reads_depth.1) refl
  last_write-row reweight_column ks ls found n h =
      last_write-groups reweight_column ks ls (parse fl n.pgs) _ refl ∙ rw (h.reads_reweight.1) refl
  last_write-row bytes_column ks ls found n h =
      last_write-groups bytes_column ks ls (parse fl n.pgs) _ refl ∙ rw (h.reads_kb.1) refl
  last_write-row used_bytes_column ks ls found n h =
      last_write-groups used_bytes_column ks ls (parse fl n.pgs) _ refl
      ∙ rw (h.reads_used_kb.1) refl
  last_write-row avail_bytes_column ks ls found n h =
      last_write-groups avail_bytes_column ks ls (parse fl n.pgs) _ refl
      ∙ rw (h.reads_avail_kb.1) refl
  last_write-row utilization_column ks ls found n h =
      last_write-groups utilization_column ks ls (parse fl n.pgs) _ refl
      ∙ rw (h.reads_utilization.1) refl
  last_write-row variance_column ks ls found n h =
      last_write-groups variance_column ks ls (parse fl n.pgs) _ refl ∙ rw (h.reads_variance.1) refl
  last_write-row pgs_column ks ls found n h = last_write-pgs ks ls (parse fl n.pgs) found

  pub df_nodes_lem :
      (labels : Labels fl) (c : Column) (ls : List String) (found : Option Value) (ns : List DfNode)
      → AreReadable ns
      → ((df_nodes fl labels ns).1 ≡ going)
        × (last_write (shown_by c) ls found (df_nodes fl labels ns).0
            ≡ last_row labels c ls found ns)
  unfolding df_nodes AreReadable last_row last_write
  df_nodes_lem labels c ls found [] h = (refl, refl)
  df_nodes_lem labels c ls found (n ∷ ns) (h, hs) =
      let ks = names labels n in
      let (ends, shows) = df_nodes_lem labels c ls (if_hit ks ls (cell c n) found) ns hs in
      rw (df_node_lem labels n h) (
        ends,
        last_write-append (shown_by c) ls found (row ks n h) (df_nodes fl labels ns).0
            ∙ ap (λ o. last_write (shown_by c) ls o (df_nodes fl labels ns).0)
                (last_write-row c ks ls found n h)
            ∙ shows,
      )
