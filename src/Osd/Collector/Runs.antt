-- ===== src/Osd/Collector/Runs.antt =====
-- The runs of the goroutines of `Collect` of ceph/osd.go, each of which writes to gauges of its own,
-- with as many label values as they have labels.
use ceph_exporter.Base.{
  all-append, ℕ, String, ◌+◌, ◌<◌, length, ◌≡◌, refl, true, false, Option, none, some, List, [],
  ◌∷◌, ◌++◌, map, ℤ, all, ◌==◌, codes, Bool-cases, inl, inr, arith,
}
use ceph_exporter.Base.Result.{Result, ok, err}
use ceph_exporter.Float.{Float64}
use ceph_exporter.Json.{Buffer}
use ceph_exporter.Conn.{Conn}
use ceph_exporter.Exporter.Interleaving.{concat}
use ceph_exporter.Version.Decimal.{atoi, NumError}
use ceph_exporter.Osd.Replies.{DfNode, DfSummary, Df, PerfStat, DumpInfo, Dump, OsdMetadata}
use ceph_exporter.Osd.Names.{Labels, with_id, labels_of}
use ceph_exporter.Osd.Usage.{df_node, df_nodes, df_summary, from_df, collect_df}
use ceph_exporter.Osd.Gather.{
  metadata_write, from_metadata, collect_metadata, perf_stat, perf_stats, from_perf, collect_perf,
  state_write, state_writes, dump_info, dump_infos, ratios, if_read, from_dump, zero_states,
  collect_dump,
}
use ceph_exporter.Osd.Writes.{
  OsdGauge, crush_weight, depth, reweight, bytes, used_bytes, avail_bytes, utilization, variance,
  pgs, total_bytes, total_used_bytes, total_avail_bytes, average_util, commit_latency,
  apply_latency, osd_in, osd_up, index, Write, going, returned, failed, Run,
}
use ceph_exporter.Osd.Collector.{writers}
use ceph_exporter.Osd.Collector.Interleavings.{is_quiet, are_quiet, has_one_writer}
use ceph_exporter.Osd.Collector.Owners.{
  owner, is_fitting, is_owned, is_quiet-is_owned, IsOwned, >>-IsOwned, number-IsOwned,
  then_number-IsOwned,
}

module _ (fl : Float64) where
  open fl use {Value}

  df_node-IsOwned : (labels : Labels fl) (n : DfNode) → IsOwned 3 (df_node fl labels n)
  unfolding df_node
  df_node-IsOwned labels n =
      let h1 = number-IsOwned fl 3 failed crush_weight _ _ n.crush_weight refl in
      let h2 = then_number-IsOwned fl 3 _ failed depth _ _ n.depth h1 refl in
      let h3 = then_number-IsOwned fl 3 _ failed reweight _ _ n.reweight h2 refl in
      let h4 = then_number-IsOwned fl 3 _ returned bytes _ _ n.kb h3 refl in
      let h5 = then_number-IsOwned fl 3 _ failed used_bytes _ _ n.used_kb h4 refl in
      let h6 = then_number-IsOwned fl 3 _ failed avail_bytes _ _ n.avail_kb h5 refl in
      let h7 = then_number-IsOwned fl 3 _ failed utilization _ _ n.utilization h6 refl in
      let h8 = then_number-IsOwned fl 3 _ failed variance _ _ n.variance h7 refl in
      then_number-IsOwned fl 3 _ going pgs _ _ n.pgs h8 refl

  df_nodes-IsOwned : (labels : Labels fl) (ns : List DfNode) → IsOwned 3 (df_nodes fl labels ns)
  unfolding df_nodes IsOwned
  df_nodes-IsOwned labels [] = refl
  df_nodes-IsOwned labels (n ∷ ns) =
      >>-IsOwned 3 (df_node fl labels n) (df_nodes fl labels ns) (df_node-IsOwned labels n)
        (df_nodes-IsOwned labels ns)

  df_summary-IsOwned : (s : DfSummary) → IsOwned 3 (df_summary fl s)
  unfolding df_summary
  df_summary-IsOwned s =
      let h1 = number-IsOwned fl 3 failed total_bytes _ _ s.total_kb refl in
      let h2 = then_number-IsOwned fl 3 _ failed total_used_bytes _ _ s.total_used_kb h1 refl in
      let h3 = then_number-IsOwned fl 3 _ failed total_avail_bytes _ _ s.total_avail_kb h2 refl in
      then_number-IsOwned fl 3 _ failed average_util _ _ s.average_util h3 refl

  from_df-IsOwned : (labels : Labels fl) (o : Option Df) → IsOwned 3 (from_df fl labels o)
  unfolding from_df IsOwned
  from_df-IsOwned labels none = refl
  from_df-IsOwned labels (some df) =
      >>-IsOwned 3 (df_nodes fl labels df.nodes) (df_summary fl df.summary)
        (df_nodes-IsOwned labels df.nodes) (df_summary-IsOwned df.summary)

  from_metadata-IsOwned : (o : Option (List OsdMetadata)) → IsOwned 1 (from_metadata fl o)
  unfolding from_metadata IsOwned is_owned metadata_write
  from_metadata-IsOwned none = refl
  from_metadata-IsOwned (some ms) = go ms
    where
      go : (ms : List OsdMetadata) → all (is_owned 1) (map (metadata_write fl) ms) ≡ true
      go [] = refl
      go (m ∷ ms) = go ms

  with_id-IsOwned :
      (n : ℕ) (o : Result NumError ℤ) (f : ℤ → Run Value)
      → ((id : ℤ) → IsOwned n (f id))
      → IsOwned n (with_id fl o f)
  unfolding IsOwned
  with_id-IsOwned n (ok id) f h = h id
  with_id-IsOwned n (err e) f h = refl

  perf_stats-IsOwned :
      (labels : Labels fl) (ss : List PerfStat) → IsOwned 0 (perf_stats fl labels ss)
  unfolding perf_stats perf_stat IsOwned labels_of
  perf_stats-IsOwned labels [] = refl
  perf_stats-IsOwned labels (s ∷ ss) =
      >>-IsOwned 0 (perf_stat fl labels s) (perf_stats fl labels ss)
        (with_id-IsOwned 0 (atoi (codes s.id)) _ λ id.
          then_number-IsOwned fl 0 _ failed apply_latency _ _ s.apply_latency
            (number-IsOwned fl 0 failed commit_latency _ _ s.commit_latency refl) refl)
        (perf_stats-IsOwned labels ss)

  from_perf-IsOwned :
      (labels : Labels fl) (o : Option (List PerfStat)) → IsOwned 0 (from_perf fl labels o)
  unfolding from_perf IsOwned
  from_perf-IsOwned labels none = refl
  from_perf-IsOwned labels (some ss) = perf_stats-IsOwned labels ss

  state_write-is_owned :
      (ls : List String) (state : String)
      → (length ls == 5) ≡ true
      → all (is_owned 2) (state_write fl ls state) ≡ true
  unfolding is_owned
  state_write-is_owned ls state h = ground arith

  state_writes-is_owned :
      (ls states : List String)
      → (length ls == 5) ≡ true
      → all (is_owned 2) (state_writes fl ls states) ≡ true
  unfolding state_writes
  state_writes-is_owned ls [] h = refl
  state_writes-is_owned ls (state ∷ states) h =
      all-append (is_owned 2) (state_write fl ls state) (state_writes fl ls states)
        (state_write-is_owned ls state h) (state_writes-is_owned ls states h)

  states-IsOwned :
      (ls states : List String)
      → (length ls == 5) ≡ true
      → IsOwned 2 (zero_states fl ls ++ state_writes fl ls states, going)
  unfolding IsOwned is_owned
  states-IsOwned ls states h = rw h (state_writes-is_owned ls states h)

  dump_info-IsOwned : (labels : Labels fl) (d : DumpInfo) → IsOwned 2 (dump_info fl labels d)
  unfolding dump_info labels_of
  dump_info-IsOwned labels d = with_id-IsOwned 2 (atoi (codes d.osd)) _ λ id.
      >>-IsOwned 2 _ _
        (then_number-IsOwned fl 2 _ failed osd_up _ _ d.up
          (number-IsOwned fl 2 failed osd_in _ _ d.is_in refl) refl)
        (states-IsOwned (labels_of fl labels id) d.state refl)

  dump_infos-IsOwned :
      (labels : Labels fl) (ds : List DumpInfo) → IsOwned 2 (dump_infos fl labels ds)
  unfolding dump_infos IsOwned
  dump_infos-IsOwned labels [] = refl
  dump_infos-IsOwned labels (d ∷ ds) =
      >>-IsOwned 2 (dump_info fl labels d) (dump_infos fl labels ds) (dump_info-IsOwned labels d)
        (dump_infos-IsOwned labels ds)

  if_read-ratios-IsOwned : (d : Dump) → IsOwned 2 (if_read fl (ratios fl d))
  unfolding IsOwned is_owned ratios
  if_read-ratios-IsOwned d = ground arith

  from_dump-IsOwned : (labels : Labels fl) (o : Option Dump) → IsOwned 2 (from_dump fl labels o)
  unfolding from_dump IsOwned
  from_dump-IsOwned labels none = refl
  from_dump-IsOwned labels (some d) =
      >>-IsOwned 2 (if_read fl (ratios fl d)) (dump_infos fl labels d.osds)
        (if_read-ratios-IsOwned d) (dump_infos-IsOwned labels d.osds)

  owned-is_quiet :
      (g : OsdGauge) (n : ℕ) (r : Run Value)
      → IsOwned n r
      → (owner (index g) == n) ≡ false
      → is_quiet g r.0 ≡ true
  unfolding IsOwned
  owned-is_quiet g n r h e = is_quiet-is_owned g n r.0 h e

  -- The goroutines with their numbers.
  AreOwned : ℕ → List (Run Value) → Type 0
  AreOwned n [] = Unit
  AreOwned n (r ∷ rs) = IsOwned n r × AreOwned (n + 1) rs

  are_quiet-AreOwned :
      (g : OsdGauge) (n : ℕ) (rs : List (Run Value))
      → AreOwned n rs
      → owner (index g) < n
      → are_quiet g (map (λ r. r.0) rs) ≡ true
  unfolding AreOwned are_quiet
  are_quiet-AreOwned g n [] h lt = refl
  are_quiet-AreOwned g n (r ∷ rs) h lt =
      rw (owned-is_quiet g n r h.0 (ground arith))
        (are_quiet-AreOwned g (n + 1) rs h.1 (omega arith))

  has_one_writer-AreOwned :
      (g : OsdGauge) (n : ℕ) (rs : List (Run Value))
      → AreOwned n rs
      → has_one_writer g (map (λ r. r.0) rs) ≡ true
  unfolding AreOwned has_one_writer
  has_one_writer-AreOwned g n [] h = refl
  has_one_writer-AreOwned g n (r ∷ rs) h = elim (Bool-cases (is_quiet g r.0)) [
    | inl quiet ↦ rw quiet (has_one_writer-AreOwned g (n + 1) rs h.1)
    | inr loud ↦ rw loud (elim (Bool-cases (owner (index g) == n)) [
      | inl e ↦ are_quiet-AreOwned g (n + 1) rs h.1 (ground arith)
      | inr e ↦ cc (owned-is_quiet g n r h.0 e)
    ])
  ]

  abbrev runs : (Buffer → Buffer) → Conn → Labels fl → List (Run Value)
  runs replace_nan conn labels =
      collect_perf fl labels conn
      ∷ collect_metadata fl conn
      ∷ collect_dump fl labels conn
      ∷ collect_df fl replace_nan labels conn
      ∷ []

  runs-AreOwned :
      (replace_nan : Buffer → Buffer) (conn : Conn) (labels : Labels fl)
      → AreOwned 0 (runs replace_nan conn labels)
  unfolding AreOwned collect_perf collect_metadata collect_dump collect_df
  runs-AreOwned replace_nan conn labels = (
    from_perf-IsOwned labels _,
    (from_metadata-IsOwned _, (from_dump-IsOwned labels _, (from_df-IsOwned labels _, tt))),
  )

  -- The goroutines write to different gauges.
  pub has_one_writer-writers :
      (g : OsdGauge) (replace_nan : Buffer → Buffer) (conn : Conn) (labels : Labels fl)
      → has_one_writer g (writers fl replace_nan conn labels) ≡ true
  unfolding writers
  has_one_writer-writers g replace_nan conn labels =
      has_one_writer-AreOwned g 0 (runs replace_nan conn labels)
        (runs-AreOwned replace_nan conn labels)

  is_fitting-is_owned :
      (n : ℕ) (ws : List (Write Value)) → all (is_owned n) ws ≡ true → all is_fitting ws ≡ true
  unfolding is_owned is_fitting
  is_fitting-is_owned n [] o = refl
  is_fitting-is_owned n (w ∷ ws) o = ground (arith, is_fitting-is_owned n ws)

  are_fitting-AreOwned :
      (n : ℕ) (rs : List (Run Value))
      → AreOwned n rs
      → all is_fitting (concat (map (λ r. r.0) rs)) ≡ true
  unfolding AreOwned IsOwned
  are_fitting-AreOwned n [] h = refl
  are_fitting-AreOwned n (r ∷ rs) h =
      all-append is_fitting r.0 (concat (map (λ r. r.0) rs)) (is_fitting-is_owned n r.0 h.0)
        (are_fitting-AreOwned (n + 1) rs h.1)

  pub are_fitting-writers :
      (replace_nan : Buffer → Buffer) (conn : Conn) (labels : Labels fl)
      → all is_fitting (concat (writers fl replace_nan conn labels)) ≡ true
  unfolding writers
  are_fitting-writers replace_nan conn labels =
      are_fitting-AreOwned 0 (runs replace_nan conn labels) (runs-AreOwned replace_nan conn labels)
