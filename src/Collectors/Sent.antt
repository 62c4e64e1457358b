-- ===== src/Collectors/Sent.antt =====
-- Each metric that is sent by the collectors without vectors has a label value for each label:
-- ceph/cluster_usage.go, pool_usage.go, crashes.go, rbd_mirror_status.go and mds.go.
use ceph_exporter.Base.{
  ℕ, String, ◌≡◌, refl, sym, ap, Bool, true, Option, none, some, List, [], ◌∷◌, ◌++◌, map, all,
  insert, beq, strings_eq, all-append, both, >>=-eq-some, codes, string_beq, if◌then◌else◌,
  Bool-cases, Option-cases, inl, inr, length, ltb, ◌==◌,
}
use mathlib.Core.Option.{some-injective}
use mathlib.Core.Path.{subst}
use ceph_exporter.Mds.Operations.{extract_op_from_description}
use ceph_exporter.Float.{Float64}
use ceph_exporter.Json.{Buffer}
use ceph_exporter.Conn.{Conn, PoolStat}
use ceph_exporter.Version.{Version, is_at_least, pacific}
use ceph_exporter.Prometheus.{Metric}
use ceph_exporter.Prometheus.WellFormed.{is_well_formed, are_well_formed}
use ceph_exporter.ClusterUsage
use ceph_exporter.PoolUsage
use ceph_exporter.Crashes
use ceph_exporter.Crashes.{CrashEntry}
use ceph_exporter.RbdMirror
use ceph_exporter.Mds
use ceph_exporter.Mds.Replies.{MdsMap, MdsStatus, Op, Info}
use ceph_exporter.Mds.{Commands, MdsCollector}

module _ (fl : Float64) where
  open fl use {Value}

  pub cluster_usage-are_well_formed :
      (c : ClusterUsage.ClusterUsageCollector fl) (conn : Conn)
      → are_well_formed (ClusterUsage.collect fl c conn).1 ≡ true
  unfolding ClusterUsage.collect
  cluster_usage-are_well_formed c conn = elim (Option-cases (ClusterUsage.stats_reply fl conn)) [
    | inl e ↦ rw e refl
    | inr (stats, e) ↦ rw e refl
  ]

  all_metrics-are_well_formed :
      (get_pool_stats : String → Option PoolStat) (ps : List (PoolUsage.PoolUsage fl))
      → are_well_formed (PoolUsage.all_metrics fl get_pool_stats ps) ≡ true
  unfolding PoolUsage.all_metrics
  all_metrics-are_well_formed get_pool_stats [] = refl
  all_metrics-are_well_formed get_pool_stats (p ∷ ps) =
      all-append is_well_formed (PoolUsage.pool_metrics fl get_pool_stats p)
        (PoolUsage.all_metrics fl get_pool_stats ps) (go (get_pool_stats p.name))
        (all_metrics-are_well_formed get_pool_stats ps)
    where
      go : (o : Option PoolStat) → are_well_formed (PoolUsage.unfound fl p.name o) ≡ true
      go none = refl
      go (some st) = refl

  pub pool_usage-are_well_formed :
      (conn : Conn) → are_well_formed (PoolUsage.collect fl conn) ≡ true
  unfolding PoolUsage.collect PoolUsage.send
  pool_usage-are_well_formed conn = elim (Option-cases (PoolUsage.pools_reply fl conn)) [
    | inl e ↦ rw e refl
    | inr (ps, e) ↦ rw e (all_metrics-are_well_formed conn.get_pool_stats ps)
  ]

  crash_metrics-are_well_formed :
      (counts : List (CrashEntry × ℕ))
      → are_well_formed (map (Crashes.crash_metric fl) counts) ≡ true
  crash_metrics-are_well_formed [] = refl
  crash_metrics-are_well_formed (count ∷ counts) = crash_metrics-are_well_formed counts

  pub crashes-are_well_formed : (conn : Conn) → are_well_formed (Crashes.collect fl conn) ≡ true
  unfolding Crashes.collect
  crashes-are_well_formed conn = crash_metrics-are_well_formed (Crashes.get_crash_ls conn)

  pub rbd_mirror-are_well_formed :
      (c : RbdMirror.RbdMirrorStatusCollector fl) (reply : Option Buffer) (v : Version)
      → are_well_formed (RbdMirror.collect fl c reply v).1 ≡ true
  unfolding RbdMirror.collect RbdMirror.metrics_list
  rbd_mirror-are_well_formed c reply v = elim (Bool-cases (is_at_least v pacific)) [
    | inl e ↦ rw e (rw e refl)
    | inr e ↦ rw e (rw e refl)
  ]

  offer_all-are_well_formed :
      (ms ch : List (Metric Value))
      → are_well_formed ms ≡ true
      → are_well_formed ch ≡ true
      → are_well_formed (Mds.offer_all fl ms ch) ≡ true
  unfolding Mds.offer_all Mds.offer
  offer_all-are_well_formed [] ch h k = k
  offer_all-are_well_formed (m ∷ ms) ch h k =
      let (h1, h2) = both (is_well_formed m) (are_well_formed ms) h in
      elim (Bool-cases (ltb (length ch) Mds.capacity)) [
        | inl e ↦ rw e (
            offer_all-are_well_formed ms (ch ++ m ∷ []) h2
              (all-append is_well_formed ch (m ∷ []) k (rw h1 refl)))
        | inr e ↦ rw e (offer_all-are_well_formed ms ch h2 k)
      ]

  infos-are_well_formed :
      (fs_name : String) (infos : List (String × Info))
      → are_well_formed (map (Mds.state_metric fl fs_name) infos) ≡ true
  infos-are_well_formed fs_name [] = refl
  infos-are_well_formed fs_name (info ∷ infos) = infos-are_well_formed fs_name infos

  state_metrics-are_well_formed :
      (maps : List MdsMap) → are_well_formed (Mds.state_metrics fl maps) ≡ true
  unfolding Mds.state_metrics
  state_metrics-are_well_formed [] = refl
  state_metrics-are_well_formed (m ∷ maps) =
      all-append is_well_formed (map (Mds.state_metric fl m.fs_name) m.info)
        (Mds.state_metrics fl maps) (infos-are_well_formed m.fs_name m.info)
        (state_metrics-are_well_formed maps)

  has_labels :
      (mds : String) (status : MdsStatus) (op : Op) (ls : List String)
      → Mds.labels_of mds status op ≡ some ls
      → length ls ≡ 7
  unfolding Mds.labels_of
  has_labels mds status op ls h =
      let (_, _, k) =
        >>=-eq-some
          (if string_beq op.type_data.op_type "client_request"
            then Mds.described (extract_op_from_description (codes op.description))
            else some ("", ""))
          _ h in
      sym (ap length (some-injective _ _ k))

  -- The keys of the counts are as long as the blocked operations have labels.
  abbrev have_labels : List (List String × ℕ) → Bool
  have_labels m = all (λ (ls, n). length ls == 7) m

  insert-have_labels :
      (ls : List String) (n : ℕ) (m : List (List String × ℕ))
      → length ls ≡ 7
      → have_labels m ≡ true
      → have_labels (insert ls n m) ≡ true
  unfolding insert
  insert-have_labels ls n [] e h = rw e refl
  insert-have_labels ls n ((ks, k) ∷ m) e h =
      let (h1, h2) = both (length ks == 7) (have_labels m) h in
      elim (Bool-cases (beq ks ls)) [
        | inl q ↦ rw (q, h1) h2
        | inr q ↦ rw (q, h1) (insert-have_labels ls n m e h2)
      ]

  count_ops-have_labels :
      (mds : String) (status : MdsStatus) (ops : List Op) (m : List (List String × ℕ))
      → have_labels m ≡ true
      → have_labels (Mds.count_ops mds status ops m) ≡ true
  unfolding Mds.count_ops
  count_ops-have_labels mds status [] m h = h
  count_ops-have_labels mds status (op ∷ ops) m h =
      count_ops-have_labels mds status ops (Mds.count_one (Mds.labels_of mds status op) m)
        (go (Mds.labels_of mds status op) refl)
    where
      go :
          (o : Option (List String))
          → Mds.labels_of mds status op ≡ o
          → have_labels (Mds.count_one o m) ≡ true
      go none q = h
      go (some ls) q = insert-have_labels ls _ m (has_labels mds status op ls q) h

  op_metrics-have_labels :
      (m : List (List String × ℕ))
      → have_labels m ≡ true
      → are_well_formed (map (Mds.op_metric fl) m) ≡ true
  op_metrics-have_labels [] h = refl
  op_metrics-have_labels ((ls, n) ∷ m) h =
      let (h1, h2) = both (length ls == 7) (have_labels m) h in rw h1 (op_metrics-have_labels m h2)

  op_metrics-are_well_formed :
      (cmds : Commands) (mds : String) (ms : List (Metric Value))
      → Mds.op_metrics fl cmds mds ≡ some ms
      → are_well_formed ms ≡ true
  unfolding Mds.op_metrics
  op_metrics-are_well_formed cmds mds ms h =
      let ((status, ops), _, k) = >>=-eq-some (Mds.server_reply fl cmds mds) _ h in
      subst (λ ms. are_well_formed ms ≡ true) (some-injective _ _ k)
        (op_metrics-have_labels (Mds.count_ops mds status ops [])
          (count_ops-have_labels mds status ops [] refl))

  collect_details-are_well_formed :
      (cmds : Commands) (details : List String) (ch : List (Metric Value))
      → are_well_formed ch ≡ true
      → are_well_formed (Mds.collect_details fl cmds details ch) ≡ true
  unfolding Mds.collect_details
  collect_details-are_well_formed cmds [] ch h = h
  collect_details-are_well_formed cmds (message ∷ rest) ch h =
      elim (Option-cases (Mds.server_of message)) [
        | inl e ↦ rw (e, Mds.collect_details) (collect_details-are_well_formed cmds rest ch h)
        | inr (mds, e) ↦ elim (Option-cases (Mds.op_metrics fl cmds mds)) [
          | inl q ↦ rw (e, q, Mds.collect_details) h
          | inr (ms, q) ↦
              rw (e, q, Mds.collect_details)
                (collect_details-are_well_formed cmds rest (Mds.offer_all fl ms ch)
                  (offer_all-are_well_formed ms ch (op_metrics-are_well_formed cmds mds ms q) h))
        ]
      ]

  pub refresh-are_well_formed :
      (cmds : Commands) (ch : List (Metric Value))
      → are_well_formed ch ≡ true
      → are_well_formed (Mds.refresh fl cmds ch) ≡ true
  unfolding Mds.refresh Mds.collect_mds_slow_ops
  refresh-are_well_formed cmds ch h = elim (Option-cases (Mds.stat_reply cmds)) [
    | inl e ↦ rw (e, Mds.refresh) h
    | inr (maps, e) ↦
        rw (e, Mds.refresh)
          (collect_details-are_well_formed cmds (Mds.slow_requests cmds)
            (Mds.offer_all fl (Mds.state_metrics fl maps) ch)
            (offer_all-are_well_formed (Mds.state_metrics fl maps) ch
              (state_metrics-are_well_formed maps) h))
  ]

  -- What is in the channel, what a Collect sends of it, and what it leaves.
  pub mds-are_well_formed :
      (cmds : Commands) (m : MdsCollector fl)
      → are_well_formed m.ch ≡ true
      → (are_well_formed (Mds.collect fl cmds m).0.ch ≡ true)
        × (are_well_formed (Mds.collect fl cmds m).1 ≡ true)
  unfolding Mds.collect
  mds-are_well_formed cmds m h = elim (Bool-cases m.background) [
    | inl e ↦ rw e (refl, h)
    | inr e ↦ rw e (refl, refresh-are_well_formed cmds m.ch h)
  ]
