-- ===== src/Collectors/Reachable.antt =====
-- Every metric that an exporter of ceph/exporter.go sends through its life has a label value for each
-- label of its descriptor, so that no `MustNewConstMetric` panics.
use ceph_exporter.Base.{
  ℕ, String, ◌≡◌, refl, sym, ap, ◌∙◌, Bool, true, false, Option, none, some, List, [], ◌∷◌, map,
  all, ℤ, pos, eqb_ℤ, lookup, string_eq, Bool-cases, Option-cases, inl, inr, >>=-eq-some,
}
use mathlib.Core.List.{Memᴰ}
use mathlib.Core.Option.{some-injective}
use mathlib.Core.Path.{subst}
use ceph_exporter.Float.{Float64}
use ceph_exporter.Prometheus.{Metric, IsWellFormed}
use ceph_exporter.Prometheus.WellFormed.{
  is_well_formed, are_well_formed, IsWellFormed-Mem, all-Received,
}
use ceph_exporter.Conn.{Conn}
use ceph_exporter.Version.{Version}
use ceph_exporter.Exporter.{
  CollectorKind, cluster_usage, pool_usage, pool_info, cluster_health, mon, osd, crashes, rgw, mds,
  rbd_mirror_status, version_reply, versions_reply,
}
use ceph_exporter.Exporter as Exporter
use ceph_exporter.Exporter.Versions.{Counts}
use ceph_exporter.Exporter.Interleaving.{Received}
use ceph_exporter.Exporter.Collection.{collect_all-split}
use ceph_exporter.Collectors.{Host, collectors, new}
use ceph_exporter.Collectors.Background.{
  background, Living, started, described, collected, went_round,
}
use ceph_exporter.Collectors.Background.WellFormed.{background_round-IsSound}
use ceph_exporter.Collectors.Fit.{AreFit, cons-AreFit, insert-AreFit, delete-AreFit, lookup-IsFit}
use ceph_exporter.Collectors.WellFormed.{new-IsFit, collect-IsSound}

-- Each metric has one label value for each label of its descriptor.
abbrev pub AreWellFormed : {V : Type 0} → List (Metric V) → Type 0
AreWellFormed {V} ms = (m : Metric V) → Memᴰ m ms → IsWellFormed m

module _ (fl : Float64) (host : Host fl) where
  open fl use {Value}
  open host use {arrays}

  abbrev cs : Exporter.VersionedCollectors Value
  cs = collectors fl host

  collect_all-AreFit :
      (conn : Conn) (v : Version) (m m' : Exporter.Collectors arrays.gabs cs)
      (outs : List (List (Metric Value)))
      → AreFit fl host m
      → Exporter.collect_all arrays.gabs cs conn v m ≡ some (m', outs)
      → AreFit fl host m' × (all are_well_formed outs ≡ true)
  unfolding Exporter.collect_all
  collect_all-AreFit conn v [] m' outs h k =
      subst (λ r. AreFit fl host r.0 × (all are_well_formed r.1 ≡ true)) (some-injective _ _ k)
        (h, refl)
  collect_all-AreFit conn v ((name, c) ∷ rest) m' outs h k =
      let (c', ms, rest', outs', h1, h2, m_lem, outs_lem) =
        collect_all-split arrays.gabs cs conn v name c rest m' outs k in
      let (fit, sent) =
        collect-IsSound fl host conn v c (c', ms) (h (name, c) (Memᴰ.head refl)) h1 in
      let (fits, all_sent) =
        collect_all-AreFit conn v rest rest' outs' (λ x i. h x (Memᴰ.tail i)) h2 in
      (
        subst (AreFit fl host) (sym m_lem) (cons-AreFit fl host name c' rest' fit fits),
        ap (all are_well_formed) outs_lem ∙ rw sent all_sent,
      )

  describe_all-AreFit :
      (conn : Conn) (m : Exporter.Collectors arrays.gabs cs)
      → AreFit fl host m
      → AreFit fl host (Exporter.describe_all arrays.gabs cs conn m).0
  unfolding Exporter.describe_all
  describe_all-AreFit conn [] h = h
  describe_all-AreFit conn ((name, c) ∷ rest) h =
      cons-AreFit fl host name c _ (h (name, c) (Memᴰ.head refl))
        (describe_all-AreFit conn rest (λ x i. h x (Memᴰ.tail i)))

  with_mode-AreFit :
      (mode : ℤ) (name : String) (kind : Bool → CollectorKind)
      (m : Exporter.Collectors arrays.gabs cs)
      → AreFit fl host m
      → AreFit fl host (Exporter.with_mode arrays.gabs cs mode name kind m)
  with_mode-AreFit mode name kind m h = elim (Bool-cases (eqb_ℤ mode (pos 1))) [
    | inl e ↦ rw e (insert-AreFit fl host name _ m (new-IsFit fl host (kind false)) h)
    | inr e ↦ elim (Bool-cases (eqb_ℤ mode (pos 2))) [
      | inl q ↦ rw (e, q) (insert-AreFit fl host name _ m (new-IsFit fl host (kind true)) h)
      | inr q ↦ rw (e, q) h
    ]
  ]

  -- Collectors that have just been made.
  fresh-AreFit :
      (kinds : List (String × CollectorKind))
      → AreFit fl host (map (λ (name, kind). (name, new fl host kind)) kinds)
  fresh-AreFit [] = λ x i. elim i [ ]
  fresh-AreFit ((name, kind) ∷ kinds) =
      cons-AreFit fl host name (new fl host kind) _ (new-IsFit fl host kind) (fresh-AreFit kinds)

  init_collectors-AreFit :
      (rgw_mode mds_mode : ℤ)
      → AreFit fl host (Exporter.init_collectors arrays.gabs cs rgw_mode mds_mode)
  unfolding Exporter.init_collectors
  init_collectors-AreFit rgw_mode mds_mode = with_mode-AreFit mds_mode "mds" mds _ (
      with_mode-AreFit rgw_mode "rgw" rgw _ (
        fresh-AreFit (
          ("clusterUsage", cluster_usage)
          ∷ ("poolUsage", pool_usage)
          ∷ ("poolInfo", pool_info)
          ∷ ("clusterHealth", cluster_health)
          ∷ ("mon", mon)
          ∷ ("osd", osd)
          ∷ ("crashes", crashes)
          ∷ [])))

  with_rbd_mirror-AreFit :
      (v : Version) (entry : Option (Counts arrays.gabs)) (m : Exporter.Collectors arrays.gabs cs)
      → AreFit fl host m
      → AreFit fl host (Exporter.with_rbd_mirror arrays.gabs cs v entry m)
  with_rbd_mirror-AreFit v none m h = delete-AreFit fl host "rbdMirror" m h
  with_rbd_mirror-AreFit v (some []) m h = h
  with_rbd_mirror-AreFit v (some (count ∷ counts)) m h =
      elim (Option-cases (lookup "rbdMirror" m)) [
        | inl e ↦
            rw e (insert-AreFit fl host "rbdMirror" _ m (new-IsFit fl host (rbd_mirror_status v)) h)
        | inr (c, e) ↦ rw e h
      ]

  abbrev Settled : Type 0
  Settled = Option (List (String × Counts arrays.gabs))

  renew-AreFit :
      (reported : Option Version) (daemons : Settled) (e : Exporter.Exporter arrays.gabs cs)
      → AreFit fl host e.cc
      → AreFit fl host (Exporter.renew arrays.gabs cs reported daemons e).0.cc
  unfolding Exporter.renew
  renew-AreFit none daemons e h = h
  renew-AreFit (some v) none e h = h
  renew-AreFit (some v) (some daemons) e h =
      with_rbd_mirror-AreFit v (lookup "rbd-mirror" daemons) e.cc h

  describe_renewed-AreFit :
      (conn : Conn) (r : Exporter.Exporter arrays.gabs cs × Bool)
      → AreFit fl host r.0.cc
      → AreFit fl host (Exporter.describe_renewed arrays.gabs cs conn r).0.cc
  unfolding Exporter.describe_renewed
  describe_renewed-AreFit conn (e, false) h = h
  describe_renewed-AreFit conn (e, true) h = describe_all-AreFit conn e.cc h

  collect_renewed-AreFit :
      (conn : Conn) (r : Exporter.Exporter arrays.gabs cs × Bool)
      (e' : Exporter.Exporter arrays.gabs cs) (outs : List (List (Metric Value)))
      → AreFit fl host r.0.cc
      → Exporter.collect_renewed arrays.gabs cs conn r ≡ some (e', outs)
      → AreFit fl host e'.cc × (all are_well_formed outs ≡ true)
  unfolding Exporter.collect_renewed
  collect_renewed-AreFit conn (e, false) e' outs h k =
      subst (λ r. AreFit fl host r.0.cc × (all are_well_formed r.1 ≡ true)) (some-injective _ _ k)
        (h, refl)
  collect_renewed-AreFit conn (e, true) e' outs h k =
      let ((m, outs'), h1, k1) =
        >>=-eq-some (Exporter.collect_all arrays.gabs cs conn e.version e.cc) _ k in
      subst (λ r. AreFit fl host r.0.cc × (all are_well_formed r.1 ≡ true)) (some-injective _ _ k1)
        (collect_all-AreFit conn e.version e.cc m outs' h h1)

  collect-AreFit :
      (e e' : Exporter.Exporter arrays.gabs cs) (conn : Conn) (outs : List (List (Metric Value)))
      → AreFit fl host e.cc
      → Exporter.collect arrays.gabs cs e conn ≡ some (e', outs)
      → AreFit fl host e'.cc × (all are_well_formed outs ≡ true)
  unfolding Exporter.collect
  collect-AreFit e e' conn outs h k =
      collect_renewed-AreFit conn
        (Exporter.renew arrays.gabs cs (version_reply conn) (versions_reply arrays.gabs cs conn) e)
        e' outs (renew-AreFit (version_reply conn) (versions_reply arrays.gabs cs conn) e h) k

  background-AreFit :
      (now : ℕ) (conn : Conn) (name : String) (e : Exporter.Exporter arrays.gabs cs)
      → AreFit fl host e.cc
      → AreFit fl host (background fl host now conn name e).0.cc
        × (are_well_formed (background fl host now conn name e).1 ≡ true)
  unfolding background
  background-AreFit now conn name e h = elim (Option-cases (lookup name e.cc)) [
    | inl q ↦ rw q (h, refl)
    | inr (c, q) ↦
        let (fit, sent) =
          background_round-IsSound fl host now conn c (lookup-IsFit fl host name e.cc c h q) in
        rw q (insert-AreFit fl host name _ e.cc fit h, sent)
  ]

  Living-AreFit : (e : Exporter.Exporter arrays.gabs cs) → Living fl host e → AreFit fl host e.cc
  unfolding Exporter.new_exporter Exporter.describe
  Living-AreFit e (started conn cluster config user rgw_mode mds_mode h) =
      let (v, k, eq) = >>=-eq-some (version_reply conn) _ h in
      subst (λ e. AreFit fl host e.cc) (some-injective _ _ eq)
        (init_collectors-AreFit rgw_mode mds_mode)
  Living-AreFit _ (described {e} conn r) =
      describe_renewed-AreFit conn
        (Exporter.renew arrays.gabs cs (version_reply conn) (versions_reply arrays.gabs cs conn) e)
        (renew-AreFit (version_reply conn) (versions_reply arrays.gabs cs conn) e
          (Living-AreFit e r))
  Living-AreFit e' (collected {e} {outs = outs} conn r k) =
      (collect-AreFit e e' conn outs (Living-AreFit e r) k).0
  Living-AreFit _ (went_round {e} now conn name r) =
      (background-AreFit now conn name e (Living-AreFit e r)).0

  -- At any time in the life of an exporter with its own collectors, after any scrapes, calls of
  -- Describe and rounds of the goroutines that it has started, each metric that Prometheus receives
  -- from a scrape that ends has exactly one label value for each label of its descriptor, whatever
  -- the cluster has replied until then and whatever the order of the goroutines; and so has each
  -- metric that a round of such a goroutine sends by itself after the scrape.
  pub scrape-AreWellFormed :
      (e e' : Exporter.Exporter arrays.gabs cs) (conn : Conn) (outs : List (List (Metric Value)))
      (sent : List (Metric Value)) (now : ℕ) (later : Conn) (name : String)
      → Living fl host e
      → Exporter.collect arrays.gabs cs e conn ≡ some (e', outs)
      → Received outs sent
      → AreWellFormed sent × AreWellFormed (background fl host now later name e').1
  scrape-AreWellFormed e e' conn outs sent now later name living h r =
      let (fit, all_sent) = collect-AreFit e e' conn outs (Living-AreFit e living) h in
      (
        λ m i. IsWellFormed-Mem sent m (all-Received is_well_formed outs sent r all_sent) i,
        λ m i. IsWellFormed-Mem _ m (background-AreFit now later name e' fit).1 i,
      )
