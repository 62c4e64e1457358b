-- ===== src/Monitors/Laws.antt =====
-- ceph/monitors.go: what the vectors show after a collection.
use ceph_exporter.Base.{
  String, ◌≡◌, refl, sym, ap, ◌∙◌, Bool, true, false, Option, none, some, List, [], ◌∷◌, ◌++◌, map,
  length, beq, strings_eq, if◌then◌else◌, Option-cases, inl, inr, ◌&&◌,
}
use mathlib.Core.Path.{subst}
use ceph_exporter.Float.{Float64, of_count, parse}
use ceph_exporter.Prometheus.{GaugeVecs}
use ceph_exporter.Conn.{Conn}
use ceph_exporter.Monitors.Commands.{TimeCheck, GabsArrays, Features, Replies, replies}
use ceph_exporter.Monitors.{
  version_labels, feature_labels, MonitorCollector, set_all, set_versions, set_features, reset,
  set_checks, set_rest, show, collect,
}

module _ (fl : Float64) where
  open fl use {Value}

  -- The value that is last in a list under some label values, or else what was found before.
  unfoldable pub last_of : List String → Option Value → List (List String × Value) → Option Value
  last_of ls found [] = found
  last_of ls found ((ks, x) ∷ rest) = last_of ls (if beq ks ls then some x else found) rest

  last_of-append :
      (ls : List String) (found : Option Value) (xs ys : List (List String × Value))
      → last_of ls found (xs ++ ys) ≡ last_of ls (last_of ls found xs) ys
  unfolding last_of
  last_of-append ls found [] ys = refl
  last_of-append ls found ((ks, x) ∷ xs) ys =
      last_of-append ls (if beq ks ls then some x else found) xs ys

  -- A number of each check that can be read, by its monitor.
  unfoldable pub timings :
      (TimeCheck → String) → List (String × TimeCheck) → List (List String × Value)
  timings text [] = []
  timings text ((mon, t) ∷ rest) = elim (parse fl (text t)) [
    | none ↦ timings text rest
    | some x ↦ (mon ∷ [], x) ∷ timings text rest
  ]

  abbrev is_read : Option Value → Bool
  is_read none = false
  is_read (some x) = true

  -- Both numbers of each check can be read.
  unfoldable pub are_read : List (String × TimeCheck) → Bool
  are_read [] = true
  are_read ((mon, t) ∷ rest) =
      is_read (parse fl t.skew) && (is_read (parse fl t.latency) && are_read rest)

  module _ (ga : GabsArrays fl.Value) where
    -- The counts of all daemons with their label values.
    unfoldable pub version_series :
        List (String × List (String × Value)) → List (List String × Value)
    unfolding version_labels
    version_series [] = []
    version_series ((daemon, counts) ∷ rest) =
        map (version_labels fl ga daemon) counts ++ version_series rest

    unfoldable pub feature_series : Features → List (List String × Value)
    feature_series [] = []
    feature_series ((daemon, groups) ∷ rest) =
        map (feature_labels fl ga daemon) groups ++ feature_series rest

    module _ (gv : GaugeVecs fl.Value) where
      get-set_all :
          (ls : List String) (v : gv.Vec) (kvs : List (List String × Value))
          → gv.get (set_all fl ga gv v kvs) ls ≡ last_of ls (gv.get v ls) kvs
      unfolding set_all last_of
      get-set_all ls v [] = refl
      get-set_all ls v ((ks, x) ∷ rest) =
          get-set_all ls (gv.set v ks x) rest ∙ ap (λ o. last_of ls o rest) (gv.get-set v ks ls x)

      get-set_versions :
          (ls : List String) (v : gv.Vec) (vs : List (String × List (String × Value)))
          → gv.get (set_versions fl ga gv v vs) ls ≡ last_of ls (gv.get v ls) (version_series vs)
      unfolding set_versions version_series last_of
      get-set_versions ls v [] = refl
      get-set_versions ls v ((daemon, counts) ∷ rest) =
          let kvs = map (version_labels fl ga daemon) counts in
          get-set_versions ls (set_all fl ga gv v kvs) rest
          ∙ ap (λ o. last_of ls o (version_series rest)) (get-set_all ls v kvs)
          ∙ sym (last_of-append ls (gv.get v ls) kvs (version_series rest))

      get-set_features :
          (ls : List String) (v : gv.Vec) (fs : Features)
          → gv.get (set_features fl ga gv v fs) ls ≡ last_of ls (gv.get v ls) (feature_series fs)
      unfolding set_features feature_series last_of
      get-set_features ls v [] = refl
      get-set_features ls v ((daemon, groups) ∷ rest) =
          let kvs = map (feature_labels fl ga daemon) groups in
          get-set_features ls (set_all fl ga gv v kvs) rest
          ∙ ap (λ o. last_of ls o (feature_series rest)) (get-set_all ls v kvs)
          ∙ sym (last_of-append ls (gv.get v ls) kvs (feature_series rest))

      -- The gauges of the times are set, the others are kept.
      record Times (checks : List (String × TimeCheck)) (c c' : MonitorCollector fl ga gv)
          : Type 0 where
        skew :
            (ls : List String)
            → gv.get c'.clock_skew ls
              ≡ last_of ls (gv.get c.clock_skew ls) (timings (λ t. t.skew) checks)
        latency :
            (ls : List String)
            → gv.get c'.latency ls
              ≡ last_of ls (gv.get c.latency ls) (timings (λ t. t.latency) checks)
        versions : c'.ceph_versions ≡ c.ceph_versions
        features : c'.ceph_features ≡ c.ceph_features

      abbrev after :
          (mon : String) (x y : Value) (c : MonitorCollector fl ga gv) → MonitorCollector fl ga gv
      after mon x y c = record c {
        clock_skew = gv.set c.clock_skew (mon ∷ []) x;
        latency = gv.set c.latency (mon ∷ []) y;
      }

      set_checks-after :
          (mon : String) (t : TimeCheck) (rest : List (String × TimeCheck))
          (c : MonitorCollector fl ga gv) (x y : Value)
          → parse fl t.skew ≡ some x
          → parse fl t.latency ≡ some y
          → set_checks fl ga gv ((mon, t) ∷ rest) c ≡ set_checks fl ga gv rest (after mon x y c)
      unfolding set_checks
      set_checks-after mon t rest c x y e f = rw (e, f, set_checks) refl

      set_checks-Times :
          (checks : List (String × TimeCheck)) (c : MonitorCollector fl ga gv)
          → (set_checks fl ga gv checks c).1 ≡ true
          → Times checks c (set_checks fl ga gv checks c).0
      unfolding set_checks timings last_of
      set_checks-Times [] c h = record {
        skew = λ ls. refl;
        latency = λ ls. refl;
        versions = refl;
        features = refl;
      }
      set_checks-Times ((mon, t) ∷ rest) c h = elim (Option-cases (parse fl t.skew)) [
        | inl e ↦ cc
        | inr (x, e) ↦ elim (Option-cases (parse fl t.latency)) [
          | inl f ↦ cc
          | inr (y, f) ↦
              subst (λ (r : MonitorCollector fl ga gv × Bool). Times ((mon, t) ∷ rest) c r.0)
                (sym (set_checks-after mon t rest c x y e f))
                (let ih = set_checks-Times rest (after mon x y c) (
                    subst (λ (r : MonitorCollector fl ga gv × Bool). r.1 ≡ true)
                      (set_checks-after mon t rest c x y e f) h) in
                  record {
                    skew = λ ls.
                        rw (e, timings)
                          (ih.skew ls
                            ∙ ap (λ o. last_of ls o (timings (λ t. t.skew) rest))
                                (gv.get-set c.clock_skew (mon ∷ []) ls x));
                    latency = λ ls.
                        rw (f, timings)
                          (ih.latency ls
                            ∙ ap (λ o. last_of ls o (timings (λ t. t.latency) rest))
                                (gv.get-set c.latency (mon ∷ []) ls y));
                    versions = ih.versions;
                    features = ih.features;
                  })
        ]
      ]

      -- What a collection shows of the replies, in the four vectors and in the gauge of the quorum.
      pub record ShowsReplies (r : Replies fl ga) (c : MonitorCollector fl ga gv) : Type 0 where
        pub skew :
            (ls : List String)
            → gv.get c.clock_skew ls ≡ last_of ls none (timings (λ t. t.skew) r.time_checks)
        pub latency :
            (ls : List String)
            → gv.get c.latency ls ≡ last_of ls none (timings (λ t. t.latency) r.time_checks)
        pub quorum : c.nodesin_quorum ≡ of_count fl (length r.quorum)
        pub versions :
            (ls : List String)
            → gv.get c.ceph_versions ls ≡ last_of ls none (version_series r.versions)
        pub features :
            (ls : List String)
            → gv.get c.ceph_features ls ≡ last_of ls none (feature_series r.features)

      set_rest-ShowsReplies :
          (r : Replies fl ga) (c : MonitorCollector fl ga gv) (s : MonitorCollector fl ga gv × Bool)
          → (s.1 ≡ true → Times r.time_checks (reset fl ga gv c) s.0)
          → (set_rest fl ga gv r s).1 ≡ true
          → ShowsReplies r (set_rest fl ga gv r s).0
      unfolding set_rest
      set_rest-ShowsReplies r c (c', false) times h = cc
      set_rest-ShowsReplies r c (c', true) times h =
          let t = times refl in
          record {
            skew = λ ls.
                t.skew ls
                ∙ ap (λ o. last_of ls o (timings (λ t. t.skew) r.time_checks))
                    (gv.get-reset c.clock_skew ls);
            latency = λ ls.
                t.latency ls
                ∙ ap (λ o. last_of ls o (timings (λ t. t.latency) r.time_checks))
                    (gv.get-reset c.latency ls);
            quorum = refl;
            versions = λ ls.
                get-set_versions ls c'.ceph_versions r.versions
                ∙ ap (λ o. last_of ls o (version_series r.versions))
                    (ap (λ v. gv.get v ls) t.versions ∙ gv.get-reset c.ceph_versions ls);
            features = λ ls.
                get-set_features ls c'.ceph_features r.features
                ∙ ap (λ o. last_of ls o (feature_series r.features))
                    (ap (λ v. gv.get v ls) t.features ∙ gv.get-reset c.ceph_features ls);
          }

      set_checks-are_read :
          (checks : List (String × TimeCheck)) (c : MonitorCollector fl ga gv)
          → (set_checks fl ga gv checks c).1 ≡ are_read checks
      unfolding set_checks are_read
      set_checks-are_read [] c = refl
      set_checks-are_read ((mon, t) ∷ rest) c = elim (Option-cases (parse fl t.skew)) [
        | inl e ↦ rw (e, set_checks) refl
        | inr (x, e) ↦ elim (Option-cases (parse fl t.latency)) [
          | inl f ↦ rw (e, f, set_checks) refl
          | inr (y, f) ↦ rw (e, f, set_checks) (set_checks-are_read rest (after mon x y c))
        ]
      ]

      set_rest-sent :
          (r : Replies fl ga) (s : MonitorCollector fl ga gv × Bool)
          → (set_rest fl ga gv r s).1 ≡ s.1
      unfolding set_rest
      set_rest-sent r (c, false) = refl
      set_rest-sent r (c, true) = refl

      -- Where the four replies are there and both numbers of each monitor can be read, a collection is
      -- sent, and it shows exactly what the replies say, whatever the vectors held before: the skew
      -- and the latency of each monitor, the size of the quorum, and the numbers of the daemons by
      -- version and of the clients by features.
      pub collect-ShowsReplies :
          (conn : Conn) (c : MonitorCollector fl ga gv) (r : Replies fl ga)
          → replies fl ga conn ≡ some r
          → are_read r.time_checks ≡ true
          → ((collect fl ga gv conn c).1 ≡ true) × ShowsReplies r (collect fl ga gv conn c).0
      unfolding collect
      collect-ShowsReplies conn c r e a =
          let s = set_checks fl ga gv r.time_checks (reset fl ga gv c) in
          let sent = set_rest-sent r s ∙ set_checks-are_read r.time_checks (reset fl ga gv c) ∙ a in
          subst (λ o. ((show fl ga gv o c).1 ≡ true) × ShowsReplies r (show fl ga gv o c).0) (sym e)
            (
              sent,
              set_rest-ShowsReplies r c s (set_checks-Times r.time_checks (reset fl ga gv c)) sent,
            )
