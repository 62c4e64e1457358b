-- ===== src/PoolUsage/Laws.antt =====
-- ceph/pool_usage.go: the series that a collection sends.
use ceph_exporter.Base.{
  String, ◌≡◌, refl, sym, ap, ◌∙◌, Bool, true, false, ◌||◌, Option, none, some, List, [], ◌∷◌, ◌++◌,
  map, lookup, Fresh, IsMap, beq, string_eq, strings_eq, if◌then◌else◌, arith, eq_iff, Bool-cases,
  Option-cases, inl, inr, All,
}
use ceph_exporter.Float.{Float64, of_count}
use ceph_exporter.Prometheus.{keyed, Metric}
use ceph_exporter.Conn.{Conn, PoolStat}
use mathlib.Core.Path.{subst}
use mathlib.Core.List.{map-append}
use mathlib.Core.Option
use ceph_exporter.PoolUsage.{
  PoolUsage, unfound_name, pools_reply, pool_metrics, all_metrics, send, collect,
}

module _ (fl : Float64) where
  open fl use {Value}

  abbrev pub Series : Type 0
  Series = List (List String × Value)

  Fresh-append : (k : List String) (xs ys : Series) → Fresh k xs → Fresh k ys → Fresh k (xs ++ ys)
  Fresh-append k [] ys f g = g
  Fresh-append k (x ∷ xs) ys f g = (f.0, Fresh-append k xs ys f.1 g)

  -- No other pool of the list has the name.
  abbrev pub Unnamed : String → List (PoolUsage fl) → Type 0
  Unnamed name [] = Unit
  Unnamed name (p ∷ ps) = (beq p.name name ≡ false) × Unnamed name ps

  abbrev pub AreDistinct : List (PoolUsage fl) → Type 0
  AreDistinct [] = Unit
  AreDistinct (p ∷ ps) = Unnamed p.name ps × AreDistinct ps

  abbrev pub all_series : (String → Option PoolStat) → List (PoolUsage fl) → Series
  all_series g ps = map keyed (all_metrics fl g ps)

  -- Each metric is about the pool.
  abbrev OfPool : String → List (Metric Value) → Type 0
  OfPool name = All (λ m. m.labels ≡ name ∷ [])

  pool_metrics-OfPool :
      (g : String → Option PoolStat) (p : PoolUsage fl) → OfPool p.name (pool_metrics fl g p)
  pool_metrics-OfPool g p = elim (Option-cases (g p.name)) [
    | inl e ↦ rw e (ground arith)
    | inr (st, e) ↦ rw e (ground arith)
  ]

  pool_metrics-IsMap :
      (g : String → Option PoolStat) (p : PoolUsage fl) → IsMap (map keyed (pool_metrics fl g p))
  pool_metrics-IsMap g p = elim (Option-cases (g p.name)) [
    | inl e ↦ rw e (ground arith)
    | inr (st, e) ↦ rw e (ground arith)
  ]

  other_pool :
      (metric name other : String) (ms : List (Metric Value))
      → beq other name ≡ false
      → OfPool other ms
      → Fresh (metric ∷ name ∷ []) (map keyed ms)
  other_pool metric name other [] h o = tt
  other_pool metric name other (m ∷ ms) h (e, o) =
      (rw (e, h) (ground arith), other_pool metric name other ms h o)

  all_metrics-Fresh :
      (g : String → Option PoolStat) (metric name : String) (ps : List (PoolUsage fl))
      → Unnamed name ps
      → Fresh (metric ∷ name ∷ []) (all_series g ps)
  unfolding all_metrics
  all_metrics-Fresh g metric name [] u = tt
  all_metrics-Fresh g metric name (p ∷ ps) (h, u) =
      let ms = pool_metrics fl g p in
      subst (Fresh (metric ∷ name ∷ [])) (sym (map-append keyed ms (all_metrics fl g ps))) (
        Fresh-append (metric ∷ name ∷ []) (map keyed ms) (all_series g ps)
          (other_pool metric name p.name ms h (pool_metrics-OfPool g p))
          (all_metrics-Fresh g metric name ps u))

  -- The metrics of one pool before those of others.
  append-IsMap :
      (name : String) (ms : List (Metric Value)) (rest : Series)
      → OfPool name ms
      → ((metric : String) → Fresh (metric ∷ name ∷ []) rest)
      → IsMap (map keyed ms)
      → IsMap rest
      → IsMap (map keyed ms ++ rest)
  append-IsMap name [] rest o f h k = k
  append-IsMap name (m ∷ ms) rest (e, o) f (h, h') k = (
    Fresh-append (m.desc.name ∷ m.labels) (map keyed ms) rest h (rw e (f m.desc.name)),
    append-IsMap name ms rest o f h' k,
  )

  all_metrics-IsMap :
      (g : String → Option PoolStat) (ps : List (PoolUsage fl))
      → AreDistinct ps
      → IsMap (all_series g ps)
  unfolding all_metrics
  all_metrics-IsMap g [] d = tt
  all_metrics-IsMap g (p ∷ ps) (u, d) =
      let ms = pool_metrics fl g p in
      subst IsMap (sym (map-append keyed ms (all_metrics fl g ps))) (
        append-IsMap p.name ms (all_series g ps) (pool_metrics-OfPool g p)
          (λ metric. all_metrics-Fresh g metric p.name ps u) (pool_metrics-IsMap g p)
          (all_metrics-IsMap g ps d))

  -- Where the pools of the reply have different names, no series is sent twice, so that Prometheus
  -- takes the collection.
  pub collect-IsMap_usage :
      (conn : Conn) (ps : List (PoolUsage fl))
      → pools_reply fl conn ≡ some ps
      → AreDistinct ps
      → IsMap (map keyed (collect fl conn))
  unfolding collect send
  collect-IsMap_usage conn ps h d = rw h (all_metrics-IsMap conn.get_pool_stats ps d)

  abbrev pub unfound_value : Option PoolStat → Option Value
  unfound_value none = none
  unfound_value (some st) = some (of_count fl st.objects_unfound)

  -- Whether the reply has a pool of that name.
  unfoldable pub named : String → List (PoolUsage fl) → Bool
  named name [] = false
  named name (p ∷ ps) = beq p.name name || named name ps

  other_unfound :
      (g : String → Option PoolStat) (name : String) (p : PoolUsage fl) (rest : Series)
      → beq p.name name ≡ false
      → lookup (unfound_name ∷ name ∷ []) (map keyed (pool_metrics fl g p) ++ rest)
        ≡ lookup (unfound_name ∷ name ∷ []) rest
  unfolding lookup
  other_unfound g name p rest h = elim (Option-cases (g p.name)) [
    | inl e ↦ rw e refl
    | inr (st, e) ↦ rw (e, h) refl
  ]

  own_unfound :
      (g : String → Option PoolStat) (p : PoolUsage fl) (rest : Series)
      → (o : Option PoolStat) → g p.name ≡ o
      → lookup (unfound_name ∷ p.name ∷ []) (map keyed (pool_metrics fl g p) ++ rest)
        ≡ Option.or_else (unfound_value o) (lookup (unfound_name ∷ p.name ∷ []) rest)
  unfolding lookup Option.or_else
  own_unfound g p rest none e = rw e refl
  own_unfound g p rest (some st) e = rw (e, (eq_iff p.name p.name).1 refl) refl

  absorb : (x : Option Value) (b : Bool) → Option.or_else x (if b then x else none) ≡ x
  unfolding Option.or_else
  absorb none true = refl
  absorb none false = refl
  absorb (some x) b = refl

  all_metrics-unfound :
      (g : String → Option PoolStat) (name : String) (ps : List (PoolUsage fl))
      → lookup (unfound_name ∷ name ∷ []) (all_series g ps)
        ≡ (if named name ps then unfound_value (g name) else none)
  unfolding all_metrics named lookup Option.or_else
  all_metrics-unfound g name [] = refl
  all_metrics-unfound g name (p ∷ ps) =
      let ms = pool_metrics fl g p in
      ap (lookup (unfound_name ∷ name ∷ [])) (map-append keyed ms (all_metrics fl g ps))
      ∙ elim (Bool-cases (beq p.name name)) [
        | inl e ↦ rw e (
            subst
              (λ n.
                lookup (unfound_name ∷ n ∷ []) (map keyed ms ++ all_series g ps)
                ≡ Option.or_else (unfound_value (g n))
                    (lookup (unfound_name ∷ n ∷ []) (all_series g ps)))
              ((eq_iff p.name name).0 e) (own_unfound g p (all_series g ps) (g p.name) refl)
            ∙ ap (Option.or_else (unfound_value (g name))) (all_metrics-unfound g name ps)
            ∙ absorb (unfound_value (g name)) (named name ps))
        | inr e ↦ rw e (other_unfound g name p (all_series g ps) e ∙ all_metrics-unfound g name ps)
      ]

  -- The unfound objects of a pool are sent exactly when the reply has the pool and the cluster
  -- answers for it; an error on one pool takes away no series of another.
  pub collect-unfound :
      (conn : Conn) (ps : List (PoolUsage fl)) (name : String)
      → pools_reply fl conn ≡ some ps
      → lookup (unfound_name ∷ name ∷ []) (map keyed (collect fl conn))
        ≡ (if named name ps then unfound_value (conn.get_pool_stats name) else none)
  unfolding collect send
  collect-unfound conn ps name h = rw h (all_metrics-unfound conn.get_pool_stats name ps)
