-- ===== src/PoolInfo/Laws.antt =====
-- What the pool collector shows after a collection.
use mathlib.Core.Option
use ceph_exporter.Base.{
  String, ◌≡◌, refl, ap, ◌∙◌, Option, none, some, List, [], ◌∷◌, ℤ, beq, strings_eq, if◌then◌else◌,
}
use ceph_exporter.Float.{Float64}
use ceph_exporter.Prometheus.{GaugeVecs}
use ceph_exporter.Conn.{Conn}
use ceph_exporter.PoolInfo.{
  PoolGauge, PoolInfo, with_profile, gauge_value, label_values, pools_reply, Vecs, set_pool,
  set_pools, collect,
}
use ceph_exporter.PoolInfo.Rules.{get_crush_rule_to_root_mappings}

module _ (fl : Float64) (gv : GaugeVecs fl.Value) (conn : Conn) where
  -- The value of the last pool in the reply that has these label values.
  unfoldable pub latest :
      List (ℤ × String)
      → PoolGauge
      → List String
      → Option fl.Value
      → List (PoolInfo fl)
      → Option fl.Value
  latest roots g ls found [] = found
  latest roots g ls found (pool ∷ pools) =
      let pool' = with_profile fl pool in
      latest roots g ls
        (if beq (label_values fl roots pool') ls then some (gauge_value fl conn pool' g) else found)
        pools

  get-set_pools :
      (roots : List (ℤ × String)) (vecs : Vecs fl gv) (g : PoolGauge) (ls : List String)
      (pools : List (PoolInfo fl))
      → gv.get (set_pools fl gv conn roots vecs pools g) ls
        ≡ latest roots g ls (gv.get (vecs g) ls) pools
  unfolding set_pools latest
  get-set_pools roots vecs g ls [] = refl
  get-set_pools roots vecs g ls (pool ∷ pools) =
      get-set_pools roots (set_pool fl gv conn roots vecs pool) g ls pools
      ∙ ap (λ o. latest roots g ls o pools) (gv.get-set (vecs g) _ ls _)

  -- When the cluster lists its pools, a collection leaves in each vector exactly the series of the
  -- pools of this reply: under a list of label values stands the value of the last pool that has
  -- them, and nothing where no pool has them, whatever the vectors held before.
  pub collect-latest :
      (vecs : Vecs fl gv) (pools : List (PoolInfo fl)) (g : PoolGauge) (ls : List String)
      → pools_reply fl conn ≡ some pools
      → Option.map (λ (vs : Vecs fl gv). gv.get (vs g) ls) (collect fl gv conn vecs)
        ≡ some (latest (get_crush_rule_to_root_mappings conn) g ls none pools)
  unfolding collect
  collect-latest vecs pools g ls h = rw h (
      ap some (
        get-set_pools (get_crush_rule_to_root_mappings conn) (λ k. gv.reset (vecs k)) g ls pools
        ∙ ap (λ o. latest (get_crush_rule_to_root_mappings conn) g ls o pools)
            (gv.get-reset (vecs g) ls)))
