-- ===== src/PoolInfo.antt =====
-- ceph/pool.go: the settings of each pool.
mod Descs
pub mod Rules
pub mod Laws
use mathlib.Core.Option
use ceph_exporter.Base.{
  String, Bool, true, false, not, ◌||◌, Option, none, some, ◌>>=◌, List, [], ◌∷◌, map, ℤ, pos,
  string_beq, eqb_ℤ, int_eq, lookup, if◌then◌else◌,
}
use ceph_exporter.Float.{Float64, parse}
use ceph_exporter.Prometheus.{Desc, Metric, gauge, GaugeVecs, metrics_of}
use ceph_exporter.Json.{Decoder, Buffer, fields, get, string, int, float64, slice, unmarshal}
use ceph_exporter.Exporter.Interleaving.{concat}
use ceph_exporter.Conn.{Conn, Command, word}
use Descs
use Rules.{get_crush_rule_to_root_mappings}

abbrev pool_replicated : ℤ
pool_replicated = pos 1

-- osd pool ls detail
abbrev ceph_info_command : Command
ceph_info_command =
    ("prefix", word "osd pool ls") ∷ ("detail", word "detail") ∷ ("format", word "json") ∷ []

abbrev ec_profile_command : String → Command
ec_profile_command profile =
    ("prefix", word "osd erasure-code-profile get")
    ∷ ("name", word profile)
    ∷ ("format", word "json")
    ∷ []

-- The gauges of the collector, by their fields.
pub data PoolGauge : Type 0 where
  pg_num placement_pg_num min_size actual_size quota_max_bytes quota_max_objects stripe_width
        expansion_factor :
      PoolGauge

abbrev pub desc : PoolGauge → Desc
desc pg_num = Descs.pg_num
desc placement_pg_num = Descs.placement_pg_num
desc min_size = Descs.min_size
desc actual_size = Descs.actual_size
desc quota_max_bytes = Descs.quota_max_bytes
desc quota_max_objects = Descs.quota_max_objects
desc stripe_width = Descs.stripe_width
desc expansion_factor = Descs.expansion_factor

-- collectorList
abbrev pub collector_list : List PoolGauge
collector_list =
    pg_num ∷ placement_pg_num ∷ min_size ∷ actual_size ∷ quota_max_bytes ∷ quota_max_objects
    ∷ stripe_width ∷ expansion_factor ∷ []

-- Describe
abbrev pub descriptors : List Desc
descriptors = map desc collector_list

pub record EcInfo : Type 0 where
  pub k : String
  pub m : String

abbrev decode_ec_info : Decoder EcInfo
decode_ec_info j = do
  fs ← fields j
  k ← get "k" "" string fs
  m ← get "m" "" string fs
  some (record { k = k; m = m })

module _ (fl : Float64) where
  open fl use {Value, of_int, parse_float, add, mul, div, round}

  abbrev zero_value : Value
  zero_value = of_int (pos 0)

  pub record PoolInfo : Type 0 where
    pub name : String
    pub actual_size : Value
    pub min_size : Value
    pub pg_num : Value
    pub placement_pg_num : Value
    pub quota_max_bytes : Value
    pub quota_max_objects : Value
    pub profile : String
    pub type : ℤ
    pub stripe_width : Value
    pub crush_rule : ℤ

  abbrev zero_pool : PoolInfo
  zero_pool = record {
    name = "";
    actual_size = zero_value;
    min_size = zero_value;
    pg_num = zero_value;
    placement_pg_num = zero_value;
    quota_max_bytes = zero_value;
    quota_max_objects = zero_value;
    profile = "";
    type = pos 0;
    stripe_width = zero_value;
    crush_rule = pos 0;
  }

  decode_pool : Decoder PoolInfo
  decode_pool j = do
    fs ← fields j
    name ← get "pool_name" "" string fs
    size ← get "size" zero_value (float64 fl) fs
    min ← get "min_size" zero_value (float64 fl) fs
    pgs ← get "pg_num" zero_value (float64 fl) fs
    pgps ← get "pg_placement_num" zero_value (float64 fl) fs
    max_bytes ← get "quota_max_bytes" zero_value (float64 fl) fs
    max_objects ← get "quota_max_objects" zero_value (float64 fl) fs
    profile ← get "erasure_code_profile" "" string fs
    type ← get "type" (pos 0) int fs
    stripe ← get "stripe_width" zero_value (float64 fl) fs
    rule ← get "crush_rule" (pos 0) int fs
    some (record {
      name = name;
      actual_size = size;
      min_size = min;
      pg_num = pgs;
      placement_pg_num = pgps;
      quota_max_bytes = max_bytes;
      quota_max_objects = max_objects;
      profile = profile;
      type = type;
      stripe_width = stripe;
      crush_rule = rule;
    })

  -- (k + m) / k to two places; a text that is no number counts as what ParseFloat gives with its
  -- error
  expansion : EcInfo → Option Value
  expansion ec =
      if string_beq ec.k "" || string_beq ec.m ""
      then none
      else (let k = (parse_float ec.k).0 in
          let m = (parse_float ec.m).0 in
          some (div (round (mul (div (add k m) k) (of_int (pos 100)))) (of_int (pos 100))))

  -- `none` is an error
  pub get_ec_expansion_factor : Conn → PoolInfo → Option Value
  unfolding expansion
  get_ec_expansion_factor conn pool = do
    buf ← conn.mon_command (ec_profile_command pool.profile)
    ec ← unmarshal decode_ec_info buf
    expansion ec

  -- Without a profile the pool counts as replicated.
  pub get_expansion_factor : Conn → PoolInfo → Value
  get_expansion_factor conn pool =
      Option.get_or (get_ec_expansion_factor conn pool) pool.actual_size

  -- A replicated pool is labelled so.
  pub with_profile : PoolInfo → PoolInfo
  with_profile pool =
      if eqb_ℤ pool.type pool_replicated then record pool { profile = "replicated" } else pool

  pub gauge_value : Conn → PoolInfo → PoolGauge → Value
  gauge_value conn pool pg_num = pool.pg_num
  gauge_value conn pool placement_pg_num = pool.placement_pg_num
  gauge_value conn pool min_size = pool.min_size
  gauge_value conn pool actual_size = pool.actual_size
  gauge_value conn pool quota_max_bytes = pool.quota_max_bytes
  gauge_value conn pool quota_max_objects = pool.quota_max_objects
  gauge_value conn pool stripe_width = pool.stripe_width
  gauge_value conn pool expansion_factor = get_expansion_factor conn pool

  -- ruleToRootMappings[pool.CrushRule] is empty for a rule that is not there
  unfoldable pub label_values : List (ℤ × String) → PoolInfo → List String
  label_values roots pool =
      pool.name ∷ pool.profile ∷ Option.get_or (lookup pool.crush_rule roots) "" ∷ []

  unfoldable pub pools_reply : Conn → Option (List PoolInfo)
  unfolding decode_pool
  pools_reply conn = do
    buf ← conn.mon_command ceph_info_command
    unmarshal (slice zero_pool decode_pool) buf

  module _ (gv : GaugeVecs Value) where
    -- The vectors of the collector, by its fields.
    abbrev pub Vecs : Type 0
    Vecs = PoolGauge → gv.Vec

    -- The round of the loop for one pool.
    unfoldable pub set_pool : Conn → List (ℤ × String) → Vecs → PoolInfo → Vecs
    set_pool conn roots vecs pool g =
        let pool' = with_profile pool in
        gv.set (vecs g) (label_values roots pool') (gauge_value conn pool' g)

    unfoldable pub set_pools : Conn → List (ℤ × String) → Vecs → List PoolInfo → Vecs
    unfolding set_pool
    set_pools conn roots vecs [] = vecs
    set_pools conn roots vecs (pool ∷ pools) =
        set_pools conn roots (set_pool conn roots vecs pool) pools

    -- The vectors are reset once the reply is in order.
    unfoldable pub refresh : Conn → Vecs → Option (List PoolInfo) → Option Vecs
    unfolding set_pools
    refresh conn vecs none = none
    refresh conn vecs (some pools) =
        some (set_pools conn (get_crush_rule_to_root_mappings conn) (λ g. gv.reset (vecs g)) pools)

    -- collect: `none` is an error
    unfoldable pub collect : Conn → Vecs → Option Vecs
    unfolding refresh
    collect conn vecs = refresh conn vecs (pools_reply conn)

    -- NewPoolInfoCollector
    abbrev pub new_vecs : Vecs
    new_vecs g = gv.new

    -- What the vectors of collectorList send, at the end of Collect.
    unfoldable pub vec_metrics : Vecs → List (Metric Value)
    vec_metrics vecs = concat (map (λ g. metrics_of gv (desc g) gauge (vecs g)) collector_list)
