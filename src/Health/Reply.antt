-- ===== src/Health/Reply.antt =====
-- cephHealthStats of ceph/health.go: the reply of `ceph status`.
use ceph_exporter.Base.{
  String, Bool, true, false, Option, none, some, ◌>>=◌, List, [], string_eq, ℤ, pos,
}
use ceph_exporter.Float.{Float64, parse}
use ceph_exporter.Json.{
  Json, null, num, arr, obj, Items, nil, cons, Fields, end, field, Decoder, fields, get, string,
  boolean, int, float64, slice, map_of, raw,
}
use ceph_exporter.Health.States.{PgsByState}

module _ (fl : Float64) where
  open fl use {Value, of_int}

  abbrev in_float : String → Bool
  in_float s = elim (parse fl s) [ none ↦ false | some x ↦ true ]

  abbrev mutual
    in_floats : Json → Bool
    in_floats (num s) = in_float s
    in_floats (arr js) = items_in_floats js
    in_floats (obj fs) = fields_in_floats fs
    in_floats _ = true

    items_in_floats : Items → Bool
    items_in_floats nil = true
    items_in_floats (cons j js) = elim (in_floats j) [ true ↦ items_in_floats js | false ↦ false ]

    fields_in_floats : Fields → Bool
    fields_in_floats end = true
    fields_in_floats (field k j fs) = elim (in_floats j) [
      | true ↦ fields_in_floats fs
      | false ↦ false
    ]

  -- An `interface{}`: any value, in which each number must be a float64.
  abbrev any_value : Decoder Json
  any_value j = elim (in_floats j) [ true ↦ some j | false ↦ none ]

  -- map[string]interface{}, where null and a missing key are the nil map.
  abbrev any_map : Decoder (Option (List (String × Json)))
  any_map null = some none
  any_map j = do m ← map_of null any_value j; some (some m)

  pub record PgMap : Type 0 where
    pub num_pgs : Value
    pub total_objects : Value
    pub write_op_per_sec : Value
    pub read_op_per_sec : Value
    pub write_byte_per_sec : Value
    pub read_byte_per_sec : Value
    pub recovering_objects_per_sec : Value
    pub recovering_byte_per_sec : Value
    pub recovering_keys_per_sec : Value
    pub cache_flush_byte_per_sec : Value
    pub cache_evict_byte_per_sec : Value
    pub cache_promote_op_per_sec : Value
    pub degraded_objects : Value
    pub misplaced_objects : Value
    pub misplaced_ratio : Value
    pub pgs_by_state : List (PgsByState fl)

  pub record MgrMap : Type 0 where
    pub available : Bool
    pub num_standbys : ℤ
    pub active_name : String
    pub standbys : List String

  pub record HealthStats : Type 0 where
    pub summaries : List String
    pub status : String
    pub checks : List (String × String)
    pub osd_map : Option (List (String × Json))
    pub pg_map : PgMap
    pub mgr_map : MgrMap
    pub mirror_daemons : List (String × Json)

  abbrev zero_value : Value
  zero_value = of_int (pos 0)

  abbrev number : String → Fields → Option Value
  number name fs = get name zero_value (float64 fl) fs

  abbrev zero_pgs : PgsByState fl
  zero_pgs = record { count = zero_value; states = "" }

  unfoldable pub decode_pgs : Decoder (PgsByState fl)
  decode_pgs j = do
    fs ← fields j
    count ← number "count" fs
    states ← get "state_name" "" string fs
    some (record { count = count; states = states })

  unfoldable pub decode_pg_map : Decoder PgMap
  unfolding decode_pgs
  decode_pg_map j = do
    fs ← fields j
    num_pgs ← number "num_pgs" fs
    total_objects ← number "num_objects" fs
    write_op_per_sec ← number "write_op_per_sec" fs
    read_op_per_sec ← number "read_op_per_sec" fs
    write_byte_per_sec ← number "write_bytes_sec" fs
    read_byte_per_sec ← number "read_bytes_sec" fs
    recovering_objects_per_sec ← number "recovering_objects_per_sec" fs
    recovering_byte_per_sec ← number "recovering_bytes_per_sec" fs
    recovering_keys_per_sec ← number "recovering_keys_per_sec" fs
    cache_flush_byte_per_sec ← number "flush_bytes_sec" fs
    cache_evict_byte_per_sec ← number "evict_bytes_sec" fs
    cache_promote_op_per_sec ← number "promote_op_per_sec" fs
    degraded_objects ← number "degraded_objects" fs
    misplaced_objects ← number "misplaced_objects" fs
    misplaced_ratio ← number "misplaced_ratio" fs
    pgs_by_state ← get "pgs_by_state" [] (slice zero_pgs decode_pgs) fs
    some (record {
      num_pgs = num_pgs;
      total_objects = total_objects;
      write_op_per_sec = write_op_per_sec;
      read_op_per_sec = read_op_per_sec;
      write_byte_per_sec = write_byte_per_sec;
      read_byte_per_sec = read_byte_per_sec;
      recovering_objects_per_sec = recovering_objects_per_sec;
      recovering_byte_per_sec = recovering_byte_per_sec;
      recovering_keys_per_sec = recovering_keys_per_sec;
      cache_flush_byte_per_sec = cache_flush_byte_per_sec;
      cache_evict_byte_per_sec = cache_evict_byte_per_sec;
      cache_promote_op_per_sec = cache_promote_op_per_sec;
      degraded_objects = degraded_objects;
      misplaced_objects = misplaced_objects;
      misplaced_ratio = misplaced_ratio;
      pgs_by_state = pgs_by_state;
    })

  abbrev pub zero_pg_map : PgMap
  zero_pg_map = record {
    num_pgs = zero_value;
    total_objects = zero_value;
    write_op_per_sec = zero_value;
    read_op_per_sec = zero_value;
    write_byte_per_sec = zero_value;
    read_byte_per_sec = zero_value;
    recovering_objects_per_sec = zero_value;
    recovering_byte_per_sec = zero_value;
    recovering_keys_per_sec = zero_value;
    cache_flush_byte_per_sec = zero_value;
    cache_evict_byte_per_sec = zero_value;
    cache_promote_op_per_sec = zero_value;
    degraded_objects = zero_value;
    misplaced_objects = zero_value;
    misplaced_ratio = zero_value;
    pgs_by_state = [];
  }

  abbrev decode_standby : Decoder String
  decode_standby j = do fs ← fields j; get "name" "" string fs

  unfoldable pub decode_mgr_map : Decoder MgrMap
  decode_mgr_map j = do
    fs ← fields j
    available ← get "available" false boolean fs
    num_standbys ← get "num_standbys" (pos 0) int fs
    active_name ← get "active_name" "" string fs
    standbys ← get "standbys" [] (slice "" decode_standby) fs
    some (record {
      available = available;
      num_standbys = num_standbys;
      active_name = active_name;
      standbys = standbys;
    })

  abbrev pub zero_mgr_map : MgrMap
  zero_mgr_map = record { available = false; num_standbys = pos 0; active_name = ""; standbys = [] }

  -- A summary: its severity is read and not used.
  abbrev decode_summary : Decoder String
  decode_summary j = do
    fs ← fields j
    severity ← get "severity" "" string fs
    get "summary" "" string fs

  abbrev decode_message : Decoder String
  decode_message j = do fs ← fields j; get "message" "" string fs

  -- A check, by its message: its severity is read and not used.
  abbrev decode_check : Decoder String
  decode_check j = do
    fs ← fields j
    severity ← get "severity" "" string fs
    get "summary" "" decode_message fs

  pub record Health : Type 0 where
    pub summaries : List String
    pub status : String
    pub checks : List (String × String)

  unfoldable pub decode_health : Decoder Health
  decode_health j = do
    fs ← fields j
    summaries ← get "summary" [] (slice "" decode_summary) fs
    status ← get "status" "" string fs
    checks ← get "checks" [] (map_of "" decode_check) fs
    some (record { summaries = summaries; status = status; checks = checks })

  abbrev zero_health : Health
  zero_health = record { summaries = []; status = ""; checks = [] }

  -- servicemap.services.rbd-mirror.daemons
  abbrev decode_mirror : Decoder (List (String × Json))
  decode_mirror j = do fs ← fields j; get "daemons" [] (map_of null raw) fs

  abbrev decode_services : Decoder (List (String × Json))
  decode_services j = do fs ← fields j; get "rbd-mirror" [] decode_mirror fs

  abbrev decode_service_map : Decoder (List (String × Json))
  decode_service_map j = do fs ← fields j; get "services" [] decode_services fs

  unfoldable pub decode_stats : Decoder HealthStats
  unfolding decode_health decode_pg_map decode_mgr_map
  decode_stats j = do
    fs ← fields j
    health ← get "health" zero_health decode_health fs
    osd_map ← get "osdmap" none any_map fs
    pg_map ← get "pgmap" zero_pg_map decode_pg_map fs
    mgr_map ← get "mgrmap" zero_mgr_map decode_mgr_map fs
    mirror_daemons ← get "servicemap" [] decode_service_map fs
    some (record {
      summaries = health.summaries;
      status = health.status;
      checks = health.checks;
      osd_map = osd_map;
      pg_map = pg_map;
      mgr_map = mgr_map;
      mirror_daemons = mirror_daemons;
    })
