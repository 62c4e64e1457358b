-- ===== src/Osd/Decoders.antt =====
-- How encoding/json reads the replies of ceph/osd.go: the decoders of the structs, with the zero of
-- each. A json.Number is the text of a number.
use ceph_exporter.Base.{String, Option, some, ◌>>=◌, List, [], ◌++◌, pos, length}
use ceph_exporter.Float.{Float64, of_count}
use ceph_exporter.Json.{Decoder, Fields, fields, get, string, int, float64, number, slice}
use ceph_exporter.Osd.Labels.{TreeNode}
use ceph_exporter.Osd.Scrub.{PgStat}
use ceph_exporter.Osd.Replies.{
  DfNode, DfSummary, Df, PerfStat, DumpInfo, Dump, OsdNode, OsdMetadata,
}

abbrev text_field : String → Fields → Option String
text_field name fs = get name "" string fs

abbrev zero_node : OsdNode
zero_node = record { id = pos 0; name = ""; type = ""; status = "" }

unfoldable pub decode_node : Decoder OsdNode
decode_node j = do
  fs ← fields j
  id ← get "id" (pos 0) int fs
  name ← text_field "name" fs
  type ← text_field "type" fs
  status ← text_field "status" fs
  some (record { id = id; name = name; type = type; status = status })

-- cephOSDTreeDown, as the nodes with the stray ones behind them
unfoldable pub decode_tree_down : Decoder (List OsdNode)
unfolding decode_node
decode_tree_down j = do
  fs ← fields j
  nodes ← get "nodes" [] (slice zero_node decode_node) fs
  stray ← get "stray" [] (slice zero_node decode_node) fs
  some (nodes ++ stray)

abbrev zero_metadata : OsdMetadata
zero_metadata = record {
  id = pos 0;
  ceph_version_when_created = "";
  created_at = "";
  osd_objectstore = "";
}

unfoldable pub decode_metadata : Decoder OsdMetadata
decode_metadata j = do
  fs ← fields j
  id ← get "id" (pos 0) int fs
  version ← text_field "ceph_version_when_created" fs
  created_at ← text_field "created_at" fs
  objectstore ← text_field "osd_objectstore" fs
  some (record {
    id = id;
    ceph_version_when_created = version;
    created_at = created_at;
    osd_objectstore = objectstore;
  })

unfoldable pub decode_metadata_list : Decoder (List OsdMetadata)
unfolding decode_metadata
decode_metadata_list j = slice zero_metadata decode_metadata j

abbrev zero_pg : PgStat
zero_pg = record { pgid = ""; acting_primary = pos 0; acting = []; state = "" }

unfoldable pub decode_pg : Decoder PgStat
decode_pg j = do
  fs ← fields j
  pgid ← text_field "pgid" fs
  acting_primary ← get "acting_primary" (pos 0) int fs
  acting ← get "acting" [] (slice (pos 0) int) fs
  state ← text_field "state" fs
  some (record { pgid = pgid; acting_primary = acting_primary; acting = acting; state = state })

-- cephPGDumpBrief
unfoldable pub decode_pg_dump : Decoder (List PgStat)
unfolding decode_pg
decode_pg_dump j = do fs ← fields j; get "pg_stats" [] (slice zero_pg decode_pg) fs

abbrev decode_mapping : Decoder Unit
decode_mapping j = do
  fs ← fields j
  from ← get "from" (pos 0) int fs
  to ← get "to" (pos 0) int fs
  some tt

abbrev decode_upmap_item : Decoder Unit
decode_upmap_item j = do
  fs ← fields j
  pgid ← text_field "pgid" fs
  mappings ← get "mappings" [] (slice tt decode_mapping) fs
  some tt

module _ (fl : Float64) where
  abbrev number_field : String → Fields → Option String
  number_field name fs = get name "" (number fl) fs

  abbrev zero_df_node : DfNode
  zero_df_node = record {
    name = "";
    crush_weight = "";
    depth = "";
    reweight = "";
    kb = "";
    used_kb = "";
    avail_kb = "";
    utilization = "";
    variance = "";
    pgs = "";
  }

  unfoldable pub decode_df_node : Decoder DfNode
  decode_df_node j = do
    fs ← fields j
    name ← text_field "name" fs
    crush_weight ← number_field "crush_weight" fs
    depth ← number_field "depth" fs
    reweight ← number_field "reweight" fs
    kb ← number_field "kb" fs
    used_kb ← number_field "kb_used" fs
    avail_kb ← number_field "kb_avail" fs
    utilization ← number_field "utilization" fs
    variance ← number_field "var" fs
    pgs ← number_field "pgs" fs
    some (record {
      name = name;
      crush_weight = crush_weight;
      depth = depth;
      reweight = reweight;
      kb = kb;
      used_kb = used_kb;
      avail_kb = avail_kb;
      utilization = utilization;
      variance = variance;
      pgs = pgs;
    })

  abbrev zero_summary : DfSummary
  zero_summary = record {
    total_kb = "";
    total_used_kb = "";
    total_avail_kb = "";
    average_util = "";
  }

  unfoldable pub decode_summary : Decoder DfSummary
  decode_summary j = do
    fs ← fields j
    total_kb ← number_field "total_kb" fs
    total_used_kb ← number_field "total_kb_used" fs
    total_avail_kb ← number_field "total_kb_avail" fs
    average_util ← number_field "average_utilization" fs
    some (record {
      total_kb = total_kb;
      total_used_kb = total_used_kb;
      total_avail_kb = total_avail_kb;
      average_util = average_util;
    })

  -- cephOSDDF
  unfoldable pub decode_df : Decoder Df
  unfolding decode_df_node decode_summary
  decode_df j = do
    fs ← fields j
    nodes ← get "nodes" [] (slice zero_df_node decode_df_node) fs
    summary ← get "summary" zero_summary decode_summary fs
    some (record { nodes = nodes; summary = summary })

  abbrev decode_latencies : Decoder (String × String)
  decode_latencies j = do
    fs ← fields j
    commit ← number_field "commit_latency_ms" fs
    apply ← number_field "apply_latency_ms" fs
    some (commit, apply)

  abbrev zero_stat : PerfStat
  zero_stat = record { id = ""; commit_latency = ""; apply_latency = "" }

  unfoldable pub decode_perf_stat : Decoder PerfStat
  decode_perf_stat j = do
    fs ← fields j
    id ← number_field "id" fs
    (commit, apply) ← get "perf_stats" ("", "") decode_latencies fs
    some (record { id = id; commit_latency = commit; apply_latency = apply })

  abbrev decode_perf_infos : Decoder (List PerfStat)
  unfolding decode_perf_stat
  decode_perf_infos j = do
    fs ← fields j
    get "osd_perf_infos" [] (slice zero_stat decode_perf_stat) fs

  -- CephOSDPerfStat
  unfoldable pub decode_perf : Decoder (List PerfStat)
  unfolding decode_perf_infos
  decode_perf j = do fs ← fields j; get "osdstats" [] decode_perf_infos fs

  abbrev zero_info : DumpInfo
  zero_info = record { osd = ""; up = ""; is_in = ""; state = [] }

  unfoldable pub decode_dump_info : Decoder DumpInfo
  decode_dump_info j = do
    fs ← fields j
    osd ← number_field "osd" fs
    up ← number_field "up" fs
    is_in ← number_field "in" fs
    state ← get "state" [] (slice "" string) fs
    some (record { osd = osd; up = up; is_in = is_in; state = state })

  -- cephOSDDump
  unfoldable pub decode_dump : Decoder Dump
  unfolding decode_dump_info
  decode_dump j = do
    fs ← fields j
    osds ← get "osds" [] (slice zero_info decode_dump_info) fs
    items ← get "pg_upmap_items" [] (slice tt decode_upmap_item) fs
    full_ratio ← number_field "full_ratio" fs
    near_full_ratio ← number_field "nearfull_ratio" fs
    backfill_full_ratio ← number_field "backfillfull_ratio" fs
    some (record {
      osds = osds;
      upmap_items = length items;
      full_ratio = full_ratio;
      near_full_ratio = near_full_ratio;
      backfill_full_ratio = backfill_full_ratio;
    })

  abbrev zero_tree_node : TreeNode fl.Value
  zero_tree_node = record {
    id = pos 0;
    name = "";
    type = "";
    status = "";
    device_class = "";
    crush_weight = of_count fl 0;
    children = [];
  }

  unfoldable pub decode_tree_node : Decoder (TreeNode fl.Value)
  decode_tree_node j = do
    fs ← fields j
    id ← get "id" (pos 0) int fs
    name ← text_field "name" fs
    type ← text_field "type" fs
    status ← text_field "status" fs
    device_class ← text_field "device_class" fs
    crush_weight ← get "crush_weight" (of_count fl 0) (float64 fl) fs
    children ← get "children" [] (slice (pos 0) int) fs
    some (record {
      id = id;
      name = name;
      type = type;
      status = status;
      device_class = device_class;
      crush_weight = crush_weight;
      children = children;
    })

  -- A stray node, which is read and not used; it has no device class.
  abbrev decode_stray : Decoder Unit
  decode_stray j = do
    fs ← fields j
    id ← get "id" (pos 0) int fs
    name ← text_field "name" fs
    type ← text_field "type" fs
    status ← text_field "status" fs
    crush_weight ← get "crush_weight" (of_count fl 0) (float64 fl) fs
    children ← get "children" [] (slice (pos 0) int) fs
    some tt

  -- cephOSDTree
  unfoldable pub decode_tree : Decoder (List (TreeNode fl.Value))
  unfolding decode_tree_node
  decode_tree j = do
    fs ← fields j
    nodes ← get "nodes" [] (slice zero_tree_node decode_tree_node) fs
    stray ← get "stray" [] (slice tt decode_stray) fs
    some nodes
