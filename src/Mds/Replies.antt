-- ===== src/Mds/Replies.antt =====
-- The replies that ceph/mds.go decodes: `mdsStat`, `healthDetailCheck`, `mdsStatus` and `mdsSlowOp`.
-- A field that the program does not use is read, since its type can make the decoding fail.
use ceph_exporter.Base.{String, false, Option, some, ◌>>=◌, List, [], ℤ, pos}
use ceph_exporter.Float.{Float64, of_count}
use ceph_exporter.Json.{
  Decoder, Fields, fields, get, string, boolean, int, uint, float64, slice, map_of,
}

abbrev text_field : String → Fields → Option String
text_field name fs = get name "" string fs

abbrev int_field : String → Fields → Option ℤ
int_field name fs = get name (pos 0) int fs

-- An entry of `info`, without its GID.
pub record Info : Type 0 where
  pub name : String
  pub rank : ℤ
  pub state : String

pub record MdsMap : Type 0 where
  pub fs_name : String
  pub info : List (String × Info)

abbrev zero_info : Info
zero_info = record { name = ""; rank = pos 0; state = "" }

abbrev zero_map : MdsMap
zero_map = record { fs_name = ""; info = [] }

unfoldable pub decode_info : Decoder Info
decode_info j = do
  fs ← fields j
  gid ← get "gid" 0 uint fs
  name ← text_field "name" fs
  rank ← int_field "rank" fs
  state ← text_field "state" fs
  some (record { name = name; rank = rank; state = state })

unfoldable pub decode_mds_map : Decoder MdsMap
unfolding decode_info
decode_mds_map j = do
  fs ← fields j
  fs_name ← text_field "fs_name" fs
  info ← get "info" [] (map_of zero_info decode_info) fs
  some (record { fs_name = fs_name; info = info })

unfoldable pub decode_filesystem : Decoder MdsMap
unfolding decode_mds_map
decode_filesystem j = do fs ← fields j; get "mdsmap" zero_map decode_mds_map fs

abbrev decode_fs_map : Decoder (List MdsMap)
unfolding decode_filesystem
decode_fs_map j = do fs ← fields j; get "filesystems" [] (slice zero_map decode_filesystem) fs

-- mdsStat, as the map of each filesystem
unfoldable pub decode_stat : Decoder (List MdsMap)
unfolding decode_fs_map
decode_stat j = do fs ← fields j; get "fsmap" [] decode_fs_map fs

abbrev decode_message : Decoder String
decode_message j = do fs ← fields j; text_field "message" fs

abbrev decode_summary : Decoder Unit
decode_summary j = do
  fs ← fields j
  message ← text_field "message" fs
  count ← int_field "count" fs
  some tt

-- A check, as the messages of its details.
unfoldable pub decode_check : Decoder (List String)
decode_check j = do
  fs ← fields j
  severity ← text_field "severity" fs
  summary ← get "summary" tt decode_summary fs
  detail ← get "detail" [] (slice "" decode_message) fs
  muted ← get "muted" false boolean fs
  some detail

-- healthDetailCheck
unfoldable pub decode_health_detail : Decoder (List (String × List String))
unfolding decode_check
decode_health_detail j = do
  fs ← fields j
  status ← text_field "status" fs
  get "checks" [] (map_of [] decode_check) fs

-- mdsStatus, of which two fields are used
pub record MdsStatus : Type 0 where
  pub state : String
  pub fs_name : String

abbrev decode_client : Decoder Unit
decode_client j = do
  fs ← fields j
  client ← text_field "client" fs
  tid ← int_field "tid" fs
  some tt

abbrev decode_event : Decoder Unit
decode_event j = do
  fs ← fields j
  time ← text_field "time" fs
  event ← text_field "event" fs
  some tt

pub record TypeData : Type 0 where
  pub flag_point : String
  pub op_type : String

abbrev zero_data : TypeData
zero_data = record { flag_point = ""; op_type = "" }

unfoldable pub decode_type_data : Decoder TypeData
decode_type_data j = do
  fs ← fields j
  flag_point ← text_field "flag_point" fs
  reqid ← text_field "reqid" fs
  op_type ← text_field "op_type" fs
  client_info ← get "client_info" tt decode_client fs
  events ← get "events" [] (slice tt decode_event) fs
  some (record { flag_point = flag_point; op_type = op_type })

-- An element of `ops` of mdsSlowOp, as far as it is used.
pub record Op : Type 0 where
  pub description : String
  pub type_data : TypeData

abbrev zero_op : Op
zero_op = record { description = ""; type_data = zero_data }

module _ (fl : Float64) where
  abbrev float_field : String → Fields → Option fl.Value
  float_field name fs = get name (of_count fl 0) (float64 fl) fs

  unfoldable pub decode_status : Decoder MdsStatus
  decode_status j = do
    fs ← fields j
    cluster_fsid ← text_field "cluster_fsid" fs
    whoami ← int_field "whoami" fs
    id ← int_field "id" fs
    want_state ← text_field "want_state" fs
    state ← text_field "state" fs
    fs_name ← text_field "fs_name" fs
    rank_uptime ← float_field "rank_uptime" fs
    mdsmap_epoch ← int_field "mdsmap_epoch" fs
    osdmap_epoch ← int_field "osdmap_epoch" fs
    osdmap_epoch_barrier ← int_field "osdmap_epoch_barrier" fs
    uptime ← float_field "uptime" fs
    some (record { state = state; fs_name = fs_name })

  unfoldable pub decode_op : Decoder Op
  unfolding decode_type_data
  decode_op j = do
    fs ← fields j
    mds_name ← text_field "MDSName" fs
    ceph_fs_op_type ← text_field "CephFSOpType" fs
    description ← text_field "description" fs
    initiated_at ← text_field "initiated_at" fs
    age ← float_field "age" fs
    duration ← float_field "duration" fs
    type_data ← get "type_data" zero_data decode_type_data fs
    some (record { description = description; type_data = type_data })

  unfoldable pub decode_slow_ops : Decoder (List Op)
  unfolding decode_op
  decode_slow_ops j = do
    fs ← fields j
    ops ← get "ops" [] (slice zero_op decode_op) fs
    complaint_time ← int_field "complaint_time" fs
    num_blocked_ops ← int_field "num_blocked_ops" fs
    some ops
