-- ===== src/Mds.antt =====
-- ceph/mds.go: the states and the blocked operations of the metadata servers.
pub mod Descs
pub mod Operations
pub mod Replies
pub mod Laws
pub mod Counts
pub mod Bounds
use ceph_exporter.Base.{
  ℕ, suc, ◌-◌, ◌^◌, ◌%◌, String, Bool, true, false, Option, none, some, ◌>>=◌, List, [], ◌∷◌, ◌++◌,
  map, length, ℤ, pos, negsuc, ltb, Text, codes, string_of, split, string_beq, lookup, insert,
  strings_eq, string_eq, if◌then◌else◌,
}
use ceph_exporter.Float.{Float64, of_count}
use ceph_exporter.Prometheus.{Desc, Metric, gauge, counter}
use ceph_exporter.Json.{Buffer, unmarshal}
use ceph_exporter.Version.Decimal.{print_int}
use Descs.{mds_state, mds_blocked_ops}
use Operations.{OpDesc, extract_op_from_description}
use Replies.{
  Info, MdsMap, MdsStatus, TypeData, Op, decode_stat, decode_health_detail, decode_status,
  decode_slow_ops,
}

-- The four commands, if they succeed; the latter two for a server.
pub record Commands : Type 0 where
  pub mds_stat : Option Buffer
  pub health_detail : Option Buffer
  pub mds_status : String → Option Buffer
  pub blocked_ops : String → Option Buffer

-- The capacity of the channel.
abbrev pub capacity : ℕ
capacity = 100

pub record MdsLabels : Type 0 where
  pub fs_name : String
  pub mds_name : String
  pub state : String
  pub op_type : String
  pub fs_op_type : String
  pub flag_point : String
  pub inode : String

-- Hash, by which the labels are told apart, in the order of the label values.
abbrev pub hash : MdsLabels → List String
hash l = l.fs_name ∷ l.mds_name ∷ l.state ∷ l.op_type ∷ l.fs_op_type ∷ l.flag_point ∷ l.inode ∷ []

-- The name of a server in the message of a detail: what stands before the only `(`.
abbrev pub name_in : List Text → Option String
name_in (name ∷ rest ∷ []) = some (string_of name)
name_in _ = none

unfoldable pub server_of : String → Option String
unfolding split
server_of message = name_in (split b'(' (codes message))

-- The type of operation and the inode; only the requests of clients have them.
-- Describe, which leaves out the blocked operations.
abbrev pub descriptors : List Desc
descriptors = mds_state ∷ []

abbrev pub described : Option OpDesc → Option (String × String)
described none = none
described (some d) = some (string_of d.fs_op_type, string_of d.inode)

unfoldable pub labels_of : String → MdsStatus → Op → Option (List String)
unfolding extract_op_from_description
labels_of mds status op = do
  (fs_op_type, inode) ←
      if string_beq op.type_data.op_type "client_request"
      then described (extract_op_from_description (codes op.description))
      else some ("", "")
  some (
      hash (record {
        fs_name = status.fs_name;
        mds_name = mds;
        state = status.state;
        op_type = op.type_data.op_type;
        fs_op_type = fs_op_type;
        flag_point = op.type_data.flag_point;
        inode = inode;
      }))

abbrev pub or_zero : Option ℕ → ℕ
or_zero none = 0
or_zero (some n) = n

abbrev pub count_one : Option (List String) → List (List String × ℕ) → List (List String × ℕ)
count_one none m = m
count_one (some ls) m = insert ls (suc (or_zero (lookup ls m))) m

-- The loop over the operations; one whose description is not understood is left out.
unfoldable pub count_ops :
    String → MdsStatus → List Op → List (List String × ℕ) → List (List String × ℕ)
unfolding labels_of
count_ops mds status [] m = m
count_ops mds status (op ∷ ops) m = count_ops mds status ops (count_one (labels_of mds status op) m)

-- The value of an int32 that was increased so many times.
abbrev pub int32 : ℕ → ℤ
int32 n = if ltb (n % 2 ^ 32) (2 ^ 31) then pos (n % 2 ^ 32) else negsuc (2 ^ 32 - 1 - n % 2 ^ 32)

-- The reply of the first command: the map of each filesystem.
unfoldable pub stat_reply : Commands → Option (List MdsMap)
unfolding decode_stat
stat_reply cmds = do reply ← cmds.mds_stat; unmarshal decode_stat reply

-- The details of the slow requests; none where the command or the reply is at fault.
unfoldable pub slow_requests : Commands → List String
unfolding decode_health_detail
slow_requests cmds =
    elim (do
      reply ← cmds.health_detail
      checks ← unmarshal decode_health_detail reply
      lookup "MDS_SLOW_REQUEST" checks) [ none ↦ [] | some details ↦ details ]

module _ (fl : Float64) where
  open fl use {Value, of_int}

  -- The select with a default: a full channel drops the metric.
  unfoldable pub offer : Metric Value → List (Metric Value) → List (Metric Value)
  offer m ch = if ltb (length ch) capacity then ch ++ m ∷ [] else ch

  unfoldable pub offer_all : List (Metric Value) → List (Metric Value) → List (Metric Value)
  unfolding offer
  offer_all [] ch = ch
  offer_all (m ∷ ms) ch = offer_all ms (offer m ch)

  abbrev pub state_metric : String → String × Info → Metric Value
  state_metric fs_name (key, info) = record {
    desc = mds_state;
    kind = gauge;
    value = of_count fl 1;
    labels = fs_name ∷ info.name ∷ string_of (print_int info.rank) ∷ info.state ∷ [];
  }

  unfoldable pub state_metrics : List MdsMap → List (Metric Value)
  unfolding print_int
  state_metrics [] = []
  state_metrics (fs ∷ rest) = map (state_metric fs.fs_name) fs.info ++ state_metrics rest

  abbrev pub op_metric : List String × ℕ → Metric Value
  op_metric (labels, n) = record {
    desc = mds_blocked_ops;
    kind = counter;
    value = of_int (int32 n);
    labels = labels;
  }

  -- The replies of one server, if its two commands are in order.
  unfoldable pub server_reply : Commands → String → Option (MdsStatus × List Op)
  unfolding decode_status decode_slow_ops
  server_reply cmds mds = do
    reply ← cmds.mds_status mds
    status ← unmarshal (decode_status fl) reply
    blocked ← cmds.blocked_ops mds
    ops ← unmarshal (decode_slow_ops fl) blocked
    some (status, ops)

  unfoldable pub op_metrics : Commands → String → Option (List (Metric Value))
  unfolding server_reply count_ops
  op_metrics cmds mds = do
    (status, ops) ← server_reply cmds mds
    some (map op_metric (count_ops mds status ops []))

  -- The loop over the details: a message without one `(` is passed over, an error ends the loop.
  unfoldable pub collect_details :
      Commands → List String → List (Metric Value) → List (Metric Value)
  unfolding server_of op_metrics offer_all
  collect_details cmds [] ch = ch
  collect_details cmds (message ∷ rest) ch = elim (server_of message) [
    | none ↦ collect_details cmds rest ch
    | some mds ↦ elim (op_metrics cmds mds) [
      | none ↦ ch
      | some ms ↦ collect_details cmds rest (offer_all ms ch)
    ]
  ]

  -- collectMDSSlowOps
  unfoldable pub collect_mds_slow_ops : Commands → List (Metric Value) → List (Metric Value)
  unfolding slow_requests collect_details
  collect_mds_slow_ops cmds ch = collect_details cmds (slow_requests cmds) ch

  -- collect, on what is in the channel; an error in its own command ends it.
  unfoldable pub refresh : Commands → List (Metric Value) → List (Metric Value)
  unfolding stat_reply state_metrics collect_mds_slow_ops
  refresh cmds ch = elim (stat_reply cmds) [
    | none ↦ ch
    | some maps ↦ collect_mds_slow_ops cmds (offer_all (state_metrics maps) ch)
  ]

  -- The collector, with the number of goroutines that it has started.
  pub record MdsCollector : Type 0 where
    pub background : Bool
    pub ch : List (Metric Value)
    pub goroutines : ℕ

  -- One round of backgroundCollect.
  unfoldable pub background_round : Commands → MdsCollector → MdsCollector
  unfolding refresh
  background_round cmds m = record m { ch = refresh cmds m.ch }

  -- Collect: what it sends is all that the channel holds.
  unfoldable pub collect : Commands → MdsCollector → MdsCollector × List (Metric Value)
  unfolding refresh
  collect cmds m =
      if m.background
      then (record m { ch = []; goroutines = suc m.goroutines }, m.ch)
      else (record m { ch = [] }, refresh cmds m.ch)
