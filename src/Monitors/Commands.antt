-- ===== src/Monitors/Commands.antt =====
-- The commands of ceph/monitors.go and what they reply.
use ceph_exporter.Base.{
  String, Option, none, some, ◌>>=◌, List, [], ◌∷◌, ◌++◌, ℤ, pos, insert, lookup, string_eq,
}
use ceph_exporter.Float.{Float64}
use ceph_exporter.Json.{Buffer, Decoder, fields, get, string, int, number, slice, map_of, unmarshal}
use ceph_exporter.Conn.{Conn, Command, word}
use ceph_exporter.Exporter.Versions.{
  Gabs, Children, children, not_obj, other_error, ceph_versions_command, parse_ceph_versions,
}

-- A check of the time of a monitor: the texts of two numbers.
pub record TimeCheck : Type 0 where
  pub latency : String
  pub skew : String

pub record FeatureGroup : Type 0 where
  pub features : String
  pub release : String
  pub num : ℤ

abbrev zero_check : TimeCheck
zero_check = record { latency = ""; skew = "" }

unfoldable pub decode_group : Decoder FeatureGroup
decode_group j = do
  fs ← fields j
  features ← get "features" "" string fs
  release ← get "release" "" string fs
  num ← get "num" (pos 0) int fs
  some (record { features = features; release = release; num = num })

-- cephMonitorStats
unfoldable pub decode_stats : Decoder (List ℤ)
decode_stats j = do fs ← fields j; get "quorum" [] (slice (pos 0) int) fs

abbrev pub usage_command : Command
usage_command = ("prefix", word "status") ∷ ("format", word "json") ∷ []

abbrev pub time_sync_status_command : Command
time_sync_status_command = ("prefix", word "time-sync-status") ∷ ("format", word "json") ∷ []

abbrev pub features_command : Command
features_command = ("prefix", word "features") ∷ ("format", word "json") ∷ []

-- What gabs is asked beside: the elements of a container, and its bytes.
pub data Elements (C : Type 0) : Type 0 where
  elements : List C → Elements C
  not_obj_or_array : Elements C
  failure : Elements C

pub record GabsArrays (V : Type 0) : Type 1 where
  pub gabs : Gabs V
  pub elements_of : gabs.Container → Elements gabs.Container
  pub bytes : gabs.Container → Buffer

-- features[daemonKey] = append(features[daemonKey], featureGroup)
abbrev groups_of : Option (List FeatureGroup) → List FeatureGroup
groups_of none = []
groups_of (some gs) = gs

abbrev pub Features : Type 0
Features = List (String × List FeatureGroup)

abbrev pub append_group : String → FeatureGroup → Features → Features
append_group daemon g m = insert daemon (groups_of (lookup daemon m) ++ g ∷ []) m

module _ (fl : Float64) (ga : GabsArrays fl.Value) where
  open fl use {Value, of_int}
  open ga use {gabs, elements_of, bytes}

  unfoldable pub decode_time_check : Decoder TimeCheck
  decode_time_check j = do
    fs ← fields j
    health ← get "health" "" string fs
    latency ← get "latency" "" (number fl) fs
    skew ← get "skew" "" (number fl) fs
    some (record { latency = latency; skew = skew })

  -- cephTimeSyncStatus
  unfoldable pub decode_time_stats : Decoder (List (String × TimeCheck))
  unfolding decode_time_check
  decode_time_stats j = do
    fs ← fields j
    get "time_skew_status" [] (map_of zero_check decode_time_check) fs

  -- The groups of one daemon; what is not an object is passed over.
  unfoldable pub read_groups : String → List gabs.Container → Features → Option Features
  unfolding decode_group
  read_groups daemon [] m = some m
  read_groups daemon (c ∷ rest) m = elim (gabs.children_map c) [
    | not_obj ↦ read_groups daemon rest m
    | children cs ↦ (do
      g ← unmarshal decode_group (bytes c)
      read_groups daemon rest (append_group daemon g m))
    | other_error ↦ (do
      g ← unmarshal decode_group (bytes c)
      read_groups daemon rest (append_group daemon g m))
  ]

  unfoldable pub read_features : List (String × gabs.Container) → Features → Option Features
  unfolding read_groups
  read_features [] m = some m
  read_features ((daemon, c) ∷ rest) m = elim (elements_of c) [
    | elements cs ↦ (do m' ← read_groups daemon cs m; read_features rest m')
    | not_obj_or_array ↦ read_features rest m
    | failure ↦ none
  ]

  abbrev daemons_of : Children gabs.Container → Option (List (String × gabs.Container))
  daemons_of (children cs) = some cs
  daemons_of _ = none

  -- What the four commands return, once all have returned.
  pub record Replies : Type 0 where
    pub quorum : List ℤ
    pub time_checks : List (String × TimeCheck)
    pub versions : List (String × List (String × Value))
    pub features : Features

  unfoldable pub replies : Conn → Option Replies
  unfolding decode_stats decode_time_stats parse_ceph_versions read_features
  replies conn = do
    usage ← conn.mon_command usage_command
    quorum ← unmarshal decode_stats usage
    time ← conn.mon_command time_sync_status_command
    time_checks ← unmarshal decode_time_stats time
    vs ← conn.mon_command ceph_versions_command
    versions ← parse_ceph_versions gabs vs
    buf ← conn.mon_command features_command
    parsed ← gabs.parse_json buf
    daemons ← daemons_of (gabs.children_map parsed)
    features ← read_features daemons []
    some (record {
      quorum = quorum;
      time_checks = time_checks;
      versions = versions;
      features = features;
    })
