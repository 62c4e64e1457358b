-- ===== src/Scenarios/Quorum.antt =====
-- The theorem on the monitors, at a cluster with two monitors and two kinds of daemons.
use ceph_exporter.Base.{
  ℕ, String, ◌≡◌, refl, true, none, some, List, [], ◌∷◌, lookup, string_eq, strings_eq, pos, insert,
}
use ceph_exporter.Float.{parse}
use ceph_exporter.Json.{
  Json, Fields, Items, end, field, nil, cons, obj, arr, str, num, get, items, read_map,
}
use ceph_exporter.Conn.{Conn}
use ceph_exporter.Version.Decimal.{atoi}
use ceph_exporter.Exporter.Versions.{children, not_obj}
use ceph_exporter.Monitors.Commands.{GabsArrays, elements, not_obj_or_array, Replies, replies}
use ceph_exporter.Monitors.{MonitorCollector, collect}
use ceph_exporter.Monitors.Laws.{are_read, ShowsReplies, collect-ShowsReplies}
use ceph_exporter.Scenarios.{whole, vectors, object, array, cluster}

abbrev list_of : Items → List Json
list_of nil = []
list_of (cons j rest) = j ∷ list_of rest

abbrev pairs_of : Fields → List (String × Json)
pairs_of end = []
pairs_of (field k j rest) = (k, j) ∷ pairs_of rest

-- Containers that are the values themselves.
abbrev pub arrays : GabsArrays ℕ
arrays = record {
  gabs = record {
    Container = Json;
    parse_json = λ buf. buf;
    children_map = λ j. elim j [ obj fs ↦ children (pairs_of fs) | _ ↦ not_obj ];
    data_float = λ j. elim j [ num s ↦ parse whole s | _ ↦ none ];
  };
  elements_of = λ j. elim j [ arr xs ↦ elements (list_of xs) | _ ↦ not_obj_or_array ];
  bytes = λ j. some j;
}

abbrev check : String → String → Json
check skew latency =
    object (("health", str "HEALTH_OK") ∷ ("skew", num skew) ∷ ("latency", num latency) ∷ [])

abbrev version_name : String
version_name =
    "ceph version 16.2.11-98-g1984a8c (1984a8c33225d70559cdf27dbab81e3ce153f6ac) pacific (stable)"

abbrev elected : Conn
elected = cluster (
    ("status", object (("quorum", array (num "0" ∷ num "1" ∷ [])) ∷ []))
    ∷ (
      "time-sync-status",
      object (("time_skew_status", object (("a", check "0" "0") ∷ ("b", check "1" "3") ∷ [])) ∷ []),
    )
    ∷ (
      "versions",
      object (
          ("mon", object ((version_name, num "2") ∷ []))
          ∷ ("osd", object (("old", num "5") ∷ []))
          ∷ []),
    )
    ∷ (
      "features",
      object (
          (
            "client",
            array (
                object
                  (("features", str "0x3f01") ∷ ("release", str "luminous") ∷ ("num", num "4") ∷ [])
                ∷ []),
          )
          ∷ []),
    )
    ∷ [])

abbrev answers : Replies whole arrays
answers = record {
  quorum = pos 0 ∷ pos 1 ∷ [];
  time_checks =
      ("a", record { latency = "0"; skew = "0" })
      ∷ ("b", record { latency = "3"; skew = "1" })
      ∷ [];
  versions = ("mon", (version_name, 2) ∷ []) ∷ ("osd", ("old", 5) ∷ []) ∷ [];
  features =
      ("client", record { features = "0x3f01"; release = "luminous"; num = pos 4 } ∷ []) ∷ [];
}

-- A vector with a monitor that has left.
abbrev gone : MonitorCollector whole arrays vectors
gone = record {
  clock_skew = ("c" ∷ [], 9) ∷ [];
  latency = [];
  nodesin_quorum = 3;
  ceph_versions = [];
  ceph_features = [];
}

replies-elected : replies whole arrays elected ≡ some answers
unfolding replies lookup get items atoi read_map insert
replies-elected = refl

collect-ShowsReplies_example :
    ((collect whole arrays vectors elected gone).1 ≡ true)
    × ShowsReplies whole arrays vectors answers (collect whole arrays vectors elected gone).0
unfolding are_read atoi
collect-ShowsReplies_example =
    collect-ShowsReplies whole arrays vectors elected gone answers replies-elected refl
