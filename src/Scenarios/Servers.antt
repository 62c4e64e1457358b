-- ===== src/Scenarios/Servers.antt =====
-- The theorems on metadata servers, at one with two blocked requests, one of which has a number of
-- one digit.
use mathlib.Core.Option
use ceph_exporter.Base.{
  String, ◌≡◌, refl, false, none, some, List, [], ◌∷◌, ◌++◌, string_eq, strings_eq, codes, arith,
}
use ceph_exporter.Json.{Json, str, num, get, items}
use ceph_exporter.Prometheus.{series}
use ceph_exporter.Mds.Replies.{MdsStatus, Op}
use ceph_exporter.Mds.{
  Commands, MdsCollector, capacity, labels_of, server_reply, op_metrics, collect,
}
use ceph_exporter.Mds.Operations.{extract_op_from_description}
use ceph_exporter.Mds.Operations.Description.{description, extract-description}
use ceph_exporter.Mds.Bounds.{Event, scrape, round}
use ceph_exporter.Mds.Laws.{take, reported, collect-reported}
use ceph_exporter.Mds.Counts.{occurrences, counted, op_metrics-occurrences}
use ceph_exporter.Scenarios.{whole, object, array}

extract-description_example :
    extract_op_from_description (
      description
        (codes "4123")
        (codes "344151")
        (codes "rmdir")
        (codes "10000000030")
        (codes "/a 2024-02-13"))
    ≡ some (record {
      fs_op_type = codes "rmdir";
      inode = codes "0x" ++ codes "10000000030";
      client_id = codes "4123";
    })
extract-description_example =
    extract-description (codes "4123") (codes "344151") (codes "rmdir") (codes "10000000030") b'/'
      (codes "a 2024-02-13") (ground arith) (ground arith) (ground arith) (ground arith) refl
      (ground arith)

-- A request whose number has one digit is not understood.
short_request :
    extract_op_from_description (
      codes "client_request(client.4123:7 rmdir #0x10000000030/a 2024-02-13T22:11:00 caller_uid=0)")
    ≡ none
unfolding extract_op_from_description
short_request = refl

abbrev request : String → Json
request text = object (
    ("description", str text)
    ∷ ("type_data", object (("flag_point", str "waiting") ∷ ("op_type", str "client_request") ∷ []))
    ∷ [])

abbrev pub blocking : Commands
blocking = record {
  mds_stat = some (
      some (
        object (
          (
            "fsmap",
            object (
                (
                  "filesystems",
                  array (
                      object (
                        (
                          "mdsmap",
                          object (
                              ("fs_name", str "cephfs")
                              ∷ (
                                "info",
                                object (
                                    (
                                      "gid_7",
                                      object (
                                          ("gid", num "7")
                                          ∷ ("name", str "a")
                                          ∷ ("rank", num "0")
                                          ∷ ("state", str "up:active")
                                          ∷ []),
                                    )
                                    ∷ []),
                              )
                              ∷ []),
                        )
                        ∷ [])
                      ∷ []),
                )
                ∷ []),
          )
          ∷ [])));
  health_detail = some (
      some (
        object (
          (
            "checks",
            object (
                (
                  "MDS_SLOW_REQUEST",
                  object (
                      (
                        "detail",
                        array (object (("message", str "mds.a(mds.0): 2 slow requests") ∷ []) ∷ []),
                      )
                      ∷ []),
                )
                ∷ []),
          )
          ∷ [])));
  mds_status =
      λ mds. some (some (object (("state", str "up:active") ∷ ("fs_name", str "cephfs") ∷ [])));
  blocked_ops = λ mds. some (
      some (
        object (
          (
            "ops",
            array (
                request "client_request(client.4123:344151 rmdir #0x10000000030/a 2024-02-13)"
                ∷ request "client_request(client.4123:7 rmdir #0x10000000030/a 2024-02-13)"
                ∷ []),
          )
          ∷ [])));
}

abbrev idle_collector : MdsCollector whole
idle_collector = record { background = false; ch = []; goroutines = 0 }

collect-reported_example :
    ((collect whole blocking idle_collector).1 ≡ take capacity (reported whole blocking))
    × ((collect whole blocking idle_collector).0.ch ≡ [])
collect-reported_example = collect-reported whole blocking idle_collector refl refl

abbrev operation : String → Op
operation text = record {
  description = text;
  type_data = record { flag_point = "waiting"; op_type = "client_request" };
}

abbrev requests : List Op
requests =
    operation "client_request(client.4123:344151 rmdir #0x10000000030/a 2024-02-13)"
    ∷ operation "client_request(client.4123:7 rmdir #0x10000000030/a 2024-02-13)"
    ∷ []

abbrev active : MdsStatus
active = record { state = "up:active"; fs_name = "cephfs" }

server_reply-blocking : server_reply whole blocking "mds.a" ≡ some (active, requests)
unfolding server_reply get items
server_reply-blocking = refl

abbrev removals : List String
removals =
    "cephfs" ∷ "mds.a" ∷ "up:active" ∷ "client_request" ∷ "rmdir" ∷ "waiting" ∷ "0x10000000030" ∷ []

op_metrics-occurrences_example :
    Option.map (series removals) (op_metrics whole blocking "mds.a")
    ≡ some (counted whole (occurrences "mds.a" active removals requests))
op_metrics-occurrences_example =
    op_metrics-occurrences whole blocking "mds.a" active requests removals server_reply-blocking

one_removal : occurrences "mds.a" active removals requests ≡ 1
unfolding occurrences labels_of
one_removal = refl

-- A Collect, a round of the goroutine that it starts, and a Collect of what that has left.
abbrev events : List Event
events = scrape blocking ∷ round blocking ∷ scrape blocking ∷ []
