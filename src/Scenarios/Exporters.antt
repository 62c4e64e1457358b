-- ===== src/Scenarios/Exporters.antt =====
-- The theorems on the exporter, at a cluster with one mirror daemon and at one that does not answer.
use ceph_exporter.Base.{
  ℕ, suc, String, ◌≡◌, refl, true, false, none, some, List, [], ◌∷◌, map, pos, lookup, insert,
  string_eq, split,
}
use ceph_exporter.Prometheus.{Metric, gauge, describe}
use ceph_exporter.Json.{Json, Fields, str, num, obj, end, field, find, same_key, get}
use ceph_exporter.Conn.{Conn}
use ceph_exporter.Float.{parse}
use ceph_exporter.Version.{quincy}
use ceph_exporter.Version.Decimal.{atoi}
use ceph_exporter.Version.Pattern.{standardize}
use ceph_exporter.Version.Parse.{parse_ceph_version}
use ceph_exporter.Exporter
use ceph_exporter.Exporter.{
  CollectorKind, cluster_usage, pool_usage, pool_info, cluster_health, mon, osd, crashes, rgw,
  rbd_mirror_status, VersionedCollectors, Collectors, init_collectors, new_exporter, Exporter,
  version_reply, versions_reply, with_rbd_mirror, collect,
}
use ceph_exporter.Exporter.Versions.{
  Gabs, children, not_obj, read_counts, read_daemons, parse_ceph_versions,
}
use ceph_exporter.Exporter.Interleaving.{Received, closed, returned, sends}
use ceph_exporter.Exporter.Laws.{mirror_after, with_rbd_mirror-mirror_after}
use ceph_exporter.Exporter.Collection.{collect-Perm}
use ceph_exporter.Exporter.Reachable.{started, collected, IsConfigured, Reachable-IsConfigured}
use ceph_exporter.Exporter.Isolation.{
  Call, call_once, scraping, describing, after, alone, lookup-after,
}
use ceph_exporter.Descriptors.{are_distinct, names, names-are_distinct}
use mathlib.Core.List.{Perm}
use ceph_exporter.Scenarios.{whole, object, cluster}

-- Containers that are the values themselves.
abbrev pub parser : Gabs ℕ
parser = record {
  Container = Json;
  parse_json = λ buf. buf;
  children_map = λ j. elim j [ obj fs ↦ children (go fs) | _ ↦ not_obj ];
  data_float = λ j. elim j [ num s ↦ parse whole s | _ ↦ none ];
}
  where
    go : Fields → List (String × Json)
    go end = []
    go (field k j rest) = (k, j) ∷ go rest

-- Each collector sends one metric, for its kind.
abbrev metric_of : CollectorKind → Metric ℕ
metric_of kind = record {
  desc = describe "ceph_kind" "" [];
  kind = gauge;
  value = elim kind [ osd ↦ 1 | rgw b ↦ 2 | rbd_mirror_status v ↦ 3 | _ ↦ 0 ];
  labels = [];
}

abbrev pub kinds : VersionedCollectors ℕ
kinds = record {
  Collector = CollectorKind;
  new = λ kind. kind;
  describe = λ kind conn. (kind, []);
  collect = λ kind conn v. some (kind, metric_of kind ∷ []);
}

abbrev quincy_text : Json
quincy_text = str "ceph version 17.2.0"

abbrev pub mirrored : Conn
mirrored = cluster (
    ("version", object (("version", quincy_text) ∷ []))
    ∷ ("versions", object (("rbd-mirror", object (("17.2.0", num "1") ∷ [])) ∷ []))
    ∷ [])

abbrev down : Conn
down = cluster []

abbrev mirror_versions : List (String × List (String × ℕ))
mirror_versions = ("rbd-mirror", ("17.2.0", 1) ∷ []) ∷ []

mirrored_version : version_reply mirrored ≡ some quincy
unfolding version_reply find same_key get lookup parse_ceph_version standardize atoi split
mirrored_version = refl

mirrored_versions : versions_reply parser kinds mirrored ≡ some mirror_versions
unfolding versions_reply parse_ceph_versions read_daemons read_counts insert lookup atoi
mirrored_versions = refl

abbrev small : Exporter parser kinds
small = record {
  cluster = "ceph";
  config = "/etc/ceph/ceph.conf";
  user = "admin";
  rgw_mode = pos 1;
  mds_mode = pos 0;
  version = quincy;
  cc = ("osd", osd) ∷ ("rgw", rgw false) ∷ [];
}

abbrev of_osds : Metric ℕ
of_osds = metric_of osd

abbrev of_gateways : Metric ℕ
of_gateways = metric_of (rgw false)

abbrev of_mirrors : Metric ℕ
of_mirrors = metric_of (rbd_mirror_status quincy)

-- The gateways' metric overtakes that of the OSDs.
abbrev arrivals : List (Metric ℕ)
arrivals = of_gateways ∷ of_osds ∷ of_mirrors ∷ []

abbrev scraped : Exporter parser kinds
scraped = record small {
  cc = ("osd", osd) ∷ ("rgw", rgw false) ∷ ("rbdMirror", rbd_mirror_status quincy) ∷ [];
}

abbrev outputs : List (List (Metric ℕ))
outputs = (of_osds ∷ []) ∷ (of_gateways ∷ []) ∷ (of_mirrors ∷ []) ∷ []

small_collect : collect parser kinds small mirrored ≡ some (scraped, outputs)
unfolding collect version_reply versions_reply parse_ceph_versions read_daemons read_counts insert
    find same_key get lookup parse_ceph_version standardize atoi split
small_collect = refl

arrivals-Received : Received outputs arrivals
arrivals-Received = sends ((of_osds ∷ []) ∷ []) of_gateways [] ((of_mirrors ∷ []) ∷ []) (
    sends [] of_osds [] ([] ∷ (of_mirrors ∷ []) ∷ [])
      (sends ([] ∷ [] ∷ []) of_mirrors [] [] (returned (returned (returned closed)))))

collect-Perm_example : Perm arrivals (of_osds ∷ of_gateways ∷ of_mirrors ∷ [])
unfolding lookup insert
collect-Perm_example =
    collect-Perm parser kinds small scraped mirrored quincy mirror_versions outputs arrivals
      mirrored_version mirrored_versions small_collect arrivals-Received

abbrev mirrorless : Collectors parser kinds
mirrorless = ("osd", osd) ∷ []

with_rbd_mirror-mirror_after_example :
    lookup "rbdMirror" (with_rbd_mirror parser kinds quincy (some (("17.2.0", 1) ∷ [])) mirrorless)
    ≡ some (rbd_mirror_status quincy)
unfolding mirror_after lookup
with_rbd_mirror-mirror_after_example =
    with_rbd_mirror-mirror_after parser kinds quincy (some (("17.2.0", 1) ∷ [])) "rbdMirror"
      mirrorless

abbrev fresh : Exporter parser kinds
fresh = record {
  cluster = "ceph";
  config = "/etc/ceph/ceph.conf";
  user = "admin";
  rgw_mode = pos 1;
  mds_mode = pos 0;
  version = quincy;
  cc = init_collectors parser kinds (pos 1) (pos 0);
}

fresh_new :
    new_exporter parser kinds mirrored "ceph" "/etc/ceph/ceph.conf" "admin" (pos 1) (pos 0)
    ≡ some fresh
unfolding new_exporter version_reply find same_key get lookup parse_ceph_version standardize atoi
    split
fresh_new = refl

abbrev kept : Exporter parser kinds
kept = record fresh { cc = insert "rbdMirror" (rbd_mirror_status quincy) fresh.cc }

abbrev all_outputs : List (List (Metric ℕ))
all_outputs = map (λ (name, kind). metric_of kind ∷ []) kept.cc

fresh_collect : collect parser kinds fresh mirrored ≡ some (kept, all_outputs)
unfolding collect version_reply versions_reply parse_ceph_versions read_daemons read_counts insert
    find same_key get lookup parse_ceph_version standardize atoi split init_collectors
fresh_collect = refl

Reachable-IsConfigured_example : IsConfigured parser kinds kept
Reachable-IsConfigured_example = Reachable-IsConfigured parser kinds kept (
    collected mirrored
      (started mirrored "ceph" "/etc/ceph/ceph.conf" "admin" (pos 1) (pos 0) fresh_new)
      fresh_collect)

names-are_distinct_example :
    are_distinct (
      names parser
        (λ kind conn v. metric_of kind ∷ [])
        mirrored
        quincy
        (some (("17.2.0", 1) ∷ []))
        (pos 1)
        (pos 2))
    ≡ true
names-are_distinct_example =
    names-are_distinct parser (λ kind conn v. metric_of kind ∷ []) mirrored quincy
      (some (("17.2.0", 1) ∷ [])) (pos 1) (pos 2)

-- Collectors that count their collections.
abbrev counting : VersionedCollectors ℕ
counting = record {
  Collector = CollectorKind × ℕ;
  new = λ kind. (kind, 0);
  describe = λ c conn. (c, []);
  collect = λ (kind, n) conn v. some ((kind, suc n), metric_of kind ∷ []);
}

abbrev counted : Exporter parser counting
counted = record {
  cluster = "ceph";
  config = "/etc/ceph/ceph.conf";
  user = "admin";
  rgw_mode = pos 1;
  mds_mode = pos 0;
  version = quincy;
  cc = init_collectors parser counting (pos 1) (pos 0);
}

abbrev calls : List Call
calls = scraping mirrored ∷ describing mirrored ∷ scraping down ∷ scraping mirrored ∷ []

abbrev counted_later : Exporter parser counting
counted_later = record counted {
  cc =
      ("clusterUsage", (cluster_usage, 2))
      ∷ ("poolUsage", (pool_usage, 2))
      ∷ ("poolInfo", (pool_info, 2))
      ∷ ("clusterHealth", (cluster_health, 2))
      ∷ ("mon", (mon, 2))
      ∷ ("osd", (osd, 2))
      ∷ ("crashes", (crashes, 2))
      ∷ ("rgw", (rgw false, 2))
      ∷ ("rbdMirror", (rbd_mirror_status quincy, 2))
      ∷ [];
}

after-calls : after parser counting calls counted ≡ some counted_later
unfolding after call_once collect Exporter.describe version_reply versions_reply parse_ceph_versions
    read_daemons read_counts insert find same_key get lookup parse_ceph_version standardize atoi
    split init_collectors
after-calls = refl

lookup-after_example : lookup "rbdMirror" counted_later.cc ≡ some (rbd_mirror_status quincy, 2)
unfolding alone version_reply versions_reply parse_ceph_versions read_daemons read_counts insert
    find same_key get lookup parse_ceph_version standardize atoi split mirror_after init_collectors
lookup-after_example =
    lookup-after parser counting "rbdMirror" calls counted counted_later after-calls
