-- ===== src/Scenarios/Scrapes.antt =====
-- The theorems on the scrapes of an exporter with its own collectors, at a cluster that answers.
use ceph_exporter.Base.{
  ℕ, ◌≡◌, refl, sym, ap, ◌∙◌, true, none, some, Option, List, [], ◌∷◌, pos, lookup, string_eq,
  insert, split, codes, length,
}
use mathlib.Core.List.Perm as Perms
use ceph_exporter.Prometheus.{Metric}
use ceph_exporter.Json.{get, find, same_key, read_map, items}
use ceph_exporter.Conn.{Conn}
use ceph_exporter.Mds as Mds
use ceph_exporter.Health.Messages.{mons_down}
use ceph_exporter.Version.{quincy, is_at_least}
use ceph_exporter.Version.Decimal.{atoi}
use ceph_exporter.Version.Pattern.{standardize}
use ceph_exporter.Version.Parse.{parse_ceph_version}
use ceph_exporter.Exporter as Exporter
use ceph_exporter.Exporter.{version_reply, versions_reply, init_collectors}
use ceph_exporter.Exporter.Versions.{read_counts, read_daemons, parse_ceph_versions}
use ceph_exporter.Exporter.Interleaving.{concat}
use ceph_exporter.Health.Collector.{stats_reply}
use ceph_exporter.Health.Collector.Safety.{has_osds}
use ceph_exporter.Osd.Labels.{TreeNode}
use ceph_exporter.Osd.Collector.{tree_reply}
use ceph_exporter.Osd.Collector.Laws.{IsAcyclic}
use ceph_exporter.Collectors.{Host, AnyCollector, of_mds, new, collect, collectors}
use ceph_exporter.Collectors.Background.{background, Living, started, collected, went_round}
use ceph_exporter.Collectors.Reachable.{AreWellFormed, scrape-AreWellFormed}
use ceph_exporter.Collectors.Laws.{scrape-ends}
use ceph_exporter.Scenarios.{whole, vectors}
use ceph_exporter.Scenarios.Clusters.{sick}
use ceph_exporter.Scenarios.Exporters.{mirrored}
use ceph_exporter.Scenarios.OsdReplies.{osds, osds-IsAcyclic, in_turn-Received}
use ceph_exporter.Scenarios.Quorum.{arrays}
use ceph_exporter.Scenarios.Servers.{blocking}

abbrev or_else : {A : Type 0} → Option A → Option A → Option A
or_else none o = o
or_else (some a) o = some a

-- A cluster that answers what one of three does.
abbrev answering : Conn
answering = record mirrored {
  mon_command =
      λ c. or_else (mirrored.mon_command c) (or_else (osds.mon_command c) (sick.mon_command c));
}

abbrev host : Host whole
host = record {
  arrays = arrays;
  gv = vectors;
  replace_nan = λ b. b;
  parse_time = λ t. none;
  around = λ conn. record {
    clock = pos;
    gc_list = none;
    reshard_list = none;
    rbd_status = none;
    mds_commands = blocking;
    plain_status = some (codes "  cluster:");
  };
  schedule = λ conn. record {
    merge = concat;
    merge-Received = in_turn-Received;
    visit = λ checks. checks;
    visit-Perm = Perms.refl;
  };
}

abbrev exporter : Exporter.Exporter arrays.gabs (collectors whole host)
exporter = record {
  cluster = "ceph";
  config = "/etc/ceph/ceph.conf";
  user = "admin";
  rgw_mode = pos 1;
  mds_mode = pos 2;
  version = quincy;
  cc = init_collectors arrays.gabs (collectors whole host) (pos 1) (pos 2);
}

answering_version : version_reply answering ≡ some quincy
unfolding version_reply find same_key get lookup parse_ceph_version standardize atoi split
answering_version = refl

answering_versions :
    versions_reply arrays.gabs (collectors whole host) answering
    ≡ some (("rbd-mirror", ("17.2.0", 1) ∷ []) ∷ [])
unfolding versions_reply parse_ceph_versions read_daemons read_counts insert lookup atoi
answering_versions = refl

answering_tree : tree_reply whole answering ≡ tree_reply whole osds
unfolding tree_reply lookup items get atoi
answering_tree = refl

answering-IsAcyclic : (ns : List (TreeNode ℕ)) → tree_reply whole answering ≡ some ns → IsAcyclic ns
answering-IsAcyclic ns h = osds-IsAcyclic ns (sym answering_tree ∙ h)

answering_osds : has_osds whole quincy (stats_reply whole answering) ≡ true
unfolding stats_reply has_osds lookup get read_map atoi is_at_least insert
answering_osds = refl

scrape-ends_example :
    (e' : Exporter.Exporter arrays.gabs (collectors whole host)) × (outs : List (List (Metric ℕ)))
    × (Exporter.collect arrays.gabs (collectors whole host) exporter answering ≡ some (e', outs))
scrape-ends_example =
    scrape-ends whole host exporter answering quincy (("rbd-mirror", ("17.2.0", 1) ∷ []) ∷ [])
      answering_version answering_versions answering-IsAcyclic answering_osds

abbrev scraped :
    Option (Exporter.Exporter arrays.gabs (collectors whole host) × List (List (Metric ℕ)))
    → Exporter.Exporter arrays.gabs (collectors whole host) × List (List (Metric ℕ))
scraped none = (exporter, [])
scraped (some r) = r

abbrev scrape : Exporter.Exporter arrays.gabs (collectors whole host) × List (List (Metric ℕ))
scrape = scraped (Exporter.collect arrays.gabs (collectors whole host) exporter answering)

scrape_lem :
    Exporter.collect arrays.gabs (collectors whole host) exporter answering
    ≡ some (scrape.0, scrape.1)
scrape_lem =
    let (e', outs, h) =
      scrape-ends whole host exporter answering quincy (("rbd-mirror", ("17.2.0", 1) ∷ []) ∷ [])
        answering_version answering_versions answering-IsAcyclic answering_osds in
    h ∙ ap some (sym (ap scraped h))

exporter_new :
    Exporter.new_exporter arrays.gabs
      (collectors whole host)
      answering
      "ceph"
      "/etc/ceph/ceph.conf"
      "admin"
      (pos 1)
      (pos 2)
    ≡ some exporter
unfolding Exporter.new_exporter version_reply find same_key get lookup parse_ceph_version
    standardize atoi split
exporter_new = refl

-- After the first scrape, and a round of the goroutine that it has started.
abbrev later : Exporter.Exporter arrays.gabs (collectors whole host)
later = (background whole host 5 answering "mds" scrape.0).0

-- How many metrics wait in the channel of the metadata servers.
abbrev waiting : Option (AnyCollector whole host) → ℕ
waiting (some (of_mds m)) = length m.ch
waiting _ = 0

-- The state of the one server, and its two blocked operations, which are counted together.
later_waiting : waiting (lookup "mds" later.cc) ≡ 2
unfolding background Exporter.collect lookup insert get parse_ceph_version standardize atoi
    parse_ceph_versions init_collectors collect new read_map mons_down is_at_least items Mds.collect
later_waiting = refl

later-Living : Living whole host later
later-Living = went_round 5 answering "mds" (
    collected answering
      (started answering "ceph" "/etc/ceph/ceph.conf" "admin" (pos 1) (pos 2) exporter_new)
      scrape_lem)

abbrev later_scrape : Exporter.Exporter arrays.gabs (collectors whole host) × List (List (Metric ℕ))
later_scrape = scraped (Exporter.collect arrays.gabs (collectors whole host) later answering)

later_scrape_lem :
    Exporter.collect arrays.gabs (collectors whole host) later answering
    ≡ some (later_scrape.0, later_scrape.1)
later_scrape_lem =
    let (e', outs, h) =
      scrape-ends whole host later answering quincy (("rbd-mirror", ("17.2.0", 1) ∷ []) ∷ [])
        answering_version answering_versions answering-IsAcyclic answering_osds in
    h ∙ ap some (sym (ap scraped h))

scrape-AreWellFormed_example :
    AreWellFormed (concat later_scrape.1)
    × AreWellFormed (background whole host 15 answering "rgw" later_scrape.0).1
scrape-AreWellFormed_example =
    scrape-AreWellFormed whole host later later_scrape.0 answering later_scrape.1
      (concat later_scrape.1) 15 answering "rgw" later-Living later_scrape_lem
      (in_turn-Received later_scrape.1)
