-- ===== src/Exporter.antt =====
-- ceph/exporter.go: the collector that is registered with Prometheus, which runs all the others.
pub mod Versions
pub mod Interleaving
pub mod Laws
pub mod Collection
pub mod Reachable
pub mod Isolation
use ceph_exporter.Base.{
  ℕ, String, Bool, true, false, Option, none, some, ◌>>=◌, List, [], ◌∷◌, ◌++◌, lookup, insert,
  delete, string_eq, codes, if◌then◌else◌, ℤ, pos, eqb_ℤ,
}
use ceph_exporter.Base.Result.{ok, err}
use ceph_exporter.Version.{Version}
use ceph_exporter.Version.Parse.{parse_ceph_version}
use ceph_exporter.Prometheus.{Desc, Metric}
use ceph_exporter.Json.{Decoder, fields, get, string, unmarshal}
use ceph_exporter.Conn.{Conn, Command, word}
use Versions.{Gabs, Counts, ceph_versions_command, parse_ceph_versions}

-- The collectors, by the arguments of the functions that make them.
pub data CollectorKind : Type 0 where
  cluster_usage pool_usage pool_info cluster_health mon osd crashes : CollectorKind
  rgw mds : (background : Bool) → CollectorKind
  rbd_mirror_status : (version : Version) → CollectorKind

-- versionedCollector: what the exporter does with a collector, which keeps a state of its own. Where
-- a Collect panics or does not end, which ends the program, it is `none`.
pub record VersionedCollectors (V : Type 0) : Type 1 where
  pub Collector : Type 0
  pub new : CollectorKind → Collector
  pub describe : Collector → Conn → Collector × List Desc
  pub collect : Collector → Conn → Version → Option (Collector × List (Metric V))

-- ceph version
abbrev pub ceph_version_command : Command
ceph_version_command = ("prefix", word "version") ∷ ("format", word "json") ∷ []

decode_version : Decoder String
decode_version j = do fs ← fields j; get "Version" "" string fs

abbrev parsed : String → Option Version
parsed s = elim (parse_ceph_version (codes s)) [ ok v ↦ some v | err e ↦ none ]

-- The version that the cluster reports.
unfoldable pub version_reply : Conn → Option Version
unfolding decode_version
version_reply conn = do
  buf ← conn.mon_command ceph_version_command
  s ← unmarshal decode_version buf
  parsed s

module _ {V : Type 0} (gabs : Gabs V) (cs : VersionedCollectors V) where
  open cs use {Collector, new}

  abbrev pub Collectors : Type 0
  Collectors = List (String × Collector)

  abbrev pub standard_collectors : Collectors
  standard_collectors =
      ("clusterUsage", new cluster_usage)
      ∷ ("poolUsage", new pool_usage)
      ∷ ("poolInfo", new pool_info)
      ∷ ("clusterHealth", new cluster_health)
      ∷ ("mon", new mon)
      ∷ ("osd", new osd)
      ∷ ("crashes", new crashes)
      ∷ []

  -- The switch on RgwMode: 0, 1 and 2 are disabled, foreground and background; any other value
  -- disables the collector with a warning. And that on MDSMode, which is the same.
  abbrev pub with_mode : ℤ → String → (Bool → CollectorKind) → Collectors → Collectors
  with_mode mode name kind m =
      if eqb_ℤ mode (pos 1)
      then insert name (new (kind false)) m
      else if eqb_ℤ mode (pos 2)
      then insert name (new (kind true)) m
      else m

  unfoldable pub init_collectors : ℤ → ℤ → Collectors
  init_collectors rgw_mode mds_mode =
      with_mode mds_mode "mds" mds (with_mode rgw_mode "rgw" rgw standard_collectors)

  pub record Exporter : Type 0 where
    pub cluster : String
    pub config : String
    pub user : String
    pub rgw_mode : ℤ
    pub mds_mode : ℤ
    pub version : Version
    pub cc : Collectors

  -- setCephVersion, with the version: `none` is an error, which leaves the exporter as it is.
  abbrev pub set_ceph_version : Option Version → Exporter → Option Exporter
  set_ceph_version none e = none
  set_ceph_version (some v) e = some (record e { version = v })

  -- NewExporter: `none` is the nil that is returned when the version is not known.
  unfoldable pub new_exporter : Conn → String → String → String → ℤ → ℤ → Option Exporter
  unfolding init_collectors
  new_exporter conn cluster config user rgw_mode mds_mode = do
    v ← version_reply conn
    some (record {
      cluster = cluster;
      config = config;
      user = user;
      rgw_mode = rgw_mode;
      mds_mode = mds_mode;
      version = v;
      cc = init_collectors rgw_mode mds_mode;
    })

  -- versions["rbd-mirror"], if it exists
  unfoldable pub versions_reply : Conn → Option (List (String × Counts gabs))
  versions_reply conn = do
    buf ← conn.mon_command ceph_versions_command
    parse_ceph_versions gabs buf

  abbrev added : Version → Option Collector → Collectors → Collectors
  added v none m = insert "rbdMirror" (new (rbd_mirror_status v)) m
  added v (some c) m = m

  -- The collectors, by the entry of "rbd-mirror" in the versions that run.
  abbrev pub with_rbd_mirror : Version → Option (Counts gabs) → Collectors → Collectors
  with_rbd_mirror v (some (count ∷ counts)) m = added v (lookup "rbdMirror" m) m
  with_rbd_mirror v (some []) m = m
  with_rbd_mirror v none m = delete "rbdMirror" m

  -- setRbdMirror, with the versions: `none` is an error, which leaves the exporter as it is.
  abbrev pub set_rbd_mirror : Option (List (String × Counts gabs)) → Exporter → Option Exporter
  set_rbd_mirror none e = none
  set_rbd_mirror (some versions) e =
      some (record e { cc = with_rbd_mirror e.version (lookup "rbd-mirror" versions) e.cc })

  -- The loop of Describe: the collectors after it, and what each has sent.
  unfoldable pub describe_all : Conn → Collectors → Collectors × List Desc
  describe_all conn [] = ([], [])
  describe_all conn ((name, c) ∷ rest) =
      let (c', ds) = cs.describe c conn in
      let (rest', es) = describe_all conn rest in ((name, c') ∷ rest', ds ++ es)

  -- The goroutines of Collect: the collectors after them, and what each sends, in its order.
  unfoldable pub collect_all :
      Conn → Version → Collectors → Option (Collectors × List (List (Metric V)))
  collect_all conn v [] = some ([], [])
  collect_all conn v ((name, c) ∷ rest) = do
    (c', ms) ← cs.collect c conn v
    (rest', outs) ← collect_all conn v rest
    some ((name, c') ∷ rest', ms ∷ outs)

  -- The exporter with the settings that Describe and Collect renew, and whether both were renewed.
  unfoldable pub renew :
      Option Version → Option (List (String × Counts gabs)) → Exporter → Exporter × Bool
  renew v versions e = elim (set_ceph_version v e) [
    | none ↦ (e, false)
    | some e' ↦ elim (set_rbd_mirror versions e') [ none ↦ (e', false) | some e'' ↦ (e'', true) ]
  ]

  unfoldable pub describe_renewed : Conn → Exporter × Bool → Exporter × List Desc
  unfolding describe_all
  describe_renewed conn (e, false) = (e, [])
  describe_renewed conn (e, true) =
      let (cc', ds) = describe_all conn e.cc in (record e { cc = cc' }, ds)

  -- Describe
  unfoldable pub describe : Exporter → Conn → Exporter × List Desc
  unfolding version_reply versions_reply renew describe_renewed
  describe e conn = describe_renewed conn (renew (version_reply conn) (versions_reply conn) e)

  unfoldable pub collect_renewed :
      Conn → Exporter × Bool → Option (Exporter × List (List (Metric V)))
  unfolding collect_all
  collect_renewed conn (e, false) = some (e, [])
  collect_renewed conn (e, true) = do
    (cc', outs) ← collect_all conn e.version e.cc
    some (record e { cc = cc' }, outs)

  -- Collect: the mutex is held throughout
  unfoldable pub collect : Exporter → Conn → Option (Exporter × List (List (Metric V)))
  unfolding version_reply versions_reply renew collect_renewed
  collect e conn = collect_renewed conn (renew (version_reply conn) (versions_reply conn) e)
