-- ===== src/Osd/Replies.antt =====
-- The commands that the collector of ceph/osd.go runs, and the replies to them as structs:
-- `cephOSDDF`, `CephOSDPerfStat`, `cephOSDDump`, `cephOSDTreeDown` and `cephOSDMetadata`.
use ceph_exporter.Base.{String, List, [], ◌∷◌, ℤ, ℕ}
use ceph_exporter.Conn.{Command, word, words}

abbrev pub dump_command : Command
dump_command = ("prefix", word "osd dump") ∷ ("format", word "json") ∷ []

abbrev pub df_command : Command
df_command = ("prefix", word "osd df") ∷ ("format", word "json") ∷ []

abbrev pub perf_command : Command
perf_command = ("prefix", word "osd perf") ∷ ("format", word "json") ∷ []

abbrev pub metadata_command : Command
metadata_command = ("prefix", word "osd metadata") ∷ ("format", word "json") ∷ []

abbrev with_states : List String → Command
with_states [] = []
with_states (s ∷ ss) = ("states", words (s ∷ ss)) ∷ []

abbrev pub tree_command : List String → Command
tree_command states = ("prefix", word "osd tree") ∷ ("format", word "json") ∷ with_states states

abbrev pub pg_dump_command : Command
pg_dump_command =
    ("prefix", word "pg dump")
    ∷ ("dumpcontents", words ("pgs_brief" ∷ []))
    ∷ ("format", word "json")
    ∷ []

pub record DfNode : Type 0 where
  pub name : String
  pub crush_weight : String
  pub depth : String
  pub reweight : String
  pub kb : String
  pub used_kb : String
  pub avail_kb : String
  pub utilization : String
  pub variance : String
  pub pgs : String

pub record DfSummary : Type 0 where
  pub total_kb : String
  pub total_used_kb : String
  pub total_avail_kb : String
  pub average_util : String

pub record Df : Type 0 where
  pub nodes : List DfNode
  pub summary : DfSummary

pub record PerfStat : Type 0 where
  pub id : String
  pub commit_latency : String
  pub apply_latency : String

pub record DumpInfo : Type 0 where
  pub osd : String
  pub up : String
  pub is_in : String
  pub state : List String

-- `upmap_items` is the number of the entries of `pg_upmap_items`.
pub record Dump : Type 0 where
  pub osds : List DumpInfo
  pub upmap_items : ℕ
  pub full_ratio : String
  pub near_full_ratio : String
  pub backfill_full_ratio : String

pub record OsdNode : Type 0 where
  pub id : ℤ
  pub name : String
  pub type : String
  pub status : String

pub record OsdMetadata : Type 0 where
  pub id : ℤ
  pub ceph_version_when_created : String
  pub created_at : String
  pub osd_objectstore : String
