-- ===== src/Scenarios/Osds.antt =====
-- The theorems on OSDs, at a tree of one host and at a few placement groups.
use ceph_exporter.Base.{
  ℕ, ◌≤◌, ◌-◌, String, ◌≡◌, refl, ◌⊎◌, none, some, List, [], ◌∷◌, ℤ, pos, negsuc, lookup, insert,
  int_eq, string_eq, eqb_ℤ, if◌then◌else◌, contains, length, arith,
}
use mathlib.Core.Option
use ceph_exporter.Osd.Labels.{TreeNode, OsdLabel, NodeMap, no_parent, parent_map, build_osd_labels}
use ceph_exporter.Osd.Labels.Ancestors.{IsRanked}
use ceph_exporter.Osd.Labels.Laws.{IsLabelled, build_osd_labels-IsLabelled}
use ceph_exporter.Osd.Scrub.{PgStat, Cache, update, mem, scrub_state, last_scrub, update-last_scrub}
use ceph_exporter.Osd.Inactive.{round, rounds, unix, history, histories, rounds-histories}
use ceph_exporter.Osd.Inactive.Oldest.{IsDump, Least, Among, times, round_oldest}

abbrev node : ℤ → String → String → List ℤ → TreeNode ℕ
node id name type children = record {
  id = id;
  name = name;
  type = type;
  status = "";
  device_class = "";
  crush_weight = 1;
  children = children;
}

-- An OSD on a host.
abbrev pub tree : List (TreeNode ℕ)
tree = node (negsuc 1) "node1" "host" (pos 0 ∷ []) ∷ node (pos 0) "osd.0" "osd" [] ∷ []

abbrev label : ℤ → String → String → ℤ → OsdLabel ℕ
label id name type parent = record {
  id = id;
  name = name;
  type = type;
  status = "";
  device_class = "";
  crush_weight = 1;
  root = "";
  rack = "";
  host = "";
  parent = parent;
}

abbrev labels : NodeMap ℕ
labels =
    (negsuc 1, label (negsuc 1) "node1" "host" no_parent)
    ∷ (pos 0, label (pos 0) "osd.0" "osd" (negsuc 1))
    ∷ []

tree_labels : parent_map tree ≡ labels
unfolding parent_map insert lookup
tree_labels = refl

-- One below the host, two below the OSD.
abbrev pub depth : OsdLabel ℕ → ℕ
depth l = if eqb_ℤ l.parent (pos 0) then 2 else if eqb_ℤ l.parent (negsuc 1) then 1 else 0

pub depth-IsRanked : IsRanked (parent_map tree) depth
unfolding lookup
depth-IsRanked l p = rw tree_labels (λ h. ground (arith, h))

pub depth_le : (l : OsdLabel ℕ) → depth l ≤ length (parent_map tree)
depth_le l = rw tree_labels (ground arith)

build_osd_labels-IsLabelled_example :
    (r : NodeMap ℕ) × (build_osd_labels tree ≡ some r)
    × ((id : ℤ) → IsLabelled (parent_map tree) (lookup id (parent_map tree)) (lookup id r))
build_osd_labels-IsLabelled_example = build_osd_labels-IsLabelled tree depth depth-IsRanked depth_le

abbrev group : String → List ℤ → String → PgStat
group pgid acting state = record {
  pgid = pgid;
  acting_primary = pos 0;
  acting = acting;
  state = state;
}

abbrev scrubbed : Cache
scrubbed = (pos 3, 1) ∷ []

abbrev dump : List PgStat
dump =
    group "1.0" (pos 0 ∷ pos 1 ∷ []) "active+clean+scrubbing+deep"
    ∷ group "1.1" (pos 2 ∷ []) "peering"
    ∷ group "1.2" (pos 2 ∷ []) "down"
    ∷ []

update-last_scrub_example : lookup (pos 1) (update scrubbed dump) ≡ some 2
unfolding last_scrub mem Option.or_else scrub_state contains
update-last_scrub_example = update-last_scrub (pos 1) scrubbed dump

rounds-histories_example :
    lookup "1.1" (rounds [] ((100, some dump) ∷ (200, none) ∷ (300, some dump) ∷ [])) ≡ some 100
unfolding lookup histories history contains
rounds-histories_example =
    rounds-histories "1.1" [] ((100, some dump) ∷ (200, none) ∷ (300, some dump) ∷ [])

dump-IsDump : IsDump dump
dump-IsDump = ground arith

round_oldest_example :
    (t : ℕ) × ((round 9000000000 (("1.2", 5000000000) ∷ []) dump).1 ≡ unix 9000000000 - unix t)
    × (t ≤ 9000000000)
    × Least t (times 9000000000 (("1.2", 5000000000) ∷ []) dump)
    × ((t ≡ 9000000000) ⊎ Among t (times 9000000000 (("1.2", 5000000000) ∷ []) dump))
round_oldest_example = round_oldest 9000000000 (("1.2", 5000000000) ∷ []) dump dump-IsDump
