-- ===== src/Osd/Labels.antt =====
-- `buildOSDLabels` of ceph/osd.go: for each OSD of the CRUSH tree, the names of the host, the rack
-- and the root above it.
pub mod Ancestors
pub mod Tables
pub mod Laws
use ceph_exporter.Base.{
  ℕ, zero, suc, ◌-◌, ◌^◌, String, Bool, true, false, Option, none, some, ◌>>=◌, List, [], ◌∷◌, ℤ,
  pos, string_beq, int_eq, lookup, insert, length, if◌then◌else◌,
}

-- A node of the reply of `ceph osd tree`; `W` is the type of weights.
pub record TreeNode (W : Type 0) : Type 0 where
  pub id : ℤ
  pub name : String
  pub type : String
  pub status : String
  pub device_class : String
  pub crush_weight : W
  pub children : List ℤ

pub record OsdLabel (W : Type 0) : Type 0 where
  pub id : ℤ
  pub name : String
  pub type : String
  pub status : String
  pub device_class : String
  pub crush_weight : W
  pub root : String
  pub rack : String
  pub host : String
  pub parent : ℤ

-- math.MaxInt64, the parent of a node that has none
abbrev pub no_parent : ℤ
no_parent = pos (2 ^ 63 - 1)

abbrev pub NodeMap : Type 0 → Type 0
NodeMap W = List (ℤ × OsdLabel W)

module _ {W : Type 0} where
  abbrev label_of : TreeNode W → OsdLabel W
  label_of n = record {
    id = n.id;
    name = n.name;
    type = n.type;
    status = n.status;
    device_class = n.device_class;
    crush_weight = n.crush_weight;
    root = "";
    rack = "";
    host = "";
    parent = no_parent;
  }

  -- the lookup table
  unfoldable pub node_map : NodeMap W → List (TreeNode W) → NodeMap W
  node_map m [] = m
  node_map m (n ∷ ns) = node_map (insert n.id (label_of n) m) ns

  -- label.parent = node.ID, through the pointer that the map holds
  unfoldable pub set_parent : ℤ → ℤ → NodeMap W → NodeMap W
  set_parent parent child m = elim (lookup child m) [
    | none ↦ m
    | some label ↦ insert child (record label { parent = parent }) m
  ]

  unfoldable pub set_children : ℤ → NodeMap W → List ℤ → NodeMap W
  unfolding set_parent
  set_children parent m [] = m
  set_children parent m (c ∷ cs) = set_children parent (set_parent parent c m) cs

  unfoldable pub set_parents : NodeMap W → List (TreeNode W) → NodeMap W
  unfolding set_children
  set_parents m [] = m
  set_parents m (n ∷ ns) = set_parents (set_children n.id m n.children) ns

  -- findParent climbs until a parent has the kind. It recurs without a bound: `none` is a climb that
  -- has not ended within the fuel.
  unfoldable pub find_parent : ℕ → NodeMap W → OsdLabel W → String → Option (Option (OsdLabel W))
  find_parent zero m from kind = none
  find_parent (suc fuel) m from kind = elim (lookup from.parent m) [
    | none ↦ some none
    | some parent ↦ elim (string_beq parent.type kind) [
      | true ↦ some (some parent)
      | false ↦ find_parent fuel m parent kind
    ]
  ]

  abbrev name_of : Option (OsdLabel W) → String
  name_of none = ""
  name_of (some l) = l.name

  -- The parents and the types, which the climb reads, are not changed by this loop.
  unfoldable pub fill : ℕ → NodeMap W → OsdLabel W → Option (OsdLabel W)
  unfolding find_parent
  fill fuel m l = do
    host ← find_parent fuel m l "host"
    rack ← find_parent fuel m l "rack"
    root ← find_parent fuel m l "root"
    some (record l { host = name_of host; rack = name_of rack; root = name_of root })

  unfoldable pub fill_all : ℕ → NodeMap W → NodeMap W → Option (NodeMap W)
  unfolding fill
  fill_all fuel m [] = some []
  fill_all fuel m ((k, l) ∷ rest) = do
    l' ← fill fuel m l
    rest' ← fill_all fuel m rest
    some ((k, l') ∷ rest')

  -- delete of all that is not an OSD
  unfoldable pub only_osds : NodeMap W → NodeMap W
  only_osds [] = []
  only_osds ((k, l) ∷ rest) =
      let rest' = only_osds rest in if string_beq l.type "osd" then (k, l) ∷ rest' else rest'

  -- the table with the parents filled in
  unfoldable pub parent_map : List (TreeNode W) → NodeMap W
  unfolding node_map set_parents
  parent_map ns = set_parents (node_map [] ns) ns

  -- The fuel is above the number of nodes.
  unfoldable pub build_osd_labels : List (TreeNode W) → Option (NodeMap W)
  unfolding parent_map fill_all only_osds
  build_osd_labels ns =
      let m = parent_map ns in do filled ← fill_all (suc (length m)) m m; some (only_osds filled)
