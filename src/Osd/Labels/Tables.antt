-- ===== src/Osd/Labels/Tables.antt =====
-- The tables of `buildOSDLabels` keep one entry for each id.
use mathlib.Core.Path.{subst}
use ceph_exporter.Base.{
  ◌≡◌, refl, inl, inr, Option, none, some, List, [], ◌∷◌, ℤ, string_beq, beq, int_eq, lookup,
  insert, IsMap, Fresh, insert-IsMap, if◌then◌else◌, Bool-cases, Option-cases, eqb_ℤ_iff,
}
use ceph_exporter.Osd.Labels.{
  TreeNode, OsdLabel, NodeMap, node_map, set_parent, set_children, set_parents, parent_map,
  label_of, only_osds,
}

module _ {W : Type 0} where
  node_map-IsMap : (m : NodeMap W) (ns : List (TreeNode W)) → IsMap m → IsMap (node_map m ns)
  unfolding node_map
  node_map-IsMap m [] h = h
  node_map-IsMap m (n ∷ ns) h =
      node_map-IsMap (insert n.id (label_of n) m) ns (insert-IsMap n.id _ m h)

  set_parent-IsMap : (p c : ℤ) (m : NodeMap W) → IsMap m → IsMap (set_parent p c m)
  unfolding set_parent
  set_parent-IsMap p c m h = elim (Option-cases (lookup c m)) [
    | inl e ↦ rw (e, set_parent) h
    | inr (l, e) ↦ rw (e, set_parent) (insert-IsMap c _ m h)
  ]

  set_children-IsMap : (p : ℤ) (m : NodeMap W) (cs : List ℤ) → IsMap m → IsMap (set_children p m cs)
  unfolding set_children
  set_children-IsMap p m [] h = h
  set_children-IsMap p m (c ∷ cs) h =
      set_children-IsMap p (set_parent p c m) cs (set_parent-IsMap p c m h)

  set_parents-IsMap : (m : NodeMap W) (ns : List (TreeNode W)) → IsMap m → IsMap (set_parents m ns)
  unfolding set_parents
  set_parents-IsMap m [] h = h
  set_parents-IsMap m (n ∷ ns) h =
      set_parents-IsMap (set_children n.id m n.children) ns (set_children-IsMap n.id m n.children h)

  pub parent_map-IsMap : (ns : List (TreeNode W)) → IsMap (parent_map ns)
  unfolding parent_map
  parent_map-IsMap ns = set_parents-IsMap (node_map [] ns) ns (node_map-IsMap [] ns tt)

  lookup-only_osds-Fresh : (k : ℤ) (m : NodeMap W) → Fresh k m → lookup k (only_osds m) ≡ none
  unfolding lookup only_osds
  lookup-only_osds-Fresh k [] h = refl
  lookup-only_osds-Fresh k ((j, l) ∷ m) h = elim (Bool-cases (string_beq l.type "osd")) [
    | inl t ↦ rw (t, h.0) (lookup-only_osds-Fresh k m h.1)
    | inr f ↦ rw f (lookup-only_osds-Fresh k m h.1)
  ]

  abbrev pub if_osd : Option (OsdLabel W) → Option (OsdLabel W)
  if_osd none = none
  if_osd (some l) = if string_beq l.type "osd" then some l else none

  pub lookup-only_osds :
      (k : ℤ) (m : NodeMap W) → IsMap m → lookup k (only_osds m) ≡ if_osd (lookup k m)
  unfolding lookup only_osds
  lookup-only_osds k [] h = refl
  lookup-only_osds k ((j, l) ∷ m) h = elim (Bool-cases (string_beq l.type "osd")) [
    | inl t ↦ elim (Bool-cases (beq j k)) [
      | inl same ↦ rw (t, same, t)
      | inr other ↦ rw (t, other) (lookup-only_osds k m h.1)
    ]
    | inr f ↦ elim (Bool-cases (beq j k)) [
      | inl same ↦
          rw (f, same, f)
            (lookup-only_osds-Fresh k m (subst (λ i. Fresh i m) ((eqb_ℤ_iff j k).0 same) h.0))
      | inr other ↦ rw (f, other) (lookup-only_osds k m h.1)
    ]
  ]
