-- ===== src/Osd/Labels/Laws.antt =====
-- What `buildOSDLabels` makes of a CRUSH tree.
use mathlib.Core.Path.{subst}
use mathlib.Core.Option.{some-injective}
use ceph_exporter.Base.{
  ℕ, suc, ◌<◌, ◌≤◌, String, ◌≡◌, refl, sym, ap, ◌∙◌, true, false, inl, inr, Option, none, some,
  List, [], ◌∷◌, ℤ, arith, string_beq, beq, int_eq, lookup, IsMap, Fresh, length, Bool-cases,
  >>=-eq-some,
}
use ceph_exporter.Osd.Labels.{
  TreeNode, OsdLabel, NodeMap, parent_map, find_parent, name_of, fill, fill_all, only_osds,
  build_osd_labels,
}
use ceph_exporter.Osd.Labels.Tables.{parent_map-IsMap, lookup-only_osds, if_osd}
use ceph_exporter.Osd.Labels.Ancestors.{Tells, find_parent-Tells, IsRanked, find_parent_total}

module _ {W : Type 0} where
  -- The name is that of the nearest node of the kind above `l`, or empty if there is none.
  abbrev pub IsNamed : NodeMap W → String → OsdLabel W → String → Type 0
  IsNamed m kind l s = (o : Option (OsdLabel W)) × Tells m kind l o × (s ≡ name_of o)

  pub record IsFilled (m : NodeMap W) (l l' : OsdLabel W) : Type 0 where
    pub host : IsNamed m "host" l l'.host
    pub rack : IsNamed m "rack" l l'.rack
    pub root : IsNamed m "root" l l'.root
    pub others : l' ≡ record l { host = l'.host; rack = l'.rack; root = l'.root }

  fill-IsFilled :
      (fuel : ℕ) (m : NodeMap W) (l l' : OsdLabel W) → fill fuel m l ≡ some l' → IsFilled m l l'
  unfolding fill
  fill-IsFilled fuel m l l' h =
      let (a, ea, ha) = >>=-eq-some (find_parent fuel m l "host") _ h in
      let (b, eb, hb) = >>=-eq-some (find_parent fuel m l "rack") _ ha in
      let (c, ec, hc) = >>=-eq-some (find_parent fuel m l "root") _ hb in
      go a b c (find_parent-Tells m "host" fuel l a ea) (find_parent-Tells m "rack" fuel l b eb)
        (find_parent-Tells m "root" fuel l c ec) (some-injective _ _ hc)
    where
      go :
          (a b c : Option (OsdLabel W))
          → Tells m "host" l a
          → Tells m "rack" l b
          → Tells m "root" l c
          → record l { host = name_of a; rack = name_of b; root = name_of c } ≡ l'
          → IsFilled m l l'
      go a b c ta tb tc e = record {
        host = (a, ta, ap (λ (x : OsdLabel W). x.host) (sym e));
        rack = (b, tb, ap (λ (x : OsdLabel W). x.rack) (sym e));
        root = (c, tc, ap (λ (x : OsdLabel W). x.root) (sym e));
        others = cc e;
      }

  -- What stands under a key of the table before and after it is filled.
  abbrev Filled : NodeMap W → Option (OsdLabel W) → Option (OsdLabel W) → Type 0
  Filled m none none = Unit
  Filled m none (some l') = ⊥
  Filled m (some l) none = ⊥
  Filled m (some l) (some l') = IsFilled m l l'

  lookup-fill_all :
      (fuel : ℕ) (m : NodeMap W) (k : ℤ) (rest rest' : NodeMap W)
      → fill_all fuel m rest ≡ some rest'
      → Filled m (lookup k rest) (lookup k rest')
  unfolding fill_all lookup
  lookup-fill_all fuel m k [] rest' h =
      subst (λ q. Filled m none (lookup k q)) (some-injective _ _ h) tt
  lookup-fill_all fuel m k ((j, l) ∷ rest) rest' h =
      let (l', el, hl) = >>=-eq-some (fill fuel m l) _ h in
      let (r, er, hr) = >>=-eq-some (fill_all fuel m rest) _ hl in
      subst (λ q. Filled m (lookup k ((j, l) ∷ rest)) (lookup k q)) (some-injective _ _ hr)
        (elim (Bool-cases (beq j k)) [
          | inl same ↦ rw same (fill-IsFilled fuel m l l' el)
          | inr other ↦ rw other (lookup-fill_all fuel m k rest r er)
        ])

  Fresh-fill_all :
      (fuel : ℕ) (m : NodeMap W) (k : ℤ) (rest rest' : NodeMap W)
      → fill_all fuel m rest ≡ some rest'
      → Fresh k rest
      → Fresh k rest'
  unfolding fill_all
  Fresh-fill_all fuel m k [] rest' h f = subst (Fresh k) (some-injective _ _ h) tt
  Fresh-fill_all fuel m k ((j, l) ∷ rest) rest' h f =
      let (l', el, hl) = >>=-eq-some (fill fuel m l) _ h in
      let (r, er, hr) = >>=-eq-some (fill_all fuel m rest) _ hl in
      subst (Fresh k) (some-injective _ _ hr) (f.0, Fresh-fill_all fuel m k rest r er f.1)

  fill_all-IsMap :
      (fuel : ℕ) (m rest rest' : NodeMap W)
      → fill_all fuel m rest ≡ some rest'
      → IsMap rest
      → IsMap rest'
  unfolding fill_all
  fill_all-IsMap fuel m [] rest' h f = subst IsMap (some-injective _ _ h) tt
  fill_all-IsMap fuel m ((j, l) ∷ rest) rest' h f =
      let (l', el, hl) = >>=-eq-some (fill fuel m l) _ h in
      let (r, er, hr) = >>=-eq-some (fill_all fuel m rest) _ hl in
      subst IsMap (some-injective _ _ hr)
        (Fresh-fill_all fuel m j rest r er f.0, fill_all-IsMap fuel m rest r er f.1)

  -- What the result holds for a node of the table.
  abbrev pub IsLabelled : NodeMap W → Option (OsdLabel W) → Option (OsdLabel W) → Type 0
  IsLabelled m none none = Unit
  IsLabelled m none (some l') = ⊥
  IsLabelled m (some l) none = string_beq l.type "osd" ≡ false
  IsLabelled m (some l) (some l') = (string_beq l.type "osd" ≡ true) × IsFilled m l l'

  if_osd-IsLabelled :
      (m : NodeMap W) (o o' : Option (OsdLabel W)) → Filled m o o' → IsLabelled m o (if_osd o')
  if_osd-IsLabelled m none none h = tt
  if_osd-IsLabelled m none (some l') h = absurd h
  if_osd-IsLabelled m (some l) none h = absurd h
  if_osd-IsLabelled m (some l) (some l') h = elim (Bool-cases (string_beq l'.type "osd")) [
    | inl t ↦ rw t (same_type ∙ t, h)
    | inr f ↦ rw f (same_type ∙ f)
  ]
    where
      same_type : string_beq l.type "osd" ≡ string_beq l'.type "osd"
      same_type = ap (λ (x : OsdLabel W). string_beq x.type "osd") (sym h.others)

  fill_total :
      (m : NodeMap W) (rank : OsdLabel W → ℕ) (fuel : ℕ) (l : OsdLabel W)
      → IsRanked m rank
      → rank l < fuel
      → (l' : OsdLabel W) × (fill fuel m l ≡ some l')
  unfolding fill
  fill_total m rank fuel l h b =
      let (x, ex) = find_parent_total m "host" rank fuel l h b in
      let (y, ey) = find_parent_total m "rack" rank fuel l h b in
      let (z, ez) = find_parent_total m "root" rank fuel l h b in
      (record l { host = name_of x; rack = name_of y; root = name_of z }, rw (ex, ey, ez))

  fill_all_total :
      (m : NodeMap W) (rank : OsdLabel W → ℕ) (fuel : ℕ) (rest : NodeMap W)
      → IsRanked m rank
      → ((l : OsdLabel W) → rank l < fuel)
      → (rest' : NodeMap W) × (fill_all fuel m rest ≡ some rest')
  unfolding fill_all
  fill_all_total m rank fuel [] h b = ([], refl)
  fill_all_total m rank fuel ((j, l) ∷ rest) h b =
      let (l', e) = fill_total m rank fuel l h (b l) in
      let (rest', e') = fill_all_total m rank fuel rest h b in ((j, l') ∷ rest', rw (e, e'))

  -- Where the tree has no cycle, by a rank of at most the number of its nodes that falls from each
  -- node to its children, `buildOSDLabels` ends; and under each id its result has the node of the
  -- tree exactly when that is an OSD, unchanged but for the host, the rack and the root, each of
  -- which is the name of the nearest node of that type above it, or empty if there is none.
  pub build_osd_labels-IsLabelled :
      (ns : List (TreeNode W)) (rank : OsdLabel W → ℕ)
      → IsRanked (parent_map ns) rank
      → ((l : OsdLabel W) → rank l ≤ length (parent_map ns))
      → (r : NodeMap W) × (build_osd_labels ns ≡ some r)
        × ((id : ℤ) → IsLabelled (parent_map ns) (lookup id (parent_map ns)) (lookup id r))
  unfolding build_osd_labels
  build_osd_labels-IsLabelled ns rank h b =
      let m = parent_map ns in
      let (filled, e) = fill_all_total m rank (suc (length m)) m h (λ l. omega (arith, b l)) in
      (
        only_osds filled,
        rw e,
        λ id.
            subst (IsLabelled m (lookup id m))
              (sym (
                lookup-only_osds id filled
                  (fill_all-IsMap (suc (length m)) m m filled e (parent_map-IsMap ns))))
              (if_osd-IsLabelled m _ _ (lookup-fill_all (suc (length m)) m id m filled e)),
      )
