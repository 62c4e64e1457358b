-- ===== src/Osd/Labels/Ancestors.antt =====
-- `findParent` and the nearest ancestor of a kind.
use mathlib.Core.Path.{subst}
use mathlib.Core.Option.{some-injective}
use ceph_exporter.Base.{
  ℕ, zero, suc, ◌<◌, String, ◌≡◌, sym, ◌∙◌, true, false, Option, none, some, arith, string_beq,
  lookup, int_eq, Option-cases, Bool-cases, inl, inr,
}
use ceph_exporter.Osd.Labels.{OsdLabel, NodeMap, find_parent}

-- A rank that falls from a node to each node below it: the tree has no cycle.
abbrev pub IsRanked : {W : Type 0} → NodeMap W → (OsdLabel W → ℕ) → Type 0
IsRanked {W} m rank = (l p : OsdLabel W) → lookup l.parent m ≡ some p → rank p < rank l

module _ {W : Type 0} (m : NodeMap W) (kind : String) where
  -- `a` is the nearest node above `l` that has the kind.
  pub data Nearest (a : OsdLabel W) : OsdLabel W → Type 0 where
    here :
        {l : OsdLabel W} → lookup l.parent m ≡ some a → string_beq a.type kind ≡ true → Nearest a l
    above :
        {l p : OsdLabel W}
        → lookup l.parent m ≡ some p
        → string_beq p.type kind ≡ false
        → Nearest a p
        → Nearest a l

  -- No node above `l` has the kind, and the climb ends at a node without parent.
  pub data Nowhere : OsdLabel W → Type 0 where
    top : {l : OsdLabel W} → lookup l.parent m ≡ none → Nowhere l
    higher :
        {l p : OsdLabel W}
        → lookup l.parent m ≡ some p
        → string_beq p.type kind ≡ false
        → Nowhere p
        → Nowhere l

  -- What a finished climb says.
  abbrev pub Tells : OsdLabel W → Option (OsdLabel W) → Type 0
  Tells l none = Nowhere l
  Tells l (some a) = Nearest a l

  Tells-above :
      (l p : OsdLabel W) (o : Option (OsdLabel W))
      → lookup l.parent m ≡ some p
      → string_beq p.type kind ≡ false
      → Tells p o
      → Tells l o
  Tells-above l p none e f t = higher e f t
  Tells-above l p (some a) e f t = above e f t

  module _ (fuel : ℕ) (l : OsdLabel W) where
    find_parent_top : lookup l.parent m ≡ none → find_parent (suc fuel) m l kind ≡ some none
    unfolding find_parent
    find_parent_top e = rw (e, find_parent)

    module _ (p : OsdLabel W) (e : lookup l.parent m ≡ some p) where
      find_parent_hit :
          string_beq p.type kind ≡ true → find_parent (suc fuel) m l kind ≡ some (some p)
      unfolding find_parent
      find_parent_hit t = rw (e, t, find_parent)

      find_parent_up :
          string_beq p.type kind ≡ false
          → find_parent (suc fuel) m l kind ≡ find_parent fuel m p kind
      unfolding find_parent
      find_parent_up f = rw (e, f, find_parent)

  pub find_parent-Tells :
      (fuel : ℕ) (l : OsdLabel W) (o : Option (OsdLabel W))
      → find_parent fuel m l kind ≡ some o
      → Tells l o
  unfolding find_parent
  find_parent-Tells zero l o h = absurd (cc)
  find_parent-Tells (suc fuel) l o h = elim (Option-cases (lookup l.parent m)) [
    | inl e ↦ subst (Tells l) (some-injective _ _ (sym (find_parent_top fuel l e) ∙ h)) (top e)
    | inr (p, e) ↦ elim (Bool-cases (string_beq p.type kind)) [
      | inl t ↦
          subst (Tells l) (some-injective _ _ (sym (find_parent_hit fuel l p e t) ∙ h)) (here e t)
      | inr f ↦
          Tells-above l p o e f (find_parent-Tells fuel p o (sym (find_parent_up fuel l p e f) ∙ h))
    ]
  ]

  -- The climb ends within any fuel above the rank.
  pub find_parent_total :
      (rank : OsdLabel W → ℕ) (fuel : ℕ) (l : OsdLabel W)
      → IsRanked m rank
      → rank l < fuel
      → (o : Option (OsdLabel W)) × (find_parent fuel m l kind ≡ some o)
  find_parent_total rank zero l h b = elim b [ ]
  find_parent_total rank (suc fuel) l h b = elim (Option-cases (lookup l.parent m)) [
    | inl e ↦ (none, find_parent_top fuel l e)
    | inr (p, e) ↦ elim (Bool-cases (string_beq p.type kind)) [
      | inl t ↦ (some p, find_parent_hit fuel l p e t)
      | inr f ↦
          let (o, q) = find_parent_total rank fuel p h (omega (arith, h l p e)) in
          (o, find_parent_up fuel l p e f ∙ q)
    ]
  ]
