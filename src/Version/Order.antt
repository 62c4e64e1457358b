-- ===== src/Version/Order.antt =====
-- The order that `IsAtLeast` decides.
use ceph_exporter.Base.{◌+◌, ◌<◌, ◌≡◌, ◌⊎◌, ◌↔◌, true, arith, ℤ, pos_part, neg_part}
use ceph_exporter.Version.{Version, is_at_least}

infix 50 ◌<ℤ◌
abbrev pub ◌<ℤ◌ : ℤ → ℤ → Type 0
a <ℤ b = pos_part a + neg_part b < pos_part b + neg_part a

-- The lexicographic order on major, minor, patch and revision; the commit does not count.
abbrev pub LexLe : Version → Version → Type 0
LexLe c v =
    (c.major <ℤ v.major)
    ⊎ (c.major ≡ v.major)
      × ((c.minor <ℤ v.minor)
          ⊎ (c.minor ≡ v.minor)
            × ((c.patch <ℤ v.patch)
                ⊎ (c.patch ≡ v.patch) × ((c.revision <ℤ v.revision) ⊎ (c.revision ≡ v.revision))))

-- `is_at_least v c` answers true exactly when `c` comes before `v`, or is the same version up to
-- the commit, in the lexicographic order on major, minor, patch and revision.
pub is_at_least-LexLe : (v c : Version) → (is_at_least v c ≡ true) ↔ LexLe c v
unfolding is_at_least
is_at_least-LexLe v c = ground arith

-- The same version, whatever its commit.
abbrev pub SameNumbers : Version → Version → Type 0
SameNumbers v w =
    (v.major ≡ w.major) × (v.minor ≡ w.minor) × (v.patch ≡ w.patch) × (v.revision ≡ w.revision)

LexLe-trans : (u v w : Version) → LexLe u v → LexLe v w → LexLe u w
LexLe-trans u v w h k = ground arith

is_at_least_trans :
    (u v w : Version) → is_at_least u v ≡ true → is_at_least v w ≡ true → is_at_least u w ≡ true
is_at_least_trans u v w h k =
    (is_at_least-LexLe u w).1
      (LexLe-trans w v u ((is_at_least-LexLe v w).0 k) ((is_at_least-LexLe u v).0 h))

is_at_least_total : (v w : Version) → (is_at_least v w ≡ true) ⊎ (is_at_least w v ≡ true)
unfolding is_at_least
is_at_least_total v w = ground arith

is_at_least_antisymm :
    (v w : Version) → is_at_least v w ≡ true → is_at_least w v ≡ true → SameNumbers v w
unfolding is_at_least
is_at_least_antisymm v w h k = ground arith

-- A total preorder, whose classes are the versions with the same four numbers.
pub record IsVersionOrder (le : Version → Version → Type 0) : Type 0 where
  pub reflexive : (v : Version) → le v v
  pub transitive : (u v w : Version) → le u v → le v w → le u w
  pub total : (v w : Version) → le v w ⊎ le w v
  pub antisymmetric : (v w : Version) → le v w → le w v → SameNumbers v w

is_at_least_refl : (v : Version) → is_at_least v v ≡ true
unfolding is_at_least
is_at_least_refl v = ground arith

-- `is_at_least` is a total preorder on versions, and two versions that are each at least the other
-- differ in nothing but the commit.
pub is_at_least-IsVersionOrder : IsVersionOrder (λ v w. is_at_least v w ≡ true)
is_at_least-IsVersionOrder = record {
  reflexive = is_at_least_refl;
  transitive = is_at_least_trans;
  total = is_at_least_total;
  antisymmetric = is_at_least_antisymm;
}
