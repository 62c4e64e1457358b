-- ===== src/Descriptors.antt =====
-- What the collectors describe to Prometheus, over the whole exporter of ceph/exporter.go.
use ceph_exporter.Base.{
  String, ◌≡◌, refl, Bool, true, false, not, ◌&&◌, ◌||◌, Option, none, some, List, [], ◌∷◌, map, ℤ,
  pos, eqb_ℤ, string_beq, if◌then◌else◌, arith, Bool-cases, inl, inr, lookup, insert, delete,
  string_eq,
}
use ceph_exporter.Prometheus.{Desc, Metric}
use ceph_exporter.Conn.{Conn}
use ceph_exporter.Version.{Version, is_at_least, pacific}
use ceph_exporter.Exporter.{
  CollectorKind, cluster_usage, pool_usage, pool_info, cluster_health, mon, osd, crashes, rgw, mds,
  rbd_mirror_status, VersionedCollectors, standard_collectors, init_collectors, with_rbd_mirror,
  describe_all,
}
use ceph_exporter.Exporter.Versions.{Gabs, Counts}
use ceph_exporter.Crashes
use ceph_exporter.ClusterUsage
use ceph_exporter.RbdMirror
use ceph_exporter.PoolInfo
use ceph_exporter.PoolUsage
use ceph_exporter.Rgw
use ceph_exporter.Mds
use ceph_exporter.Monitors
use ceph_exporter.Osd.Collector as Osd
use ceph_exporter.Health.Scrape as Health

-- Describe of a collector that was made for the exporter.
abbrev pub descriptors : CollectorKind → List Desc
descriptors cluster_usage = ClusterUsage.descriptors
descriptors pool_usage = PoolUsage.descriptors
descriptors pool_info = PoolInfo.descriptors
descriptors cluster_health = Health.descriptors
descriptors mon = Monitors.descriptors
descriptors osd = Osd.descriptors
descriptors crashes = Crashes.descriptors
descriptors (rgw background) = Rgw.descriptors
descriptors (mds background) = Mds.descriptors
descriptors (rbd_mirror_status v) = RbdMirror.descriptors (is_at_least v pacific)

-- The collectors by what they describe; how they collect is left open.
abbrev pub describing :
    {V : Type 0} → (CollectorKind → Conn → Version → List (Metric V)) → VersionedCollectors V
describing collects = record {
  Collector = CollectorKind;
  new = λ kind. kind;
  describe = λ kind conn. (kind, descriptors kind);
  collect = λ kind conn v. some (kind, collects kind conn v);
}

abbrev pub is_among : String → List String → Bool
is_among name [] = false
is_among name (other ∷ rest) = string_beq name other || is_among name rest

abbrev pub are_distinct : List String → Bool
are_distinct [] = true
are_distinct (name ∷ rest) = not (is_among name rest) && are_distinct rest

abbrev pub name_of : Desc → String
name_of d = d.name

-- A test that holds for all four Booleans.
abbrev for_both : (Bool → Bool) → Bool
for_both f = f true && f false

for_both_lem : (f : Bool → Bool) → for_both f ≡ true → (b : Bool) → f b ≡ true
for_both_lem f h true = ground arith
for_both_lem f h false = ground arith

abbrev for_all_four : (Bool → Bool → Bool → Bool → Bool) → Bool
for_all_four f = for_both λ a. for_both λ b. for_both λ c. for_both λ d. f a b c d

for_all_four_lem :
    (f : Bool → Bool → Bool → Bool → Bool)
    → for_all_four f ≡ true
    → (a b c d : Bool) → f a b c d ≡ true
for_all_four_lem f h a b c d =
    for_both_lem (λ d. f a b c d)
      (for_both_lem (λ c. for_both λ d. f a b c d)
        (for_both_lem (λ b. for_both λ c. for_both λ d. f a b c d)
          (for_both_lem (λ a. for_both λ b. for_both λ c. for_both λ d. f a b c d) h a) b)
        c)
      d

module _ {V : Type 0} (gabs : Gabs V)
    (collects : CollectorKind → Conn → Version → List (Metric V)) where
  abbrev cs : VersionedCollectors V
  cs = describing collects

  unfoldable pub names : Conn → Version → Option (Counts gabs) → ℤ → ℤ → List String
  unfolding describe_all init_collectors
  names conn v counts rgw_mode mds_mode =
      map name_of
        (describe_all gabs cs conn
          (with_rbd_mirror gabs cs v counts (init_collectors gabs cs rgw_mode mds_mode))).1

  -- The same, by the tests of the modes.
  abbrev mode_of :
      Bool
      → Bool
      → String
      → (Bool → CollectorKind)
      → List (String × CollectorKind)
      → List (String × CollectorKind)
  mode_of one two name kind m =
      if one then insert name (kind false) m else if two then insert name (kind true) m else m

  abbrev test : Conn → Version → Option (Counts gabs) → Bool → Bool → Bool → Bool → Bool
  test conn v counts a b c d = are_distinct (
      map name_of
        (describe_all gabs cs conn (
          with_rbd_mirror gabs cs v counts
            (mode_of c d "mds" mds (mode_of a b "rgw" rgw (standard_collectors gabs cs))))).1)

  -- No two metrics that the collectors of an exporter describe have the same name, in whatever modes
  -- it runs and whether or not it has a mirror and one of Pacific, so that it can be registered.
  pub names-are_distinct :
      (conn : Conn) (v : Version) (counts : Option (Counts gabs)) (rgw_mode mds_mode : ℤ)
      → are_distinct (names conn v counts rgw_mode mds_mode) ≡ true
  unfolding names describe_all init_collectors insert lookup delete
  names-are_distinct conn v none rgw_mode mds_mode =
      for_all_four_lem (test conn v none) refl (eqb_ℤ rgw_mode (pos 1)) (eqb_ℤ rgw_mode (pos 2))
        (eqb_ℤ mds_mode (pos 1)) (eqb_ℤ mds_mode (pos 2))
  names-are_distinct conn v (some []) rgw_mode mds_mode =
      for_all_four_lem (test conn v (some [])) refl (eqb_ℤ rgw_mode (pos 1))
        (eqb_ℤ rgw_mode (pos 2)) (eqb_ℤ mds_mode (pos 1)) (eqb_ℤ mds_mode (pos 2))
  names-are_distinct conn v (some (count ∷ counts)) rgw_mode mds_mode =
      for_all_four_lem (test conn v (some (count ∷ counts))) (with_mirror count counts)
        (eqb_ℤ rgw_mode (pos 1)) (eqb_ℤ rgw_mode (pos 2)) (eqb_ℤ mds_mode (pos 1))
        (eqb_ℤ mds_mode (pos 2))
    where
      with_mirror :
          (count : String × V) (counts : List (String × V))
          → for_all_four (test conn v (some (count ∷ counts))) ≡ true
      with_mirror count counts = elim (Bool-cases (is_at_least v pacific)) [
        | inl e ↦ rw e refl
        | inr e ↦ rw e refl
      ]
