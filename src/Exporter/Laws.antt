-- ===== src/Exporter/Laws.antt =====
-- ceph/exporter.go: how the collector of the mirrors comes and goes.
use ceph_exporter.Base.{
  String, ◌≡◌, refl, sym, ap, ◌∙◌, inl, inr, Option, none, some, [], ◌∷◌, lookup, lookup-insert,
  lookup-delete, beq, string_eq, eq_iff, if◌then◌else◌, Bool-cases, Option-cases,
}
use ceph_exporter.Version.{Version}
use ceph_exporter.Exporter.{rbd_mirror_status, VersionedCollectors, Collectors, with_rbd_mirror}
use ceph_exporter.Exporter.Versions.{Gabs, Counts}

module _ {V : Type 0} (gabs : Gabs V) (cs : VersionedCollectors V) where
  open cs use {Collector, new}

  -- The collector of the mirrors after the setting is renewed, by the entry of "rbd-mirror" in the
  -- versions and the collector there was.
  unfoldable pub mirror_after : Version → Option (Counts gabs) → Option Collector → Option Collector
  mirror_after v (some (count ∷ counts)) none = some (new (rbd_mirror_status v))
  mirror_after v (some (count ∷ counts)) (some c) = some c
  mirror_after v (some []) old = old
  mirror_after v none old = none

  -- A collector that is kept is the one that its name gave.
  kept :
      (name : String) (m : Collectors gabs cs)
      → lookup name m ≡ (if beq "rbdMirror" name then lookup "rbdMirror" m else lookup name m)
  kept name m = elim (Bool-cases (beq "rbdMirror" name)) [
    | inl e ↦ rw e (ap (λ n. lookup n m) (sym ((eq_iff "rbdMirror" name).0 e)))
    | inr e ↦ rw e refl
  ]

  -- `setRbdMirror` changes the collector named "rbdMirror" alone. Where the versions have an
  -- "rbd-mirror" that is not empty there is one afterwards, which is the old one if there was one;
  -- where it is empty nothing changes; and where it is missing the collector is removed.
  pub with_rbd_mirror-mirror_after :
      (v : Version) (entry : Option (Counts gabs)) (name : String) (m : Collectors gabs cs)
      → lookup name (with_rbd_mirror gabs cs v entry m) ≡ (
          if beq "rbdMirror" name
          then mirror_after v entry (lookup "rbdMirror" m)
          else lookup name m)
  unfolding mirror_after
  with_rbd_mirror-mirror_after v none name m = lookup-delete "rbdMirror" name m
  with_rbd_mirror-mirror_after v (some []) name m = kept name m
  with_rbd_mirror-mirror_after v (some (count ∷ counts)) name m =
      elim (Option-cases (lookup "rbdMirror" m)) [
        | inl e ↦ rw e (lookup-insert "rbdMirror" name (new (rbd_mirror_status v)) m)
        | inr (c, e) ↦ rw e (kept name m ∙ rw e refl)
      ]
