-- ===== src/Collectors/Fit.antt =====
-- The maps of collectors of ceph/exporter.go in which each collector keeps metrics that are well
-- formed.
use ceph_exporter.Base.{
  String, ◌≡◌, refl, sym, some, [], ◌∷◌, lookup, insert, delete, string_eq, beq, Bool-cases, inl,
  inr,
}
use mathlib.Core.List.{Memᴰ}
use mathlib.Core.Option.{some-injective}
use mathlib.Core.Path.{subst}
use ceph_exporter.Float.{Float64}
use ceph_exporter.Exporter.{
  CollectorKind, cluster_usage, pool_usage, pool_info, cluster_health, mon, osd, crashes, rgw, mds,
  rbd_mirror_status, version_reply, versions_reply,
}
use ceph_exporter.Exporter as Exporter
use ceph_exporter.Collectors.{Host, AnyCollector, collectors}
use ceph_exporter.Collectors.WellFormed.{IsFit}

module _ (fl : Float64) (host : Host fl) where
  open fl use {Value}
  open host use {arrays}

  abbrev cs : Exporter.VersionedCollectors Value
  cs = collectors fl host

  -- All collectors of an exporter fit.
  abbrev pub AreFit : Exporter.Collectors arrays.gabs cs → Type 0
  AreFit m = (x : String × AnyCollector fl host) → Memᴰ x m → IsFit fl host x.1

  pub cons-AreFit :
      (name : String) (c : AnyCollector fl host) (m : Exporter.Collectors arrays.gabs cs)
      → IsFit fl host c
      → AreFit m
      → AreFit ((name, c) ∷ m)
  cons-AreFit name c m h k x (Memᴰ.head e) = subst (λ x. IsFit fl host x.1) (sym e) h
  cons-AreFit name c m h k x (Memᴰ.tail i) = k x i

  pub insert-AreFit :
      (name : String) (c : AnyCollector fl host) (m : Exporter.Collectors arrays.gabs cs)
      → IsFit fl host c
      → AreFit m
      → AreFit (insert name c m)
  unfolding insert
  insert-AreFit name c [] h k = cons-AreFit name c [] h k
  insert-AreFit name c ((key, d) ∷ m) h k = elim (Bool-cases (beq key name)) [
    | inl e ↦ rw e (cons-AreFit key c m h (λ x i. k x (Memᴰ.tail i)))
    | inr e ↦ rw e (
        cons-AreFit key d (insert name c m) (k (key, d) (Memᴰ.head refl))
          (insert-AreFit name c m h (λ x i. k x (Memᴰ.tail i))))
  ]

  pub delete-AreFit :
      (name : String) (m : Exporter.Collectors arrays.gabs cs) → AreFit m → AreFit (delete name m)
  unfolding delete
  delete-AreFit name [] k = k
  delete-AreFit name ((key, d) ∷ m) k = elim (Bool-cases (beq key name)) [
    | inl e ↦ rw e (delete-AreFit name m (λ x i. k x (Memᴰ.tail i)))
    | inr e ↦ rw e (
        cons-AreFit key d (delete name m) (k (key, d) (Memᴰ.head refl))
          (delete-AreFit name m (λ x i. k x (Memᴰ.tail i))))
  ]

  pub lookup-IsFit :
      (name : String) (m : Exporter.Collectors arrays.gabs cs) (c : AnyCollector fl host)
      → AreFit m
      → lookup name m ≡ some c
      → IsFit fl host c
  unfolding lookup
  lookup-IsFit name [] c k h = cc
  lookup-IsFit name ((key, d) ∷ m) c k h = elim (Bool-cases (beq key name)) [
    | inl e ↦ subst (IsFit fl host) (some-injective _ _ (rw e at h)) (k (key, d) (Memᴰ.head refl))
    | inr e ↦ lookup-IsFit name m c (λ x i. k x (Memᴰ.tail i)) (rw e at h)
  ]
