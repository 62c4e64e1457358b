-- ===== src/Exporter/Reachable.antt =====
-- ceph/exporter.go: an exporter through its life, which is any sequence of scrapes and of calls of
-- `Describe`, each with the replies that the cluster gives then.
use ceph_exporter.Base.{
  String, ◌≡◌, refl, sym, ap, ◌∙◌, Bool, true, false, Option, none, some, List, [], ◌∷◌, lookup,
  beq, string_eq, Bool-cases, inl, inr, ℤ, >>=-eq-some,
}
use ceph_exporter.Version.{Version}
use ceph_exporter.Conn.{Conn}
use ceph_exporter.Prometheus.{Metric}
use ceph_exporter.Exporter.{
  VersionedCollectors, version_reply, Collectors, init_collectors, new_exporter, Exporter,
  versions_reply, describe_all, describe_renewed, describe, collect_all, renew, collect_renewed,
  collect,
}
use ceph_exporter.Exporter.Versions.{Gabs}
use ceph_exporter.Exporter.Collection.{collect_all-split}
use ceph_exporter.Exporter.Laws.{with_rbd_mirror-mirror_after}
use mathlib.Core.Option.{some-injective}
use mathlib.Core.Path.{subst}

abbrev is_some {ℓ} : {A : Type ℓ} → Option A → Bool
is_some none = false
is_some (some a) = true

module _ {V : Type 0} (gabs : Gabs V) (cs : VersionedCollectors V) where
  open cs use {Collector}

  abbrev pub has : String → Collectors gabs cs → Bool
  has name m = is_some (lookup name m)

  pub data Reachable : Exporter gabs cs → Type 0 where
    started :
        (conn : Conn) (cluster config user : String) (rgw_mode mds_mode : ℤ) {e : Exporter gabs cs}
        → new_exporter gabs cs conn cluster config user rgw_mode mds_mode ≡ some e
        → Reachable e
    described :
        {e : Exporter gabs cs} (conn : Conn) → Reachable e → Reachable (describe gabs cs e conn).0
    collected :
        {e e' : Exporter gabs cs} {outs : List (List (Metric V))} (conn : Conn)
        → Reachable e
        → collect gabs cs e conn ≡ some (e', outs)
        → Reachable e'

  -- But for the mirrors', the exporter has the collectors of its configuration.
  abbrev pub IsConfigured : Exporter gabs cs → Type 0
  IsConfigured e =
      (name : String)
      → beq "rbdMirror" name ≡ false
      → has name e.cc ≡ has name (init_collectors gabs cs e.rgw_mode e.mds_mode)

  has-describe_all :
      (conn : Conn) (name : String) (m : Collectors gabs cs)
      → has name (describe_all gabs cs conn m).0 ≡ has name m
  unfolding describe_all lookup
  has-describe_all conn name [] = refl
  has-describe_all conn name ((k, c) ∷ rest) = elim (Bool-cases (beq k name)) [
    | inl e ↦ rw e refl
    | inr e ↦ rw e (has-describe_all conn name rest)
  ]

  has-collect_all :
      (conn : Conn) (v : Version) (name : String) (m m' : Collectors gabs cs)
      (outs : List (List (Metric V)))
      → collect_all gabs cs conn v m ≡ some (m', outs)
      → has name m' ≡ has name m
  unfolding collect_all lookup
  has-collect_all conn v name [] m' outs h = sym (ap (λ r. has name r.0) (some-injective _ _ h))
  has-collect_all conn v name ((k, c) ∷ rest) m' outs h =
      let (c', ms, rest', outs', h1, h2, m_lem, _) =
        collect_all-split gabs cs conn v k c rest m' outs h in
      ap (has name) m_lem ∙ elim (Bool-cases (beq k name)) [
        | inl e ↦ rw e refl
        | inr e ↦ rw e (has-collect_all conn v name rest rest' outs' h2)
      ]

  renew-IsConfigured :
      (v : Option Version) (versions : Option (List (String × List (String × V))))
      (e : Exporter gabs cs)
      → IsConfigured e
      → IsConfigured (renew gabs cs v versions e).0
  unfolding renew
  renew-IsConfigured none versions e h = h
  renew-IsConfigured (some v) none e h = h
  renew-IsConfigured (some v) (some versions) e h = λ name d.
      ap is_some (
        with_rbd_mirror-mirror_after gabs cs v (lookup "rbd-mirror" versions) name e.cc ∙ rw d refl)
      ∙ h name d

  describe-IsConfigured :
      (e : Exporter gabs cs) (conn : Conn)
      → IsConfigured e
      → IsConfigured (describe gabs cs e conn).0
  unfolding describe describe_renewed
  describe-IsConfigured e conn h =
      go (renew gabs cs (version_reply conn) (versions_reply gabs cs conn) e)
        (renew-IsConfigured (version_reply conn) (versions_reply gabs cs conn) e h)
    where
      go :
          (r : Exporter gabs cs × Bool)
          → IsConfigured r.0
          → IsConfigured (describe_renewed gabs cs conn r).0
      go (e, false) h = h
      go (e, true) h = λ name d. has-describe_all conn name e.cc ∙ h name d

  collect-IsConfigured :
      (e e' : Exporter gabs cs) (outs : List (List (Metric V))) (conn : Conn)
      → IsConfigured e
      → collect gabs cs e conn ≡ some (e', outs)
      → IsConfigured e'
  unfolding collect collect_renewed
  collect-IsConfigured e e' outs conn h =
      go (renew gabs cs (version_reply conn) (versions_reply gabs cs conn) e)
        (renew-IsConfigured (version_reply conn) (versions_reply gabs cs conn) e h)
    where
      go :
          (r : Exporter gabs cs × Bool)
          → IsConfigured r.0
          → collect_renewed gabs cs conn r ≡ some (e', outs)
          → IsConfigured e'
      go (e, false) h k = subst IsConfigured (ap (λ r. r.0) (some-injective _ _ k)) h
      go (e, true) h k =
          let ((cc', outs'), l, q) = >>=-eq-some (collect_all gabs cs conn e.version e.cc) _ k in
          subst IsConfigured (ap (λ r. r.0) (some-injective _ _ q))
            (λ name d. has-collect_all conn e.version name e.cc cc' outs' l ∙ h name d)

  -- At any time in the life of an exporter, the collectors that it has, but for the mirrors', are
  -- those of its configuration: the standard ones, and those of the gateways and of the metadata
  -- servers as the modes say. None is lost or added by a scrape, also by one that fails.
  pub Reachable-IsConfigured : (e : Exporter gabs cs) → Reachable e → IsConfigured e
  unfolding new_exporter
  Reachable-IsConfigured e (started conn cluster config user rgw_mode mds_mode h) =
      let (v, k, eq) = >>=-eq-some (version_reply conn) _ h in
      subst IsConfigured (some-injective _ _ eq) (λ name d. refl)
  Reachable-IsConfigured _ (described {e} conn r) =
      describe-IsConfigured e conn (Reachable-IsConfigured e r)
  Reachable-IsConfigured e' (collected {e} {outs = outs} conn r k) =
      collect-IsConfigured e e' outs conn (Reachable-IsConfigured e r) k
