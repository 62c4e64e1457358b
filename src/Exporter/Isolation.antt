-- ===== src/Exporter/Isolation.antt =====
-- ceph/exporter.go: what scrapes and calls of `Describe` make of each of the collectors.
use ceph_exporter.Base.{
  String, ◌≡◌, refl, sym, ap, ◌∙◌, Option, none, some, List, [], ◌∷◌, lookup, beq, string_eq,
  eq_iff, ◌>>=◌, >>=-eq-some, Bool-cases, inl, inr, if◌then◌else◌,
}
use ceph_exporter.Version.{Version}
use ceph_exporter.Conn.{Conn}
use ceph_exporter.Prometheus.{Metric}
use ceph_exporter.Exporter.{
  VersionedCollectors, version_reply, Collectors, Exporter, versions_reply, with_rbd_mirror,
  describe_all, describe_renewed, describe, collect_all, renew, collect_renewed, collect,
}
use ceph_exporter.Exporter.Versions.{Gabs, Counts}
use ceph_exporter.Exporter.Collection.{collect_all-split}
use ceph_exporter.Exporter.Laws.{mirror_after, with_rbd_mirror-mirror_after}
use mathlib.Core.Option
use mathlib.Core.Option.{some-injective}

-- The calls of Prometheus, each with the replies that the cluster gives then.
pub data Call : Type 0 where
  scraping describing : Conn → Call

module _ {V : Type 0} (gabs : Gabs V) (cs : VersionedCollectors V) where
  open cs use {Collector}

  -- One call, with what becomes of the exporter: a scrape may end the program.
  unfoldable pub call_once : Call → Exporter gabs cs → Option (Exporter gabs cs)
  call_once (scraping conn) e = Option.map (λ r. r.0) (collect gabs cs e conn)
  call_once (describing conn) e = some (describe gabs cs e conn).0

  -- Some calls, the first one first.
  unfoldable pub after : List Call → Exporter gabs cs → Option (Exporter gabs cs)
  after [] e = some e
  after (call ∷ calls) e = do e' ← call_once call e; after calls e'

  -- The collector of a name after a call, by the one before it, the version, the versions of the
  -- daemons and what the collector itself does.
  abbrev pub renewed :
      String
      → Option Version
      → Option (List (String × Counts gabs))
      → (Version → Collector → Option Collector)
      → Option Collector
      → Option Collector
  renewed name (some v) (some versions) step o =
      (if beq "rbdMirror" name then mirror_after gabs cs v (lookup "rbd-mirror" versions) o else o)
      >>= step v
  renewed name none versions step o = o
  renewed name (some v) none step o = o

  abbrev pub own_call : String → Call → Option Collector → Option Collector
  own_call name (scraping conn) =
      renewed name (version_reply conn) (versions_reply gabs cs conn)
        (λ v c. Option.map (λ r. r.0) (cs.collect c conn v))
  own_call name (describing conn) =
      renewed name (version_reply conn) (versions_reply gabs cs conn)
        (λ v c. some (cs.describe c conn).0)

  -- The same for some calls: nothing is asked of the other collectors.
  unfoldable pub alone : String → List Call → Option Collector → Option Collector
  alone name [] o = o
  alone name (call ∷ calls) o = alone name calls (own_call name call o)

  lookup-collect_all :
      (conn : Conn) (v : Version) (name : String) (m m' : Collectors gabs cs)
      (outs : List (List (Metric V)))
      → collect_all gabs cs conn v m ≡ some (m', outs)
      → lookup name m' ≡ (lookup name m >>= λ c. Option.map (λ r. r.0) (cs.collect c conn v))
  unfolding collect_all lookup
  lookup-collect_all conn v name [] m' outs h =
      sym (ap (λ r. lookup name r.0) (some-injective _ _ h))
  lookup-collect_all conn v name ((k, c) ∷ rest) m' outs h =
      let (c', ms, rest', outs', h1, h2, m_lem, _) =
        collect_all-split gabs cs conn v k c rest m' outs h in
      ap (lookup name) m_lem ∙ elim (Bool-cases (beq k name)) [
        | inl e ↦ rw e (sym (ap (Option.map (λ r. r.0)) h1))
        | inr e ↦ rw e (lookup-collect_all conn v name rest rest' outs' h2)
      ]

  lookup-describe_all :
      (conn : Conn) (name : String) (m : Collectors gabs cs)
      → lookup name (describe_all gabs cs conn m).0
        ≡ (lookup name m >>= λ c. some (cs.describe c conn).0)
  unfolding describe_all lookup
  lookup-describe_all conn name [] = refl
  lookup-describe_all conn name ((k, c) ∷ rest) = elim (Bool-cases (beq k name)) [
    | inl e ↦ rw e refl
    | inr e ↦ rw e (lookup-describe_all conn name rest)
  ]

  -- The mirrors' collector depends on no other.
  renewed-mirror :
      (v : Version) (entry : Option (Counts gabs)) (name : String) (m : Collectors gabs cs)
      → (if beq "rbdMirror" name
          then mirror_after gabs cs v entry (lookup "rbdMirror" m)
          else lookup name m)
        ≡ (if beq "rbdMirror" name
            then mirror_after gabs cs v entry (lookup name m)
            else lookup name m)
  renewed-mirror v entry name m = elim (Bool-cases (beq "rbdMirror" name)) [
    | inl e ↦
        rw e (ap (λ n. mirror_after gabs cs v entry (lookup n m)) ((eq_iff "rbdMirror" name).0 e))
    | inr e ↦ rw e refl
  ]

  lookup-collect :
      (name : String) (conn : Conn) (reported : Option Version)
      (daemons : Option (List (String × Counts gabs))) (e e' : Exporter gabs cs)
      (outs : List (List (Metric V)))
      → collect_renewed gabs cs conn (renew gabs cs reported daemons e) ≡ some (e', outs)
      → lookup name e'.cc
        ≡ renewed name reported daemons
            (λ v c. Option.map (λ r. r.0) (cs.collect c conn v))
            (lookup name e.cc)
  unfolding renew collect_renewed
  lookup-collect name conn none daemons e e' outs h =
      sym (ap (λ r. lookup name r.0.cc) (some-injective _ _ h))
  lookup-collect name conn (some v) none e e' outs h =
      sym (ap (λ r. lookup name r.0.cc) (some-injective _ _ h))
  lookup-collect name conn (some v) (some daemons) e e' outs h =
      let entry = lookup "rbd-mirror" daemons in
      let ((m, outs'), h1, k) =
        >>=-eq-some (collect_all gabs cs conn v (with_rbd_mirror gabs cs v entry e.cc)) _ h in
      sym (ap (λ r. lookup name r.0.cc) (some-injective _ _ k))
      ∙ lookup-collect_all conn v name _ m outs' h1
      ∙ ap (λ o. o >>= λ c. Option.map (λ r. r.0) (cs.collect c conn v))
          (with_rbd_mirror-mirror_after gabs cs v entry name e.cc
            ∙ renewed-mirror v entry name e.cc)

  lookup-describe :
      (name : String) (conn : Conn) (reported : Option Version)
      (daemons : Option (List (String × Counts gabs))) (e : Exporter gabs cs)
      → lookup name (describe_renewed gabs cs conn (renew gabs cs reported daemons e)).0.cc
        ≡ renewed name reported daemons (λ v c. some (cs.describe c conn).0) (lookup name e.cc)
  unfolding renew describe_renewed
  lookup-describe name conn none daemons e = refl
  lookup-describe name conn (some v) none e = refl
  lookup-describe name conn (some v) (some daemons) e =
      let entry = lookup "rbd-mirror" daemons in
      lookup-describe_all conn name _
      ∙ ap (λ o. o >>= λ c. some (cs.describe c conn).0)
          (with_rbd_mirror-mirror_after gabs cs v entry name e.cc
            ∙ renewed-mirror v entry name e.cc)

  lookup-call_once :
      (name : String) (call : Call) (e e' : Exporter gabs cs)
      → call_once call e ≡ some e'
      → lookup name e'.cc ≡ own_call name call (lookup name e.cc)
  unfolding call_once collect describe
  lookup-call_once name (scraping conn) e e' h = go (collect gabs cs e conn) refl h
    where
      go :
          (o : Option (Exporter gabs cs × List (List (Metric V))))
          → collect gabs cs e conn ≡ o
          → Option.map (λ r. r.0) o ≡ some e'
          → lookup name e'.cc ≡ own_call name (scraping conn) (lookup name e.cc)
      go none h k = cc
      go (some (e1, outs)) h k =
          sym (ap (λ e. lookup name e.cc) (some-injective _ _ k))
          ∙ lookup-collect name conn (version_reply conn) (versions_reply gabs cs conn) e e1 outs h
  lookup-call_once name (describing conn) e e' h =
      sym (ap (λ e. lookup name e.cc) (some-injective _ _ h))
      ∙ lookup-describe name conn (version_reply conn) (versions_reply gabs cs conn) e

  -- Where no call ends the program, the collector that an exporter has under a name after some calls,
  -- whatever the replies, is what these calls make of the one it had under this name alone, which
  -- does not depend on the others: a call whose two questions about versions are answered renews the
  -- mirrors' collector, and lets each collector collect or describe once; any other changes none.
  pub lookup-after :
      (name : String) (calls : List Call) (e e' : Exporter gabs cs)
      → after calls e ≡ some e'
      → lookup name e'.cc ≡ alone name calls (lookup name e.cc)
  unfolding after alone
  lookup-after name [] e e' h = sym (ap (λ e. lookup name e.cc) (some-injective _ _ h))
  lookup-after name (call ∷ calls) e e' h =
      let (e1, h1, k) = >>=-eq-some (call_once call e) (after calls) h in
      lookup-after name calls e1 e' k ∙ ap (alone name calls) (lookup-call_once name call e e1 h1)
