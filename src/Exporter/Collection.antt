-- ===== src/Exporter/Collection.antt =====
-- ceph/exporter.go: what a scrape sends, and when it ends.
use ceph_exporter.Base.{
  String, ◌≡◌, refl, sym, ap, ◌∙◌, none, some, >>=-eq-some, List, [], ◌∷◌, map, lookup, string_eq,
}
use ceph_exporter.Version.{Version}
use ceph_exporter.Prometheus.{Metric}
use ceph_exporter.Conn.{Conn}
use ceph_exporter.Exporter.{
  VersionedCollectors, version_reply, Collectors, Exporter, versions_reply, with_rbd_mirror,
  collect_all, renew, collect_renewed, collect,
}
use ceph_exporter.Exporter.Versions.{Gabs, Counts}
use ceph_exporter.Exporter.Interleaving.{concat, Received, Received-Perm}
use mathlib.Core.List.{Perm, Memᴰ}
use mathlib.Core.Option.{some-injective}
use mathlib.Core.Path.{subst}

module _ {V : Type 0} (gabs : Gabs V) (cs : VersionedCollectors V) where
  open cs use {Collector}

  -- What one collector sends by itself.
  abbrev pub output : Conn → Version → String × Collector → List (Metric V)
  output conn v (name, c) = elim (cs.collect c conn v) [ none ↦ [] | some (c', ms) ↦ ms ]

  -- The Collect of each collector ends, and does not panic.
  abbrev pub AreEnding : Conn → Version → Collectors gabs cs → Type 0
  AreEnding conn v m =
      (x : String × Collector)
      → Memᴰ x m
      → (r : Collector × List (Metric V)) × (cs.collect x.1 conn v ≡ some r)

  -- The Collect of the first collector, and those of the others.
  pub collect_all-split :
      (conn : Conn) (v : Version) (name : String) (c : Collector) (rest m' : Collectors gabs cs)
      (outs : List (List (Metric V)))
      → collect_all gabs cs conn v ((name, c) ∷ rest) ≡ some (m', outs)
      → (c' : Collector) × (ms : List (Metric V)) × (rest' : Collectors gabs cs) × (outs' : List
          (List (Metric V)))
        × (cs.collect c conn v ≡ some (c', ms))
        × (collect_all gabs cs conn v rest ≡ some (rest', outs'))
        × (m' ≡ (name, c') ∷ rest')
        × (outs ≡ ms ∷ outs')
  unfolding collect_all
  collect_all-split conn v name c rest m' outs h =
      let ((c', ms), h1, k) = >>=-eq-some (cs.collect c conn v) _ h in
      let ((rest', outs'), h2, l) = >>=-eq-some (collect_all gabs cs conn v rest) _ k in
      let both = some-injective _ _ l in
      (c', ms, rest', outs', h1, h2, sym (ap (λ r. r.0) both), sym (ap (λ r. r.1) both))

  output_lem :
      (conn : Conn) (v : Version) (name : String) (c : Collector) (r : Collector × List (Metric V))
      → cs.collect c conn v ≡ some r
      → output conn v (name, c) ≡ r.1
  output_lem conn v name c r h = rw (h, output) refl

  collect_all-output :
      (conn : Conn) (v : Version) (m m' : Collectors gabs cs) (outs : List (List (Metric V)))
      → collect_all gabs cs conn v m ≡ some (m', outs)
      → outs ≡ map (output conn v) m
  unfolding collect_all
  collect_all-output conn v [] m' outs h = sym (ap (λ r. r.1) (some-injective _ _ h))
  collect_all-output conn v ((name, c) ∷ rest) m' outs h =
      let (c', ms, rest', outs', h1, h2, _, outs_lem) =
        collect_all-split conn v name c rest m' outs h in
      outs_lem
      ∙ ap (λ os. ms ∷ os) (collect_all-output conn v rest rest' outs' h2)
      ∙ ap (λ os. os ∷ map (output conn v) rest) (sym (output_lem conn v name c (c', ms) h1))

  collect_all-AreEnding :
      (conn : Conn) (v : Version) (m : Collectors gabs cs)
      → AreEnding conn v m
      → (r : Collectors gabs cs × List (List (Metric V))) × (collect_all gabs cs conn v m ≡ some r)
  unfolding collect_all
  collect_all-AreEnding conn v [] h = (([], []), refl)
  collect_all-AreEnding conn v ((name, c) ∷ rest) h =
      let ((c', ms), h1) = h (name, c) (Memᴰ.head refl) in
      let ((rest', outs), h2) = collect_all-AreEnding conn v rest (λ x i. h x (Memᴰ.tail i)) in
      (((name, c') ∷ rest', ms ∷ outs), rw (h1, h2) refl)

  -- Where the cluster answers both questions, and the Collect of each collector ends without a panic,
  -- so does that of the exporter.
  pub collect-AreEnding :
      (e : Exporter gabs cs) (conn : Conn) (v : Version) (versions : List (String × Counts gabs))
      → version_reply conn ≡ some v
      → versions_reply gabs cs conn ≡ some versions
      → AreEnding conn v (with_rbd_mirror gabs cs v (lookup "rbd-mirror" versions) e.cc)
      → (r : Exporter gabs cs × List (List (Metric V))) × (collect gabs cs e conn ≡ some r)
  unfolding collect renew collect_renewed
  collect-AreEnding e conn v versions h k ends =
      let ((cc', outs), l) = collect_all-AreEnding conn v _ ends in
      ((record e { version = v; cc = cc' }, outs), rw (h, k, l) refl)

  -- Where the cluster answers both questions and the scrape ends, whatever the goroutines' order, what
  -- Prometheus receives is what each of the collectors sends by itself, no metric lost and none sent
  -- twice; these are the collectors after the mirrors' is added or removed, and they are given the
  -- version that the cluster has just reported.
  pub collect-Perm :
      (e e' : Exporter gabs cs) (conn : Conn) (v : Version) (versions : List (String × Counts gabs))
      (outs : List (List (Metric V))) (sent : List (Metric V))
      → version_reply conn ≡ some v
      → versions_reply gabs cs conn ≡ some versions
      → collect gabs cs e conn ≡ some (e', outs)
      → Received outs sent
      → Perm sent (
          concat
            (map (output conn v) (with_rbd_mirror gabs cs v (lookup "rbd-mirror" versions) e.cc)))
  unfolding collect renew collect_renewed
  collect-Perm e e' conn v versions outs sent h k l r =
      let ((cc', outs'), h1, k1) =
        >>=-eq-some
          (collect_all gabs cs conn v
            (with_rbd_mirror gabs cs v (lookup "rbd-mirror" versions) e.cc))
          _ (rw (h, k) at l) in
      let outs_lem =
        sym (ap (λ r. r.1) (some-injective _ _ k1)) ∙ collect_all-output conn v _ cc' outs' h1 in
      subst (λ outs. Perm sent (concat outs)) outs_lem (Received-Perm r)
