-- ===== src/RbdMirror/Laws.antt =====
-- What the collector of the mirroring status sends.
use ceph_exporter.Base.{
  String, ◌≡◌, refl, sym, Bool, true, false, Option, none, List, [], ◌∷◌, ℤ, pos, negsuc, All,
  string_eq, string_beq, eq_iff, Bool-cases, inl, inr,
}
use mathlib.Core.Path.{subst}
use ceph_exporter.Float.{Float64}
use ceph_exporter.Prometheus.{Desc, Metric, gauge}
use ceph_exporter.Json.{Buffer}
use ceph_exporter.Version.{Version, is_at_least, pacific}
use ceph_exporter.RbdMirror.Descs.{
  rbd_mirror_status, rbd_mirror_daemon_status, rbd_mirror_image_status,
}
use ceph_exporter.RbdMirror.{
  PoolStatus, read_status, status_to_int, RbdMirrorStatusCollector, set_gauges, metrics_for,
  metrics_list, collect,
}

-- The code of a status: -1 stands for all that are none of the three.
pub data HasCode : String → ℤ → Type 0 where
  healthy : HasCode "OK" (pos 0)
  warned : HasCode "WARNING" (pos 1)
  broken : HasCode "ERROR" (pos 2)
  unknown : (s : String) → ¬ (s ≡ "OK") → ¬ (s ≡ "WARNING") → ¬ (s ≡ "ERROR") → HasCode s (negsuc 0)

differs : (s t : String) → string_beq s t ≡ false → ¬ (s ≡ t)
differs s t h e = elim (Bool-cases (string_beq s t)) [
  | inl q ↦ cc
  | inr q ↦ let q' = (eq_iff s t).1 e in cc
]

status_to_int-HasCode : (s : String) → HasCode s (status_to_int s)
unfolding status_to_int
status_to_int-HasCode s = elim (Bool-cases (string_beq s "OK")) [
  | inl e ↦ subst (λ t. HasCode t (status_to_int t)) (sym ((eq_iff s "OK").0 e)) healthy
  | inr a ↦ elim (Bool-cases (string_beq s "WARNING")) [
    | inl e ↦ subst (λ t. HasCode t (status_to_int t)) (sym ((eq_iff s "WARNING").0 e)) warned
    | inr b ↦ elim (Bool-cases (string_beq s "ERROR")) [
      | inl e ↦ subst (λ t. HasCode t (status_to_int t)) (sym ((eq_iff s "ERROR").0 e)) broken
      | inr c ↦
          rw (a, b, c) (unknown s (differs s "OK" a) (differs s "WARNING" b) (differs s "ERROR" c))
    ]
  ]
]

-- The statuses of a reply by the descriptors that they belong to; the daemons and the images have one
-- from Pacific on.
abbrev pub statuses : Bool → PoolStatus → List (Desc × String)
statuses true s =
    (rbd_mirror_status, s.health)
    ∷ (rbd_mirror_daemon_status, s.daemon_health)
    ∷ (rbd_mirror_image_status, s.image_health)
    ∷ []
statuses false s = (rbd_mirror_status, s.health) ∷ []

module _ (fl : Float64) where
  -- The gauge of the descriptor, without labels, whose value is the code of the status.
  pub record ShowsStatus (d : Desc) (status : String) (m : Metric fl.Value) : Type 0 where
    pub desc : m.desc ≡ d
    pub kind : m.kind ≡ gauge
    pub labels : m.labels ≡ []
    pub value : (z : ℤ) × HasCode status z × (m.value ≡ fl.of_int z)

  -- One metric for each status, in their order, and no other.
  pub data ShowStatuses : List (Desc × String) → List (Metric fl.Value) → Type 0 where
    done : ShowStatuses [] []
    next :
        {d : Desc} {status : String} {m : Metric fl.Value} {ds : List (Desc × String)}
        {ms : List (Metric fl.Value)}
        → ShowsStatus d status m
        → ShowStatuses ds ms
        → ShowStatuses ((d, status) ∷ ds) (m ∷ ms)

  shown-ShowsStatus :
      (d : Desc) (status : String)
      → ShowsStatus d status
          (record { desc = d; kind = gauge; value = fl.of_int (status_to_int status); labels = [] })
  shown-ShowsStatus d status = record {
    desc = refl;
    kind = refl;
    labels = refl;
    value = (status_to_int status, status_to_int-HasCode status, refl);
  }

  metrics-ShowStatuses :
      (b : Bool) (s : PoolStatus) (c : RbdMirrorStatusCollector fl)
      → ShowStatuses (statuses b s) (metrics_for fl b (set_gauges fl b s c))
  unfolding set_gauges
  metrics-ShowStatuses true s c =
      next (shown-ShowsStatus _ s.health) (
        next (shown-ShowsStatus _ s.daemon_health) (next (shown-ShowsStatus _ s.image_health) done))
  metrics-ShowStatuses false s c = next (shown-ShowsStatus _ s.health) done

  keeps_version :
      (b : Bool) (s : PoolStatus) (c : RbdMirrorStatusCollector fl)
      → (set_gauges fl b s c).version ≡ c.version
  unfolding set_gauges
  keeps_version true s c = refl
  keeps_version false s c = refl

  module _ (c : RbdMirrorStatusCollector fl) (s : PoolStatus)
      (P : Bool → List (Metric fl.Value) → Type 0) where
    -- The version decides both which gauges are set and which are sent.
    by_version :
        ((b : Bool) → P b (metrics_for fl b (set_gauges fl b s c)))
        → P
            (is_at_least c.version pacific)
            (metrics_list fl (set_gauges fl (is_at_least c.version pacific) s c))
    unfolding metrics_list set_gauges
    by_version h = go (is_at_least c.version pacific) refl
      where
        go :
            (b : Bool)
            → is_at_least c.version pacific ≡ b
            → P b (metrics_list fl (set_gauges fl b s c))
        go b e = rw (keeps_version b s c, e) (h b)

  abbrev pub IsUnknown : Metric fl.Value → Type 0
  IsUnknown m = m.value ≡ fl.of_int (negsuc 0)

  metrics_failed :
      (b : Bool) (c : RbdMirrorStatusCollector fl)
      → All IsUnknown (metrics_for fl b (set_gauges fl b (read_status none) c))
  unfolding set_gauges read_status status_to_int
  metrics_failed true c = (refl, (refl, (refl, tt)))
  metrics_failed false c = (refl, tt)

  -- Collect sends exactly one gauge for each status of the reply that the version which it is called
  -- with knows, in this order: that of the pool, and from Pacific on those of the daemons and of the
  -- images. Each stands under its own descriptor and shows the code of its status, 0 for OK, 1 for
  -- WARNING, 2 for ERROR and -1 for any other, whatever the gauges showed before. Where the command
  -- fails, each value that is sent is -1.
  pub collect-ShowsCode :
      (c : RbdMirrorStatusCollector fl) (reply : Option Buffer) (v : Version)
      → ShowStatuses (statuses (is_at_least v pacific) (read_status reply)) (collect fl c reply v).1
        × All IsUnknown (collect fl c none v).1
  unfolding collect
  collect-ShowsCode c reply v = (
    by_version (record c { version = v }) (read_status reply)
        (λ b ms. ShowStatuses (statuses b (read_status reply)) ms)
        λ b. metrics-ShowStatuses b (read_status reply) (record c { version = v }),
    by_version (record c { version = v }) (read_status none) (λ b ms. All IsUnknown ms)
        λ b. metrics_failed b (record c { version = v }),
  )
