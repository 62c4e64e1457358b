-- ===== src/Health/Collector/Safety.antt =====
-- ceph/health.go: when a collection panics.
use ceph_exporter.Base.{
  String, ◌≡◌, refl, Bool, true, false, Option, none, some, List, [], ◌∷◌, string_eq, string_beq,
  Text, codes, Bool-cases, Option-cases, inl, inr,
}
use ceph_exporter.Base.{ℤ}
use ceph_exporter.Base.Result.{Result, ok, err}
use ceph_exporter.Float.{Float64}
use ceph_exporter.Conn.{Conn}
use ceph_exporter.Prometheus.{Desc}
use ceph_exporter.Version.{Version, is_at_least, octopus}
use ceph_exporter.Version.Decimal.{atoi, NumError}
use ceph_exporter.Health.Progress.{
  Progress, Outcome, going, failed, panicked, ◌>>=◌, send, const_metric, send_number,
}
use ceph_exporter.Health.Checks.{
  read_summary, read_summaries, read_message, read_check, read_checks, interpret,
}
use ceph_exporter.Health.Reply.{HealthStats}
use ceph_exporter.Health.Totals.{by_version}
use ceph_exporter.Health.Collector.{
  ClusterHealthCollector, Visit, is_empty, stats_reply, begin, send_osds, read_health, send_totals,
  collect_stats, collect,
}

abbrev pub has_panicked : {P : Type 0} → Outcome P → Bool
has_panicked (panicked p) = true
has_panicked _ = false

>>=-has_panicked :
    {P : Type 0} (o : Outcome P) (next : P → Outcome P)
    → has_panicked o ≡ false
    → ((p : P) → has_panicked (next p) ≡ false)
    → has_panicked (o >>= next) ≡ false
>>=-has_panicked (going p) next h k = k p
>>=-has_panicked (failed p) next h k = refl
>>=-has_panicked (panicked p) next h k = cc

module _ (fl : Float64) where
  send_number-has_panicked :
      (d : Desc) (o : Option Text) (p : Progress fl) → has_panicked (send_number fl d o p) ≡ false
  send_number-has_panicked d none p = refl
  send_number-has_panicked d (some ds) p = go (atoi ds)
    where
      go :
          (r : Result NumError ℤ)
          → has_panicked (elim r [
            | ok v ↦ going (send fl (const_metric fl d (fl.of_int v) []) p)
            | err e ↦ failed p
          ])
            ≡ false
      go (ok v) = refl
      go (err e) = refl

  then_number-has_panicked :
      (o : Outcome (Progress fl)) (d : Desc) (t : Option Text)
      → has_panicked o ≡ false
      → has_panicked (o >>= send_number fl d t) ≡ false
  then_number-has_panicked o d t h =
      >>=-has_panicked o (send_number fl d t) h (send_number-has_panicked d t)

  read_summaries-has_panicked :
      (ss : List String) (p : Progress fl) → has_panicked (read_summaries fl ss p) ≡ false
  unfolding read_summaries read_summary
  read_summaries-has_panicked [] p = refl
  read_summaries-has_panicked (s ∷ ss) p =
      >>=-has_panicked (read_summary fl (codes s) p) (read_summaries fl ss)
        (then_number-has_panicked _ _ _ (
          then_number-has_panicked _ _ _ (
            then_number-has_panicked _ _ _
              (then_number-has_panicked _ _ _ (send_number-has_panicked _ _ p)))))
        (read_summaries-has_panicked ss)

  read_message-has_panicked :
      (key : String) (message : Text) (p : Progress fl)
      → has_panicked (read_message fl key message p) ≡ false
  unfolding read_message
  read_message-has_panicked key message p = elim (Bool-cases (string_beq key "MON_DOWN")) [
    | inl e ↦ rw e (send_number-has_panicked _ _ p)
    | inr a ↦ elim (Bool-cases (string_beq key "SLOW_OPS")) [
      | inl e ↦ rw (a, e) (send_number-has_panicked _ _ p)
      | inr b ↦ elim (Bool-cases (string_beq key "RECENT_CRASH")) [
        | inl e ↦ rw (a, b, e) (send_number-has_panicked _ _ p)
        | inr c ↦ elim (Bool-cases (string_beq key "OSD_TOO_MANY_REPAIRS")) [
          | inl e ↦ rw (a, b, c, e) (send_number-has_panicked _ _ p)
          | inr d ↦ elim (Bool-cases (string_beq key "OSDMAP_FLAGS")) [
            | inl e ↦ rw (a, b, c, d, e) refl
            | inr e ↦ rw (a, b, c, d, e) refl
          ]
        ]
      ]
    ]
  ]

  read_checks-has_panicked :
      (version : Version) (map_empty : Bool) (cs : List (String × String)) (p : Progress fl)
      → has_panicked (read_checks fl version map_empty cs p) ≡ false
  unfolding read_checks read_check
  read_checks-has_panicked version map_empty [] p = refl
  read_checks-has_panicked version map_empty ((key, message) ∷ rest) p =
      >>=-has_panicked (read_check fl version map_empty key (codes message) p)
        (read_checks fl version map_empty rest)
        (>>=-has_panicked (read_message fl key (codes message) p)
          (λ q. going (interpret fl version map_empty key q))
          (read_message-has_panicked key (codes message) p) (λ q. refl))
        (read_checks-has_panicked version map_empty rest)

  read_health-has_panicked :
      (visit : Visit) (version : Version) (stats : HealthStats fl) (p : Progress fl)
      → has_panicked (read_health fl visit version stats p) ≡ false
  unfolding read_health
  read_health-has_panicked visit version stats p =
      >>=-has_panicked (read_summaries fl stats.summaries _)
        (read_checks fl version (is_empty p.checks) (visit stats.checks))
        (read_summaries-has_panicked stats.summaries _)
        (read_checks-has_panicked version (is_empty p.checks) (visit stats.checks))

  -- The reply has no OSD map, or one with the four numbers where the version has them; or there is no
  -- reply.
  unfoldable pub has_osds : Version → Option (HealthStats fl) → Bool
  unfolding by_version
  has_osds version none = true
  has_osds version (some stats) = elim (by_version fl (is_at_least version octopus) stats.osd_map) [
    | none ↦ false
    | some o ↦ true
  ]

  send_totals-has_panicked :
      (version : Version) (stats : HealthStats fl) (p : Progress fl)
      → has_osds version (some stats) ≡ true
      → has_panicked (send_totals fl version stats p) ≡ false
  unfolding send_totals send_osds has_osds
  send_totals-has_panicked version stats p h =
      elim (Option-cases (by_version fl (is_at_least version octopus) stats.osd_map)) [
        | inl e ↦ cc
        | inr (o, e) ↦ rw e refl
      ]

  -- A collection does not panic where there is no reply to the status command that can be read, or
  -- where the reply has no OSD map, or one with the four numbers in the place that the version gives
  -- them.
  pub collect-has_panicked :
      (visit : Visit) (conn : Conn) (version : Version) (c : ClusterHealthCollector fl)
      → has_osds version (stats_reply fl conn) ≡ true
      → has_panicked (collect fl visit conn version c) ≡ false
  unfolding collect
  collect-has_panicked visit conn version c h = go (stats_reply fl conn) h
    where
      go :
          (o : Option (HealthStats fl))
          → has_osds version o ≡ true
          → has_panicked (collect_stats fl visit version o (begin fl c)) ≡ false
      go none h = refl
      go (some stats) h =
          >>=-has_panicked (read_health fl visit version stats (begin fl c))
            (send_totals fl version stats)
            (read_health-has_panicked visit version stats (begin fl c))
            (λ q. send_totals-has_panicked version stats q h)
