-- ===== src/Health/Collector/Table.antt =====
-- ceph/health.go: the table of known checks through the life of a collector, whatever becomes of its
-- collections.
use ceph_exporter.Base.{
  String, Bool, List, [], ◌∷◌, Option, none, some, Text, codes, string_beq, string_eq, ℤ,
  Bool-cases, inl, inr, sym, ℕ, ◌≡◌, refl, ap, ◌∙◌, true, false, insert, beq,
}
use ceph_exporter.Base.Result.{Result, ok, err}
use mathlib.Core.Path.{subst}
use mathlib.Core.List.{Perm}
use ceph_exporter.Float.{Float64}
use ceph_exporter.Conn.{Conn}
use ceph_exporter.Prometheus.{Desc}
use ceph_exporter.Version.{Version, is_at_least, octopus, pacific}
use ceph_exporter.Version.Decimal.{atoi, NumError}
use ceph_exporter.Health.Progress.{
  Progress, Outcome, going, failed, panicked, ◌>>=◌, reached, send, const_metric, send_number,
}
use ceph_exporter.Health.Messages.{flags_set}
use ceph_exporter.Health.Checks.{
  zero_gauges, read_summary, read_summaries, raise_all, flags_of, read_message, interpret,
  read_check, read_checks,
}
use ceph_exporter.Health.Checks.Results.{
  IsTable, made, renewed, set_status-checks, ShowsWarning, any_known, any_known-Perm,
  last_grade-ShowsWarning,
}
use ceph_exporter.Health.Collector.Laws.{collect-Shows}
use ceph_exporter.Health.Reply.{HealthStats}
use ceph_exporter.Health.Totals.{OsdMap, by_version}
use ceph_exporter.Health.Collector.{
  Visit, ClusterHealthCollector, is_empty, stats_reply, begin, send_osds, read_health, send_totals,
  collect_stats, collect,
}

insert-is_empty :
    (key : String) (n : ℕ) (table : List (String × ℕ)) → is_empty (insert key n table) ≡ false
unfolding insert
insert-is_empty key n [] = refl
insert-is_empty key n ((k, m) ∷ rest) = elim (Bool-cases (beq k key)) [
  | inl e ↦ rw e refl
  | inr e ↦ rw e refl
]

module _ (fl : Float64) where
  -- However far the steps have got, the collector has a table.
  unfoldable pub HasTable : Outcome (Progress fl) → Type 0
  HasTable o = IsTable (reached o).checks

  >>=-HasTable :
      (o : Outcome (Progress fl)) (next : Progress fl → Outcome (Progress fl))
      → HasTable o
      → ((p : Progress fl) → IsTable p.checks → HasTable (next p))
      → HasTable (o >>= next)
  unfolding HasTable
  >>=-HasTable (going p) next h k = k p h
  >>=-HasTable (failed p) next h k = h
  >>=-HasTable (panicked p) next h k = h

  going-HasTable : (p : Progress fl) → IsTable p.checks → HasTable (going p)
  unfolding HasTable
  going-HasTable p h = h

  send_number-HasTable :
      (d : Desc) (o : Option Text) (p : Progress fl)
      → IsTable p.checks
      → HasTable (send_number fl d o p)
  unfolding HasTable
  send_number-HasTable d none p h = h
  send_number-HasTable d (some ds) p h = go (atoi ds)
    where
      go :
          (r : Result NumError ℤ)
          → HasTable (elim r [
            | ok v ↦ going (send fl (const_metric fl d (fl.of_int v) []) p)
            | err e ↦ failed p
          ])
      go (ok v) = h
      go (err e) = h

  then_number-HasTable :
      (o : Outcome (Progress fl)) (d : Desc) (t : Option Text)
      → HasTable o
      → HasTable (o >>= send_number fl d t)
  then_number-HasTable o d t h = >>=-HasTable o (send_number fl d t) h (send_number-HasTable d t)

  read_summary-HasTable :
      (s : Text) (p : Progress fl) → IsTable p.checks → HasTable (read_summary fl s p)
  unfolding read_summary
  read_summary-HasTable s p h = then_number-HasTable _ _ _ (
      then_number-HasTable _ _ _
        (then_number-HasTable _ _ _ (then_number-HasTable _ _ _ (send_number-HasTable _ _ p h))))

  read_summaries-HasTable :
      (ss : List String) (p : Progress fl) → IsTable p.checks → HasTable (read_summaries fl ss p)
  unfolding read_summaries
  read_summaries-HasTable [] p h = going-HasTable p h
  read_summaries-HasTable (s ∷ ss) p h =
      >>=-HasTable (read_summary fl (codes s) p) (read_summaries fl ss)
        (read_summary-HasTable (codes s) p h) (read_summaries-HasTable ss)

  raise_all-IsTable :
      (fs : List Text) (p : Progress fl) → IsTable p.checks → IsTable (raise_all fl fs p).checks
  unfolding raise_all
  raise_all-IsTable [] p h = h
  raise_all-IsTable (f ∷ fs) p h = raise_all-IsTable fs _ h

  read_message-HasTable :
      (key : String) (message : Text) (p : Progress fl)
      → IsTable p.checks
      → HasTable (read_message fl key message p)
  unfolding read_message
  read_message-HasTable key message p h = elim (Bool-cases (string_beq key "MON_DOWN")) [
    | inl e ↦ rw e (send_number-HasTable _ _ p h)
    | inr a ↦ elim (Bool-cases (string_beq key "SLOW_OPS")) [
      | inl e ↦ rw (a, e) (send_number-HasTable _ _ p h)
      | inr b ↦ elim (Bool-cases (string_beq key "RECENT_CRASH")) [
        | inl e ↦ rw (a, b, e) (send_number-HasTable _ _ p h)
        | inr c ↦ elim (Bool-cases (string_beq key "OSD_TOO_MANY_REPAIRS")) [
          | inl e ↦ rw (a, b, c, e) (send_number-HasTable _ _ p h)
          | inr d ↦ elim (Bool-cases (string_beq key "OSDMAP_FLAGS")) [
            | inl e ↦
                rw (a, b, c, d, e)
                  (going-HasTable (raise_all fl (flags_of (flags_set message)) p)
                    (raise_all-IsTable (flags_of (flags_set message)) p h))
            | inr e ↦ rw (a, b, c, d, e) (going-HasTable p h)
          ]
        ]
      ]
    ]
  ]

  read_checks-HasTable :
      (version : Version) (map_empty : Bool) (cs : List (String × String)) (p : Progress fl)
      → IsTable p.checks
      → HasTable (read_checks fl version map_empty cs p)
  unfolding read_checks read_check interpret
  read_checks-HasTable version map_empty [] p h = going-HasTable p h
  read_checks-HasTable version map_empty ((key, message) ∷ rest) p h =
      >>=-HasTable (read_check fl version map_empty key (codes message) p) _
        (>>=-HasTable (read_message fl key (codes message) p)
          (λ q. going (interpret fl version map_empty key q))
          (read_message-HasTable key (codes message) p h)
          (λ q k. going-HasTable _ (renewed version k)))
        (read_checks-HasTable version map_empty rest)

  send_osds-HasTable :
      (version : Version) (stats : HealthStats fl) (o : Option (OsdMap fl)) (p : Progress fl)
      → IsTable p.checks
      → HasTable (send_osds fl version stats o p)
  unfolding send_osds HasTable
  send_osds-HasTable version stats none p h = h
  send_osds-HasTable version stats (some o) p h = h

  zero_gauges-IsTable : (p : Progress fl) → IsTable p.checks → IsTable (zero_gauges fl p).checks
  unfolding zero_gauges
  zero_gauges-IsTable p h = h

  collect_stats-HasTable :
      (visit : Visit) (version : Version) (o : Option (HealthStats fl)) (p : Progress fl)
      → IsTable p.checks
      → HasTable (collect_stats fl visit version o p)
  unfolding collect_stats read_health send_totals HasTable
  collect_stats-HasTable visit version none p h = h
  collect_stats-HasTable visit version (some stats) p h =
      >>=-HasTable (read_health fl visit version stats p) (send_totals fl version stats)
        (>>=-HasTable (read_summaries fl stats.summaries _) _
          (read_summaries-HasTable stats.summaries _ (
            subst IsTable (sym (set_status-checks fl stats.status (zero_gauges fl p)))
              (zero_gauges-IsTable p h)))
          (read_checks-HasTable version (is_empty p.checks) (visit stats.checks)))
        (λ q k.
          send_osds-HasTable version stats
            (by_version fl (is_at_least version octopus) stats.osd_map) _ k)

  -- Whatever the reply, and also where a collection fails or panics on the way, it leaves a table that
  -- the next one can start from.
  pub collect-HasTable :
      (visit : Visit) (conn : Conn) (version : Version) (c : ClusterHealthCollector fl)
      → IsTable c.checks
      → HasTable (collect fl visit conn version c)
  unfolding collect
  collect-HasTable visit conn version c h =
      collect_stats-HasTable visit version (stats_reply fl conn) (begin fl c) h

  IsTable-is_empty : (table : List (String × ℕ)) → IsTable table → is_empty table ≡ false
  IsTable-is_empty _ made = refl
  IsTable-is_empty _ (renewed {table} version h) = elim (Bool-cases (is_at_least version pacific)) [
    | inl e ↦ rw e (insert-is_empty "DAEMON_OLD_VERSION" 2 table)
    | inr e ↦ rw e (IsTable-is_empty table h)
  ]

  -- At any time in the life of a collector, whatever its collections before have come to and whatever
  -- the order in which `range` visits the checks, where a collection comes to its end and the reply
  -- has a check that is in the table of known checks, the interpreter shows a warning, 1 or 2,
  -- whatever the status: also for a cluster whose status is HEALTH_ERR. The table is the one that the
  -- collector is made with, extended any number of times for a version of Ceph, and it is such a
  -- table again afterwards.
  pub collect-ShowsWarning :
      (visit : Visit) (conn : Conn) (version : Version) (c : ClusterHealthCollector fl)
      (stats : HealthStats fl) (p' : Progress fl)
      → Perm (visit stats.checks) stats.checks
      → IsTable c.checks
      → stats_reply fl conn ≡ some stats
      → collect fl visit conn version c ≡ going p'
      → any_known version c.checks stats.checks ≡ true
      → ShowsWarning fl p'.interpreter × IsTable p'.checks
  unfolding HasTable
  collect-ShowsWarning visit conn version c stats p' perm t r h k =
      let shows =
        collect-Shows fl visit conn version c stats p' perm (IsTable-is_empty c.checks t) r h in
      (
        subst (ShowsWarning fl) (sym shows.interpreter) (
            last_grade-ShowsWarning fl version c.checks _ (visit stats.checks) t
              (inr (any_known-Perm version c.checks perm ∙ k))),
        subst (λ (p : Progress fl). IsTable p.checks) (ap reached h)
            (collect-HasTable visit conn version c t),
      )
