-- ===== src/Health/Collector/Laws.antt =====
-- ceph/health.go: the gauges after a whole collection.
use ceph_exporter.Base.{
  ℕ, String, ◌≡◌, refl, sym, ap, ◌∙◌, inl, inr, false, Option, none, some, List, [], ◌∷◌, ◌++◌, map,
  lookup, string_eq, eq_iff, string_beq, Text, codes, if◌then◌else◌, Bool-cases,
}
use mathlib.Core.List.{Perm}
use mathlib.Core.Path.{subst}
use ceph_exporter.Float.{Float64, of_count}
use ceph_exporter.Conn.{Conn}
use ceph_exporter.Prometheus.{Desc}
use ceph_exporter.Version.{Version, is_at_least, octopus}
use ceph_exporter.Health.Descs
use ceph_exporter.Health.Messages
use ceph_exporter.Health.Progress.{Progress, Outcome, going, ◌>>=◌, send_number}
use ceph_exporter.Health.Checks.{
  zero_flag, flag_names, zero_gauges, set_status, read_summary, read_summaries, read_checks,
}
use ceph_exporter.Health.Checks.Laws.{
  Keeps, Keeps-going, send_number-Keeps, is_raised, is_raised-Perm, last_grade, raised_gauge, names,
}
use ceph_exporter.Health.Checks.Results.{>>=-eq-going, read_checks-last_grade, set_status-checks}
use ceph_exporter.Health.States.{send_states}
use ceph_exporter.Health.Totals.{OsdMap, by_version, rate_metrics}
use ceph_exporter.Health.Reply.{HealthStats}
use ceph_exporter.Health.Collector.{
  ClusterHealthCollector, Visit, is_empty, stats_reply, begin, send_all, send_osds, read_health,
  send_totals, collect_stats, collect,
}

module _ (fl : Float64) where
  open fl use {Value}

  Keeps-refl : (p : Progress fl) → Keeps fl [] p p
  unfolding names
  Keeps-refl p = record { interpreter = refl; checks = refl; gauges = λ flag. refl }

  Keeps-trans : (p q r : Progress fl) → Keeps fl [] p q → Keeps fl [] q r → Keeps fl [] p r
  unfolding names
  Keeps-trans p q r h k = record {
    interpreter = k.interpreter ∙ h.interpreter;
    checks = k.checks ∙ h.checks;
    gauges = λ flag. k.gauges flag ∙ h.gauges flag;
  }

  -- Going on from a step that keeps the gauges.
  then_number-Keeps :
      (first : Outcome (Progress fl)) (d : Desc) (o : Option Text) (p p' : Progress fl)
      → ((q : Progress fl) → first ≡ going q → Keeps fl [] p q)
      → (first >>= send_number fl d o) ≡ going p'
      → Keeps fl [] p p'
  then_number-Keeps first d o p p' k h =
      let (q, hq, hp) = >>=-eq-going first (send_number fl d o) h in
      Keeps-trans p q p' (k q hq) (send_number-Keeps fl d o q p' hp)

  read_summary-Keeps :
      (s : Text) (p p' : Progress fl) → read_summary fl s p ≡ going p' → Keeps fl [] p p'
  unfolding read_summary
  read_summary-Keeps s p p' = then_number-Keeps _ Descs.slow_ops (Messages.slow_ops s) p p' λ q4.
      then_number-Keeps _ Descs.stuck_stale_pgs (Messages.stuck "stale" s) p q4 λ q3.
        then_number-Keeps _ Descs.stuck_undersized_pgs (Messages.stuck "undersized" s) p q3 λ q2.
          then_number-Keeps _ Descs.stuck_unclean_pgs (Messages.stuck "unclean" s) p q2
            λ q1. send_number-Keeps fl Descs.stuck_degraded_pgs (Messages.stuck "degraded" s) p q1

  read_summaries-Keeps :
      (ss : List String) (p p' : Progress fl) → read_summaries fl ss p ≡ going p' → Keeps fl [] p p'
  unfolding read_summaries
  read_summaries-Keeps [] p p' h = Keeps-going fl [] p p p' (Keeps-refl p) h
  read_summaries-Keeps (s ∷ ss) p p' h =
      let (q, hq, hp) = >>=-eq-going (read_summary fl (codes s) p) (read_summaries fl ss) h in
      Keeps-trans p q p' (read_summary-Keeps (codes s) p q hq) (read_summaries-Keeps ss q p' hp)

  -- What the interpreter shows for a status when no check is known.
  abbrev pub status_grade : String → ℕ
  status_grade status =
      if string_beq status "HEALTH_WARN" then 2 else if string_beq status "HEALTH_ERR" then 3 else 0

  set_status-status_grade :
      (status : String) (p : Progress fl)
      → p.interpreter ≡ of_count fl 0
      → (set_status fl status p).interpreter ≡ of_count fl (status_grade status)
  unfolding set_status
  set_status-status_grade status p z = elim (Bool-cases (string_beq status "HEALTH_OK")) [
    | inl e ↦
        subst (λ s. (set_status fl s p).interpreter ≡ of_count fl (status_grade s))
          (sym ((eq_iff status "HEALTH_OK").0 e)) refl
    | inr a ↦ elim (Bool-cases (string_beq status "HEALTH_WARN")) [
      | inl e ↦ rw (a, e) refl
      | inr b ↦ elim (Bool-cases (string_beq status "HEALTH_ERR")) [
        | inl e ↦ rw (a, b, e) refl
        | inr c ↦ rw (a, b, c) z
      ]
    ]
  ]

  set_status-flags : (status : String) (p : Progress fl) → (set_status fl status p).flags ≡ p.flags
  unfolding set_status
  set_status-flags status p = elim (Bool-cases (string_beq status "HEALTH_OK")) [
    | inl e ↦ rw e refl
    | inr a ↦ elim (Bool-cases (string_beq status "HEALTH_WARN")) [
      | inl e ↦ rw (a, e) refl
      | inr b ↦ elim (Bool-cases (string_beq status "HEALTH_ERR")) [
        | inl e ↦ rw (a, b, e) refl
        | inr c ↦ rw (a, b, c) refl
      ]
    ]
  ]

  send_totals-Keeps :
      (version : Version) (stats : HealthStats fl) (p p' : Progress fl)
      → send_totals fl version stats p ≡ going p'
      → Keeps fl [] p p'
  unfolding send_totals names
  send_totals-Keeps version stats p p' h =
      go (by_version fl (is_at_least version octopus) stats.osd_map) h
    where
      go :
          (o : Option (OsdMap fl))
          → send_osds fl version stats o (
              send_all fl
                (send_states fl stats.pg_map.pgs_by_state ++ rate_metrics fl stats.pg_map)
                p)
            ≡ going p'
          → Keeps fl [] p p'
      go none h = cc
      go (some o) h =
          Keeps-going fl [] p _ p'
            (record { interpreter = refl; checks = refl; gauges = λ flag. refl }) h

  -- The gauges as a reply leaves them, whose checks are visited in the order `visited`.
  pub record Shows (version : Version) (checks : List (String × ℕ)) (stats : HealthStats fl)
      (visited : List (String × String)) (p : Progress fl) : Type 0 where
    pub interpreter :
        p.interpreter
        ≡ last_grade fl version checks (of_count fl (status_grade stats.status)) visited
    pub gauges :
        (flag : String)
        → lookup flag p.flags
          ≡ raised_gauge fl
              (is_raised flag stats.checks)
              (lookup flag (map (zero_flag fl) flag_names))

  read_health-Shows :
      (visit : Visit) (version : Version) (stats : HealthStats fl) (p p' : Progress fl)
      → Perm (visit stats.checks) stats.checks
      → is_empty p.checks ≡ false
      → read_health fl visit version stats p ≡ going p'
      → Shows version p.checks stats (visit stats.checks) p'
  unfolding read_health zero_gauges lookup names
  read_health-Shows visit version stats p p' perm e h =
      let z = zero_gauges fl p in
      let s = set_status fl stats.status z in
      let (q, hq, hp) =
        >>=-eq-going (read_summaries fl stats.summaries s)
          (read_checks fl version (is_empty p.checks) (visit stats.checks)) h in
      let k = read_summaries-Keeps stats.summaries s q hq in
      let (i, g) = read_checks-last_grade fl version (visit stats.checks) q p' (rw e at hp) in
      record {
        interpreter =
            i
            ∙ ap (λ c. last_grade fl version c q.interpreter (visit stats.checks))
                (k.checks ∙ set_status-checks fl stats.status z)
            ∙ ap (λ x. last_grade fl version p.checks x (visit stats.checks))
                (k.interpreter ∙ set_status-status_grade stats.status z refl);
        gauges = λ flag.
            g flag
            ∙ ap (λ b. raised_gauge fl b (lookup flag q.flags)) (is_raised-Perm flag perm)
            ∙ ap (raised_gauge fl (is_raised flag stats.checks))
                (k.gauges flag ∙ ap (lookup flag) (set_status-flags stats.status z));
      }

  -- Where the reply to the status command is read and the collection comes to its end, whatever the
  -- order in which `range` visits the checks of the reply, which Go leaves open, the interpreter
  -- shows the grade of the known check that is visited last, or what the status stands for if no
  -- check is known: 2 for HEALTH_WARN, 3 for HEALTH_ERR, else 0. The legacy gauge of a flag depends
  -- on no order: it is 1 if some check of the reply lists the flag and 0 if none does, whatever the
  -- gauges showed before.
  pub collect-Shows :
      (visit : Visit) (conn : Conn) (version : Version) (c : ClusterHealthCollector fl)
      (stats : HealthStats fl) (p' : Progress fl)
      → Perm (visit stats.checks) stats.checks
      → is_empty c.checks ≡ false
      → stats_reply fl conn ≡ some stats
      → collect fl visit conn version c ≡ going p'
      → Shows version c.checks stats (visit stats.checks) p'
  unfolding collect lookup names
  collect-Shows visit conn version c stats p' perm e r h =
      let h' = subst (λ o. collect_stats fl visit version o (begin fl c) ≡ going p') r h in
      let (q, hq, hp) =
        >>=-eq-going (read_health fl visit version stats (begin fl c))
          (send_totals fl version stats) h' in
      let s = read_health-Shows visit version stats (begin fl c) q perm e hq in
      let k = send_totals-Keeps version stats q p' hp in
      record {
        interpreter = k.interpreter ∙ s.interpreter;
        gauges = λ flag. k.gauges flag ∙ s.gauges flag;
      }
