-- ===== src/Crashes/Counts.antt =====
-- What the crash collector sends: one series for each daemon, host and status, with the number of
-- its reports.
use mathlib.Core.Option
use ceph_exporter.Base.{
  ℕ, zero, suc, ◌+◌, String, ◌≡◌, refl, ap, ◌∙◌, Bool, true, false, Option, none, some, List, [],
  ◌∷◌, map, arith, string_beq, beq, lookup, lookup-insert, if◌then◌else◌, strings_eq, Bool-cases,
  ◌&&◌, inl, inr,
}
use ceph_exporter.Float.{Float64, of_count}
use ceph_exporter.Prometheus.{series}
use ceph_exporter.Conn.{Conn}
use ceph_exporter.Crashes.{
  CrashEntry, entry_beq_iff, bool_beq, entry_eq, CephCrashLs, entry_of, or_zero, bump,
  count_crashes, get_crash_ls, reports, tally, status_name, crash_metric, collect,
}

-- How many of the reports are those of the entry.
unfoldable pub occurrences : CrashEntry → List CephCrashLs → ℕ
occurrences e [] = 0
occurrences e (c ∷ cs) =
    let rest = occurrences e cs in if beq (entry_of c) e then suc rest else rest

abbrev pub add_to : Option ℕ → ℕ → Option ℕ
add_to o zero = o
add_to o (suc n) = some (or_zero o + suc n)

add_to_one : (o : Option ℕ) (n : ℕ) → add_to (some (suc (or_zero o))) n ≡ add_to o (suc n)
add_to_one o zero = ap some (omega arith)
add_to_one o (suc n) = ap some (omega arith)

add_to-bump :
    (k e : CrashEntry) (m : List (CrashEntry × ℕ)) (n : ℕ)
    → add_to (lookup e (bump k m)) n ≡ add_to (lookup e m) (if beq k e then suc n else n)
unfolding bump
add_to-bump k e m n = elim (Bool-cases (beq k e)) [
  | inl same ↦ rw (lookup-insert, same, (entry_beq_iff k e).0 same) (add_to_one (lookup e m) n)
  | inr other ↦ rw (lookup-insert, other)
]

lookup-count_crashes :
    (e : CrashEntry) (m : List (CrashEntry × ℕ)) (cs : List CephCrashLs)
    → lookup e (count_crashes m cs) ≡ add_to (lookup e m) (occurrences e cs)
unfolding count_crashes occurrences
lookup-count_crashes e m [] = refl
lookup-count_crashes e m (c ∷ cs) =
    lookup-count_crashes e (bump (entry_of c) m) cs
    ∙ add_to-bump (entry_of c) e m (occurrences e cs)

abbrev pub labels_of : CrashEntry → List String
labels_of e = e.entity ∷ e.hostname ∷ status_name e.is_new ∷ []

status_name_beq : (a b : Bool) → string_beq (status_name a) (status_name b) ≡ bool_beq a b
status_name_beq true true = refl
status_name_beq true false = refl
status_name_beq false true = refl
status_name_beq false false = refl

and_regroup : (p q r : Bool) → (p && (q && (r && true))) ≡ (p && q && r)
and_regroup p q r = ground arith

-- Distinct entries have distinct label values.
labels_of_beq : (a b : CrashEntry) → beq (labels_of a) (labels_of b) ≡ beq a b
labels_of_beq a b = rw status_name_beq (
    and_regroup (string_beq a.entity b.entity) (string_beq a.hostname b.hostname)
      (bool_beq a.is_new b.is_new))

module _ (fl : Float64) where
  series-crash_metric :
      (e : CrashEntry) (m : List (CrashEntry × ℕ))
      → series (labels_of e) (map (crash_metric fl) m) ≡ Option.map (of_count fl) (lookup e m)
  unfolding series lookup
  series-crash_metric e [] = refl
  series-crash_metric e ((k, n) ∷ m) = elim (Bool-cases (beq k e)) [
    | inl same ↦ rw (labels_of_beq k e ∙ same, same)
    | inr other ↦ rw (labels_of_beq k e ∙ other, other) (unfold series in series-crash_metric e m)
  ]

  -- When the cluster's reply lists the reports `cs`, the series that `Collect` sends for a daemon,
  -- host and status carries the number of the reports with them, and there is no such series when
  -- no report has them.
  pub collect-occurrences :
      (conn : Conn) (cs : List CephCrashLs) (e : CrashEntry)
      → reports conn ≡ some cs
      → series (labels_of e) (collect fl conn)
        ≡ Option.map (of_count fl) (add_to none (occurrences e cs))
  unfolding collect get_crash_ls tally lookup
  collect-occurrences conn cs e h = rw h (
      series-crash_metric e (count_crashes [] cs)
      ∙ ap (Option.map (of_count fl)) (lookup-count_crashes e [] cs))
