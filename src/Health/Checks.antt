-- ===== src/Health/Checks.antt =====
-- `collect` of ceph/health.go: the status, the summaries and the checks.
pub mod Laws
pub mod Results
pub mod WellFormed
use ceph_exporter.Base.{
  ℕ, String, Bool, true, false, Option, none, some, List, [], ◌∷◌, ◌++◌, map, lookup, insert,
  string_eq, string_beq, ℤ, pos, Text, codes, string_of, split, if◌then◌else◌,
}
use ceph_exporter.Float.{Float64, of_count}
use ceph_exporter.Version.{Version, is_at_least, pacific}
use ceph_exporter.Health.Descs.{
  health_status, mons_down, slow_ops, stuck_degraded_pgs, stuck_unclean_pgs, stuck_undersized_pgs,
  stuck_stale_pgs, new_crash_report_count,
}
use ceph_exporter.Health.FlagDescs.{too_many_repairs, osd_map_flags}
use ceph_exporter.Health.Messages
use ceph_exporter.Health.Progress.{
  Progress, Outcome, going, failed, panicked, ◌>>=◌, send, const_metric, send_number,
}

-- The keys of OSDFlagToGaugeMap.
abbrev pub flag_names : List String
flag_names =
    "full" ∷ "pauserd" ∷ "pausewr" ∷ "noup" ∷ "nodown" ∷ "noin" ∷ "noout" ∷ "nobackfill"
    ∷ "norecover" ∷ "norebalance" ∷ "noscrub" ∷ "nodeep_scrub" ∷ "notieragent" ∷ []

abbrev pub flags_of : Option Text → List Text
flags_of none = []
flags_of (some fs) = split b',' fs

-- From Pacific on there is one more known check.
abbrev pub extended : Version → List (String × ℕ) → List (String × ℕ)
extended version checks =
    if is_at_least version pacific then insert "DAEMON_OLD_VERSION" 2 checks else checks

module _ (fl : Float64) where
  open fl use {Value, of_int}

  abbrev pub zero_flag : String → String × Value
  zero_flag name = (name, of_count fl 0)

  -- The loop over collectorsList, which sets every gauge to zero.
  unfoldable pub zero_gauges : Progress fl → Progress fl
  zero_gauges p = record p { interpreter = of_count fl 0; flags = map zero_flag flag_names }

  abbrev pub status_values : ℕ → ℕ → Progress fl → Progress fl
  status_values status interpreter p =
      record (send fl (const_metric fl health_status (of_count fl status) []) p) {
        interpreter = of_count fl interpreter;
      }

  -- The switch on the status.
  unfoldable pub set_status : String → Progress fl → Progress fl
  set_status status p =
      if string_beq status "HEALTH_OK"
      then status_values 0 0 p
      else if string_beq status "HEALTH_WARN"
      then status_values 1 2 p
      else if string_beq status "HEALTH_ERR"
      then status_values 2 3 p
      else p

  -- One of the summaries.
  unfoldable pub read_summary : Text → Progress fl → Outcome (Progress fl)
  read_summary s p =
      send_number fl stuck_degraded_pgs (Messages.stuck "degraded" s) p
      >>= send_number fl stuck_unclean_pgs (Messages.stuck "unclean" s)
      >>= send_number fl stuck_undersized_pgs (Messages.stuck "undersized" s)
      >>= send_number fl stuck_stale_pgs (Messages.stuck "stale" s)
      >>= send_number fl slow_ops (Messages.slow_ops s)

  unfoldable pub read_summaries : List String → Progress fl → Outcome (Progress fl)
  unfolding read_summary
  read_summaries [] p = going p
  read_summaries (s ∷ ss) p = read_summary (codes s) p >>= read_summaries ss

  abbrev pub raised : String → Option Value → List (String × Value) → List (String × Value)
  raised flag none flags = flags
  raised flag (some x) flags = insert flag (of_count fl 1) flags

  -- One flag: its own series, and the legacy gauge if it has one.
  abbrev pub raise : String → Progress fl → Progress fl
  raise flag p = record (send fl (const_metric fl osd_map_flags (of_count fl 1) (flag ∷ [])) p) {
    flags = raised flag (lookup flag p.flags) p.flags;
  }

  unfoldable pub raise_all : List Text → Progress fl → Progress fl
  raise_all [] p = p
  raise_all (f ∷ fs) p = raise_all fs (raise (string_of f) p)

  -- The conditions on the key of a check.
  unfoldable pub read_message : String → Text → Progress fl → Outcome (Progress fl)
  unfolding raise_all
  read_message key message p =
      if string_beq key "MON_DOWN"
      then send_number fl mons_down (Messages.mons_down message) p
      else if string_beq key "SLOW_OPS"
      then send_number fl slow_ops (Messages.slow_ops message) p
      else if string_beq key "RECENT_CRASH"
      then send_number fl new_crash_report_count (Messages.new_crash_reports message) p
      else if string_beq key "OSD_TOO_MANY_REPAIRS"
      then send_number fl too_many_repairs (Messages.too_many_repairs message) p
      else if string_beq key "OSDMAP_FLAGS"
      then going (raise_all (flags_of (Messages.flags_set message)) p)
      else going p

  abbrev pub interpreted : Option ℕ → Value → Value
  interpreted none x = x
  interpreted (some n) x = of_count fl n

  -- The end of the round for a check; `map_empty` says that no check was known before the loop.
  unfoldable pub interpret : Version → Bool → String → Progress fl → Progress fl
  interpret version map_empty key p =
      let checks = extended version p.checks in
      record p {
        checks = checks;
        interpreter =
            if map_empty then p.interpreter else interpreted (lookup key checks) p.interpreter;
      }

  unfoldable pub read_check : Version → Bool → String → Text → Progress fl → Outcome (Progress fl)
  unfolding read_message interpret
  read_check version map_empty key message p =
      read_message key message p >>= λ p'. going (interpret version map_empty key p')

  -- The loop over the checks, in the order in which `range` visits the map, which Go leaves open.
  unfoldable pub read_checks :
      Version → Bool → List (String × String) → Progress fl → Outcome (Progress fl)
  unfolding read_check
  read_checks version map_empty [] p = going p
  read_checks version map_empty ((key, message) ∷ rest) p =
      read_check version map_empty key (codes message) p >>= read_checks version map_empty rest
