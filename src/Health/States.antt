-- ===== src/Health/States.antt =====
-- `collect` of ceph/health.go: the number of placement groups in each state.
pub mod Laws
use ceph_exporter.Base.{
  ℕ, zero, suc, String, ◌≡◌, refl, sym, ap, ◌∙◌, Bool, true, false, Option, none, some, List, [],
  ◌∷◌, ◌++◌, map, Text, codes, starts_with, split, text_eq, length, ◌-◌, if◌then◌else◌, arith,
  Bool-cases, inl, inr, Eq, beq, lookup, insert, lookup-insert, ℤ, pos, ◌↔◌, ==_iff, ◌&&◌, ◌==◌,
  text_key, text_eq_iff, string_eq, strings_eq, eq_iff,
}
use mathlib.Core.Option
use ceph_exporter.Float.{Float64}
use ceph_exporter.Prometheus.{Desc, Metric, gauge, keyed}
use ceph_exporter.Health.Descs.{
  degraded_pgs, active_pgs, unclean_pgs, undersized_pgs, peering_pgs, stale_pgs, scrubbing_pgs,
  deep_scrubbing_pgs, recovering_pgs, recovery_wait_pgs, backfilling_pgs, backfill_wait_pgs,
  forced_recovery_pgs, forced_backfill_pgs, down_pgs, incomplete_pgs, inconsistent_pgs,
  snaptrim_pgs, snaptrim_wait_pgs, repairing_pgs, pg_state,
}

-- pgStateGaugeMap, whose keys are those of pgStateCounterMap too
abbrev pub pg_state_gauges : List (String × Desc)
pg_state_gauges =
    ("degraded", degraded_pgs)
    ∷ ("active", active_pgs)
    ∷ ("unclean", unclean_pgs)
    ∷ ("undersized", undersized_pgs)
    ∷ ("peering", peering_pgs)
    ∷ ("stale", stale_pgs)
    ∷ ("scrubbing", scrubbing_pgs)
    ∷ ("deep_scrubbing", deep_scrubbing_pgs)
    ∷ ("recovering", recovering_pgs)
    ∷ ("recovery_wait", recovery_wait_pgs)
    ∷ ("backfilling", backfilling_pgs)
    ∷ ("backfill_wait", backfill_wait_pgs)
    ∷ ("forced_recovery", forced_recovery_pgs)
    ∷ ("forced_backfill", forced_backfill_pgs)
    ∷ ("down", down_pgs)
    ∷ ("incomplete", incomplete_pgs)
    ∷ ("inconsistent", inconsistent_pgs)
    ∷ ("snaptrim", snaptrim_pgs)
    ∷ ("snaptrim_wait", snaptrim_wait_pgs)
    ∷ ("repair", repairing_pgs)
    ∷ []

-- strings.ReplaceAll(s, old, new), where `skip` characters of a match are still to be left out
unfoldable pub replace_from : ℕ → Text → Text → Text → Text
replace_from skip old new [] = []
replace_from zero old new (c ∷ s) =
    let matched = new ++ replace_from (length old - 1) old new s in
    let other = c ∷ replace_from zero old new s in
    if starts_with old (c ∷ s) then matched else other
replace_from (suc skip) old new (c ∷ s) = replace_from skip old new s

-- The states that the text of an entry names.
unfoldable pub states_of : Text → List Text
unfolding replace_from split
states_of s = split b'+' (replace_from 0 (codes "scrubbing+deep") (codes "deep_scrubbing") s)

module _ (fl : Float64) where
  open fl use {Value, of_int, add}

  -- An element of pgs_by_state.
  pub record PgsByState : Type 0 where
    pub count : Value
    pub states : String

  -- The counters, by state.
  abbrev pub Counters : Type 0
  Counters = List (Text × Value)

  abbrev pub zero_count : String × Desc → Text × Value
  zero_count (state, d) = (codes state, of_int (pos 0))

  abbrev pub no_counts : Counters
  no_counts = map zero_count pg_state_gauges

  -- *count += p.Count, for a state that has a counter
  unfoldable pub bump : Value → Text → Counters → Counters
  bump n state [] = []
  bump n state ((k, x) ∷ rest) =
      let rest' = bump n state rest in
      if text_eq k state then (k, add x n) ∷ rest else (k, x) ∷ rest'

  unfoldable pub count_states : Value → Counters → List Text → Counters
  unfolding bump
  count_states n m [] = m
  count_states n m (state ∷ states) = count_states n (bump n state m) states

  unfoldable pub count_pgs : Counters → List PgsByState → Counters
  unfolding count_states states_of
  count_pgs m [] = m
  count_pgs m (p ∷ ps) = count_pgs (count_states p.count m (states_of (codes p.states))) ps

  abbrev pub value_of : Option Value → Value
  value_of none = of_int (pos 0)
  value_of (some x) = x

  abbrev pub const_metric : Desc → Value → List String → Metric Value
  const_metric d x labels = record { desc = d; kind = gauge; value = x; labels = labels }

  -- The loop over pgStateGaugeMap.
  unfoldable pub state_metrics : Counters → List (String × Desc) → List (Metric Value)
  state_metrics m [] = []
  state_metrics m ((state, d) ∷ rest) =
      const_metric d (value_of (lookup (codes state) m)) []
      ∷ const_metric pg_state (value_of (lookup (codes state) m)) (state ∷ [])
      ∷ state_metrics m rest

  -- What is sent of the states.
  unfoldable pub send_states : List PgsByState → List (Metric Value)
  unfolding count_pgs state_metrics
  send_states ps = state_metrics (count_pgs no_counts ps) pg_state_gauges
