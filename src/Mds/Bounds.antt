-- ===== src/Mds/Bounds.antt =====
-- ceph/mds.go: a collector of the metadata servers through its life, what waits in its channel and how
-- many goroutines it has started.
use ceph_exporter.Base.{ℕ, suc, ◌+◌, ◌≤◌, Bool, List, [], ◌∷◌, length, if◌then◌else◌}
use ceph_exporter.Float.{Float64}
use ceph_exporter.Prometheus.{Metric}
use ceph_exporter.Mds.{Commands, capacity, MdsCollector, background_round, collect}

-- What happens to a collector: a Collect, or a round of one of the goroutines that it has started.
pub data Event : Type 0 where
  scrape round : Commands → Event

-- How many of the events are a Collect.
abbrev pub scrapes : List Event → ℕ
scrapes [] = 0
scrapes (scrape cmds ∷ events) = suc (scrapes events)
scrapes (round cmds ∷ events) = scrapes events

module _ (fl : Float64) where
  open fl use {Value}

  -- NewMDSCollector
  abbrev pub new_mds_collector : Bool → MdsCollector fl
  new_mds_collector background = record { background = background; ch = []; goroutines = 0 }

  abbrev step : Event → MdsCollector fl → MdsCollector fl × List (Metric Value)
  step (scrape cmds) m = collect fl cmds m
  step (round cmds) m = (background_round fl cmds m, [])

  -- The collector after the events, and what each of them has sent.
  unfoldable pub after : List Event → MdsCollector fl → MdsCollector fl × List (List (Metric Value))
  unfolding collect background_round
  after [] m = (m, [])
  after (event ∷ events) m =
      let (m', ms) = step event m in let (last, sent) = after events m' in (last, ms ∷ sent)

  abbrev pub IsBounded : List (Metric Value) → Type 0
  IsBounded ms = length ms ≤ capacity

  started : MdsCollector fl → ℕ → ℕ
  started m n = if m.background then n + m.goroutines else m.goroutines
