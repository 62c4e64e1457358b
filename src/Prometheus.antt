-- ===== src/Prometheus.antt =====
-- What the collectors use of the Prometheus client library, github.com/prometheus/client_golang:
-- descriptors, the metrics that are sent to the channel, and vectors of gauges.
pub mod WellFormed
use ceph_exporter.Base.{
  ◌∷◌, lookup, map, String, ◌≡◌, Option, none, some, List, beq, strings_eq, if◌then◌else◌, length,
}

-- The arguments of `NewDesc`, `NewGauge`, `NewGaugeVec` and `NewCounterVec`: the name with its
-- namespace, the help text and the variable labels. The one constant label is the cluster.
pub record Desc : Type 0 where
  pub name : String
  pub help : String
  pub labels : List String

pub data Kind : Type 0 where
  gauge counter : Kind

-- `MustNewConstMetric(desc, kind, value, labels...)`, or a series of a vector that is collected.
pub record Metric (V : Type 0) : Type 0 where
  pub desc : Desc
  pub kind : Kind
  pub value : V
  pub labels : List String

-- `MustNewConstMetric` panics on a metric that has not one value for each label.
abbrev pub IsWellFormed : {V : Type 0} → Metric V → Type 0
IsWellFormed m = length m.labels ≡ length m.desc.labels

-- `GaugeVec` and `CounterVec`: one value for each list of label values.
-- `set v ls x` is `v.WithLabelValues(ls...).Set(x)`; `v.Collect` sends what is listed, of which
-- `get v ls` is the series with these label values.
pub record GaugeVecs (V : Type 0) : Type 1 where
  pub Vec : Type 0
  pub new : Vec
  pub set : Vec → List String → V → Vec
  pub reset : Vec → Vec
  pub get : Vec → List String → Option V
  pub listed : Vec → List (List String × V)
  pub get-set :
      (v : Vec) (ls ks : List String) (x : V)
      → get (set v ls x) ks ≡ (if beq ls ks then some x else get v ks)
  pub get-reset : (v : Vec) (ks : List String) → get (reset v) ks ≡ none
  pub get-new : (ks : List String) → get new ks ≡ none
  pub lookup-listed : (v : Vec) (ks : List String) → lookup ks (listed v) ≡ get v ks

-- What the `Collect` of a vector with the given descriptor sends.
abbrev pub metrics_of : {V : Type 0} (gv : GaugeVecs V) → Desc → Kind → gv.Vec → List (Metric V)
metrics_of gv d kind v =
    map (λ (ls, x). record { desc = d; kind = kind; value = x; labels = ls }) (gv.listed v)

-- The series of a list of metrics, by the values of its labels.
abbrev pub series_of : {V : Type 0} → Metric V → List String × V
series_of m = (m.labels, m.value)

-- The value that is sent with the given label values.
unfoldable pub series : {V : Type 0} → List String → List (Metric V) → Option V
series ls ms = lookup ls (map series_of ms)

-- The series that a metric is of: its name and its label values.
abbrev pub keyed : {V : Type 0} → Metric V → List String × V
keyed m = (m.desc.name ∷ m.labels, m.value)

abbrev pub describe : String → String → List String → Desc
describe name help labels = record { name = name; help = help; labels = labels }
