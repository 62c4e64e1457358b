-- ===== src/Health/Progress.antt =====
-- How far a collection of ceph/health.go has come: the gauges, the known checks, and what was sent.
use ceph_exporter.Base.{ℕ, String, Option, none, some, List, [], ◌∷◌, ◌++◌, string_eq, Text}
use ceph_exporter.Base.Result.{ok, err}
use ceph_exporter.Float.{Float64}
use ceph_exporter.Prometheus.{Desc, Metric, gauge}
use ceph_exporter.Version.Decimal.{atoi}

-- A step goes on, or `collect` returns an error, or the program panics; what was done is kept.
pub data Outcome (P : Type 0) : Type 0 where
  going failed panicked : P → Outcome P

infixl 5 ◌>>=◌
abbrev pub ◌>>=◌ : {P : Type 0} → Outcome P → (P → Outcome P) → Outcome P
going p >>= next = next p
failed p >>= next = failed p
panicked p >>= next = panicked p

-- What was done, however it ended.
abbrev pub reached : {P : Type 0} → Outcome P → P
reached (going p) = p
reached (failed p) = p
reached (panicked p) = p

module _ (fl : Float64) where
  open fl use {Value, of_int}

  -- The legacy gauges are those of the interpreter and of the flags, by the name of the flag.
  pub record Progress : Type 0 where
    pub interpreter : Value
    pub flags : List (String × Value)
    pub checks : List (String × ℕ)
    pub sent : List (Metric Value)

  abbrev pub send : Metric Value → Progress → Progress
  send metric p = record p { sent = p.sent ++ metric ∷ [] }

  abbrev pub const_metric : Desc → Value → List String → Metric Value
  const_metric d x labels = record { desc = d; kind = gauge; value = x; labels = labels }

  -- What becomes of the number that a pattern has found, if it has found one.
  abbrev pub send_number : Desc → Option Text → Progress → Outcome Progress
  send_number d none p = going p
  send_number d (some ds) p = elim (atoi ds) [
    | ok v ↦ going (send (const_metric d (of_int v) []) p)
    | err e ↦ failed p
  ]
