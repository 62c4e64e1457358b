-- ===== src/Health/Io.antt =====
-- `collectRecoveryClientIO` of ceph/health.go and what it calls.
pub mod Patterns
pub mod Lines
pub mod Laws
pub mod WellFormed
use ceph_exporter.Base.{
  ℕ, ◌+◌, ◌-◌, ◌*◌, ◌%◌, ◌^◌, String, Bool, true, false, ◌&&◌, ◌||◌, Option, none, some, List, [],
  ◌∷◌, ◌++◌, map, ℤ, pos, negsuc, eqb_ℤ, Text, codes, text_eq, starts_with, split, leb, ltb,
  if◌then◌else◌, ◌==◌,
}
use ceph_exporter.Base.Result.{ok, err}
use ceph_exporter.Float.{Float64, of_count}
use ceph_exporter.Json.{to_lower}
use ceph_exporter.Prometheus.{Desc, Metric, gauge}
use ceph_exporter.Version.Decimal.{atoi}
use ceph_exporter.Health.FlagDescs
use ceph_exporter.Health.Io.Patterns.{byte_rate, recovery_io_rate, number_before, client_io_ops}

-- An `int` of 64 bits, from the number that its bits are of without a sign.
abbrev pub wrap : ℕ → ℤ
wrap n = let m = n % 2 ^ 64 in if ltb m (2 ^ 63) then pos m else negsuc (2 ^ 64 - 1 - m)

-- The product of an `int` and a number below 2 ^ 64.
abbrev pub times : ℤ → ℕ → ℤ
times (pos n) k = wrap (n * k)
times (negsuc n) k = wrap (2 ^ 64 - ((n + 1) * k) % 2 ^ 64)

-- The switch on the unit, which is matched in lower case.
abbrev pub scale : Text → Option ℕ
scale u =
    let unit = map to_lower u in
    if text_eq unit (codes "gb")
    then some 1000000000
    else if text_eq unit (codes "mb")
    then some 1000000
    else if text_eq unit (codes "kb")
    then some 1000
    else none

-- strings.TrimSpace, over ASCII
abbrev pub is_space : ℕ → Bool
is_space c = c == b' ' || leb 9 c && leb c 13

unfoldable pub trim_left : Text → Text
trim_left [] = []
trim_left (c ∷ s) = let rest = trim_left s in if is_space c then rest else c ∷ s

abbrev cons_unless_blank : ℕ → Text → Text
cons_unless_blank c [] = if is_space c then [] else c ∷ []
cons_unless_blank c (d ∷ s) = c ∷ d ∷ s

unfoldable pub trim_right : Text → Text
trim_right [] = []
trim_right (c ∷ s) = cons_unless_blank c (trim_right s)

unfoldable pub trim_space : Text → Text
unfolding trim_left trim_right
trim_space s = trim_right (trim_left s)

-- The lines that bufio.Scanner gives: it ends before a line that its buffer of 64 KB does not hold.
-- The empty part behind the last newline is no line of its own, and has no effect as one.
unfoldable pub within_limit : List Text → List Text
within_limit [] = []
within_limit (l ∷ ls) = let rest = within_limit ls in if leb 65536 (size l) then [] else l ∷ rest
  where
    size : Text → ℕ
    size [] = 0
    size (c ∷ s) = 1 + size s

unfoldable pub lines : Text → List Text
unfolding split within_limit
lines s = within_limit (split 10 s)

module _ (fl : Float64) where
  open fl use {Value}

  -- What is sent, and whether the function goes on; it returns an error where it does not.
  abbrev pub Sent : Type 0
  Sent = List (Metric Value) × Bool

  abbrev pub fails : Sent
  fails = ([], false)

  abbrev pub then_send : Sent → Sent → Sent
  then_send (ms, true) (ms', goes_on) = (ms ++ ms', goes_on)
  then_send (ms, false) rest = (ms, false)

  abbrev pub sample : Desc → Value → Metric Value
  sample d x = record { desc = d; kind = gauge; value = x; labels = [] }

  abbrev pub scaled : Desc → ℤ → Option ℕ → Sent
  scaled d v none = fails
  scaled d v (some k) = (sample d (fl.of_int (times v k)) ∷ [], true)

  -- A rate with a unit, where the line has one.
  abbrev pub send_rate : Desc → Option (Text × Text) → Sent
  send_rate d none = ([], true)
  send_rate d (some (digits, unit)) = elim (atoi digits) [
    | ok v ↦ scaled d v (scale unit)
    | err e ↦ fails
  ]

  -- A number without a unit. `none` is an error.
  abbrev pub counted : Option Text → Option (Option ℤ)
  counted none = some none
  counted (some digits) = elim (atoi digits) [ ok v ↦ some (some v) | err e ↦ none ]

  abbrev pub sent_count : Desc → Option ℤ → List (Metric Value)
  sent_count d none = []
  sent_count d (some v) = sample d (fl.of_int v) ∷ []

  abbrev pub with_count : Option (Option ℤ) → (Option ℤ → Sent) → Sent
  with_count none next = fails
  with_count (some n) next = next n

  abbrev pub send_count : Desc → Option Text → Sent
  send_count d found = with_count (counted found) λ n. (sent_count d n, true)

  abbrev pub number_or_zero : Option ℤ → ℤ
  number_or_zero none = pos 0
  number_or_zero (some v) = v

  -- The total, or where it is zero the sum of the two; a float64 of an int is zero where the int is.
  abbrev pub total_ops : Option ℤ → Option ℤ → Option ℤ → Value
  total_ops total reads writes =
      if eqb_ℤ (number_or_zero total) (pos 0)
      then fl.add (fl.of_int (number_or_zero reads)) (fl.of_int (number_or_zero writes))
      else fl.of_int (number_or_zero total)

  unfoldable pub collect_client_io : Text → Sent
  unfolding byte_rate client_io_ops number_before
  collect_client_io line =
      then_send
        (then_send (send_rate FlagDescs.client_read_bytes_per_sec (byte_rate "/s rd" line))
          (send_rate FlagDescs.client_write_bytes_per_sec (byte_rate "/s wr" line)))
        (with_count (counted (client_io_ops line)) λ total.
          with_count (counted (number_before " op/s rd" line)) λ reads.
            then_send (sent_count FlagDescs.client_io_read_ops reads, true)
              (with_count (counted (number_before " op/s wr" line)) λ writes. (
                sent_count FlagDescs.client_io_write_ops writes
                    ++ (sample FlagDescs.client_io_ops (total_ops total reads writes) ∷ []),
                true,
              )))

  unfoldable pub collect_recovery_io : Text → Sent
  unfolding recovery_io_rate number_before
  collect_recovery_io line =
      then_send
        (then_send (send_rate FlagDescs.recovery_io_rate (recovery_io_rate line))
          (send_count FlagDescs.recovery_io_keys (number_before " keys/s" line)))
        (send_count FlagDescs.recovery_io_objects (number_before " objects/s" line))

  unfoldable pub collect_cache_io : Text → Sent
  unfolding byte_rate number_before
  collect_cache_io line =
      then_send
        (then_send (send_rate FlagDescs.cache_flush_io_rate (byte_rate "/s flush" line))
          (send_rate FlagDescs.cache_evict_io_rate (byte_rate "/s evict" line)))
        (send_count FlagDescs.cache_promote_io_ops (number_before " op/s promote" line))

  -- The switch on the beginning of a line.
  unfoldable pub collect_line : Text → Sent
  unfolding collect_client_io collect_recovery_io collect_cache_io
  collect_line line =
      if starts_with (codes "recovery io") line || starts_with (codes "recovery:") line
      then collect_recovery_io line
      else if starts_with (codes "client io") line || starts_with (codes "client:") line
      then collect_client_io line
      else if starts_with (codes "cache io") line
      then collect_cache_io line
      else ([], true)

  -- The loop over the lines, which a line of Luminous ends.
  unfoldable pub collect_lines : List Text → Sent
  unfolding collect_line trim_space
  collect_lines [] = ([], true)
  collect_lines (l ∷ ls) =
      let rest = collect_lines ls in
      if text_eq (trim_space l) (codes "cluster:")
      then ([], true)
      else then_send (collect_line (trim_space l)) rest

  -- collectRecoveryClientIO; `reply` is the text of `ceph status` in the plain format, or an error of
  -- the command.
  unfoldable pub collect_recovery_client_io : Option Text → Sent
  unfolding collect_lines lines
  collect_recovery_client_io none = fails
  collect_recovery_client_io (some s) = collect_lines (lines s)
