-- ===== src/Health/Io/WellFormed.antt =====
-- The metrics of the client, recovery and cache rates of ceph/health.go have no labels.
use ceph_exporter.Base.{
  ℕ, length, text_eq, ◌≡◌, refl, Bool, true, false, Option, none, some, List, [], ◌∷◌, ◌++◌,
  all-append, ℤ, Text, codes, if◌then◌else◌,
}
use ceph_exporter.Base.Result.{Result, ok, err}
use ceph_exporter.Float.{Float64}
use ceph_exporter.Prometheus.{Desc, Metric}
use ceph_exporter.Prometheus.WellFormed.{is_well_formed, are_well_formed}
use ceph_exporter.Version.Decimal.{atoi, NumError}
use ceph_exporter.Health.Io as Io
use ceph_exporter.Health.FlagDescs
use ceph_exporter.Health.Io.Patterns.{byte_rate, client_io_ops, number_before, recovery_io_rate}

module _ (fl : Float64) where
  open fl use {Value}

  unfoldable is_fit : Io.Sent fl → Bool
  is_fit s = are_well_formed s.0

  then_send-is_fit :
      (a b : Io.Sent fl) → is_fit a ≡ true → is_fit b ≡ true → is_fit (Io.then_send fl a b) ≡ true
  unfolding is_fit
  then_send-is_fit (ms, true) (ms', goes_on) h k = all-append is_well_formed ms ms' h k
  then_send-is_fit (ms, false) b h k = h

  nothing-is_fit : is_fit ([], true) ≡ true
  unfolding is_fit
  nothing-is_fit = refl

  append-is_fit :
      (ms ms' : List (Metric Value))
      → is_fit (ms, true) ≡ true
      → is_fit (ms', true) ≡ true
      → is_fit (ms ++ ms', true) ≡ true
  unfolding is_fit
  append-is_fit ms ms' h k = all-append is_well_formed ms ms' h k

  sample-is_fit :
      (d : Desc) (x : Value) → length d.labels ≡ 0 → is_fit (Io.sample fl d x ∷ [], true) ≡ true
  unfolding is_fit
  sample-is_fit d x h = rw h refl

  scaled-is_fit :
      (d : Desc) (v : ℤ) (o : Option ℕ) → length d.labels ≡ 0 → is_fit (Io.scaled fl d v o) ≡ true
  unfolding is_fit
  scaled-is_fit d v none h = refl
  scaled-is_fit d v (some k) h = rw h refl

  send_rate-is_fit :
      (d : Desc) (found : Option (Text × Text))
      → length d.labels ≡ 0
      → is_fit (Io.send_rate fl d found) ≡ true
  unfolding is_fit
  send_rate-is_fit d none h = refl
  send_rate-is_fit d (some (digits, unit)) h = go (atoi digits)
    where
      go :
          (r : Result NumError ℤ)
          → is_fit (elim r [ ok v ↦ Io.scaled fl d v (Io.scale unit) | err e ↦ Io.fails fl ]) ≡ true
      go (ok v) = scaled-is_fit d v (Io.scale unit) h
      go (err e) = refl

  sent_count-is_fit :
      (d : Desc) (o : Option ℤ) → length d.labels ≡ 0 → is_fit (Io.sent_count fl d o, true) ≡ true
  unfolding is_fit
  sent_count-is_fit d none h = refl
  sent_count-is_fit d (some v) h = rw h refl

  with_count-is_fit :
      (o : Option (Option ℤ)) (next : Option ℤ → Io.Sent fl)
      → ((n : Option ℤ) → is_fit (next n) ≡ true)
      → is_fit (Io.with_count fl o next) ≡ true
  unfolding is_fit
  with_count-is_fit none next h = refl
  with_count-is_fit (some n) next h = h n

  send_count-is_fit :
      (d : Desc) (found : Option Text)
      → length d.labels ≡ 0
      → is_fit (Io.send_count fl d found) ≡ true
  send_count-is_fit d found h =
      with_count-is_fit (Io.counted fl found) (λ n. (Io.sent_count fl d n, true))
        (λ n. sent_count-is_fit d n h)

  collect_client_io-is_fit : (line : Text) → is_fit (Io.collect_client_io fl line) ≡ true
  unfolding Io.collect_client_io
  collect_client_io-is_fit line =
      then_send-is_fit _ _
        (then_send-is_fit
          (Io.send_rate fl FlagDescs.client_read_bytes_per_sec (byte_rate "/s rd" line))
          (Io.send_rate fl FlagDescs.client_write_bytes_per_sec (byte_rate "/s wr" line))
          (send_rate-is_fit FlagDescs.client_read_bytes_per_sec _ refl)
          (send_rate-is_fit FlagDescs.client_write_bytes_per_sec _ refl))
        (with_count-is_fit (Io.counted fl (client_io_ops line)) _ (λ total.
          with_count-is_fit (Io.counted fl (number_before " op/s rd" line)) _ (λ reads.
            then_send-is_fit (Io.sent_count fl FlagDescs.client_io_read_ops reads, true) _
              (sent_count-is_fit FlagDescs.client_io_read_ops reads refl)
              (with_count-is_fit (Io.counted fl (number_before " op/s wr" line)) _ (λ writes.
                append-is_fit _ _ (sent_count-is_fit FlagDescs.client_io_write_ops writes refl) (
                  sample-is_fit FlagDescs.client_io_ops (Io.total_ops fl total reads writes)
                    refl))))))

  collect_recovery_io-is_fit : (line : Text) → is_fit (Io.collect_recovery_io fl line) ≡ true
  unfolding Io.collect_recovery_io
  collect_recovery_io-is_fit line =
      then_send-is_fit _ (Io.send_count fl FlagDescs.recovery_io_objects _)
        (then_send-is_fit (Io.send_rate fl FlagDescs.recovery_io_rate _)
          (Io.send_count fl FlagDescs.recovery_io_keys _)
          (send_rate-is_fit FlagDescs.recovery_io_rate (recovery_io_rate line) refl)
          (send_count-is_fit FlagDescs.recovery_io_keys (number_before " keys/s" line) refl))
        (send_count-is_fit FlagDescs.recovery_io_objects (number_before " objects/s" line) refl)

  collect_cache_io-is_fit : (line : Text) → is_fit (Io.collect_cache_io fl line) ≡ true
  unfolding Io.collect_cache_io
  collect_cache_io-is_fit line =
      then_send-is_fit _ (Io.send_count fl FlagDescs.cache_promote_io_ops _)
        (then_send-is_fit (Io.send_rate fl FlagDescs.cache_flush_io_rate _)
          (Io.send_rate fl FlagDescs.cache_evict_io_rate _)
          (send_rate-is_fit FlagDescs.cache_flush_io_rate (byte_rate "/s flush" line) refl)
          (send_rate-is_fit FlagDescs.cache_evict_io_rate (byte_rate "/s evict" line) refl))
        (send_count-is_fit FlagDescs.cache_promote_io_ops (number_before " op/s promote" line) refl)

  -- A branch that fits, whichever it is.
  if-is_fit :
      (b : Bool) (s s' : Io.Sent fl)
      → is_fit s ≡ true
      → is_fit s' ≡ true
      → is_fit (if b then s else s') ≡ true
  if-is_fit true s s' h k = h
  if-is_fit false s s' h k = k

  collect_line-is_fit : (line : Text) → is_fit (Io.collect_line fl line) ≡ true
  unfolding Io.collect_line
  collect_line-is_fit line =
      if-is_fit _ (Io.collect_recovery_io fl line) _ (collect_recovery_io-is_fit line) (
        if-is_fit _ (Io.collect_client_io fl line) _ (collect_client_io-is_fit line) (
          if-is_fit _ (Io.collect_cache_io fl line) ([], true) (collect_cache_io-is_fit line)
            nothing-is_fit))

  collect_lines-is_fit : (ls : List Text) → is_fit (Io.collect_lines fl ls) ≡ true
  unfolding Io.collect_lines
  collect_lines-is_fit [] = nothing-is_fit
  collect_lines-is_fit (l ∷ ls) =
      if-is_fit (text_eq (Io.trim_space l) (codes "cluster:")) ([], true) _ nothing-is_fit
        (then_send-is_fit (Io.collect_line fl (Io.trim_space l)) (Io.collect_lines fl ls)
          (collect_line-is_fit (Io.trim_space l)) (collect_lines-is_fit ls))

  pub collect_recovery_client_io-is_fit :
      (reply : Option Text) → are_well_formed (Io.collect_recovery_client_io fl reply).0 ≡ true
  unfolding Io.collect_recovery_client_io is_fit
  collect_recovery_client_io-is_fit none = refl
  collect_recovery_client_io-is_fit (some text) = collect_lines-is_fit (Io.lines text)
