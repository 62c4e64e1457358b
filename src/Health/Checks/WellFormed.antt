-- ===== src/Health/Checks/WellFormed.antt =====
-- The metrics that the checks of ceph/health.go send have a label value for each of their labels.
use ceph_exporter.Base.{
  ℕ, String, ◌≡◌, refl, Bool, true, false, Option, none, some, List, [], ◌∷◌, all-append, length, ℤ,
  Text, codes, string_of, string_eq, if◌then◌else◌,
}
use ceph_exporter.Base.Result.{Result, ok, err}
use ceph_exporter.Float.{Float64}
use ceph_exporter.Version.{Version}
use ceph_exporter.Version.Decimal.{atoi, NumError}
use ceph_exporter.Prometheus.{Desc, Metric}
use ceph_exporter.Prometheus.WellFormed.{is_well_formed, are_well_formed}
use ceph_exporter.Health.Progress.{
  Progress, Outcome, going, failed, panicked, ◌>>=◌, reached, send, const_metric, send_number,
}
use ceph_exporter.Health.Descs
use ceph_exporter.Health.FlagDescs
use ceph_exporter.Health.Messages
use ceph_exporter.Health.Checks as Checks
use ceph_exporter.Health.Collector as Health

module _ (fl : Float64) where
  open fl use {Value}

  -- What has been sent.
  unfoldable pub is_fit : Progress fl → Bool
  is_fit p = are_well_formed p.sent

  unfoldable pub is_sound : Outcome (Progress fl) → Bool
  unfolding is_fit
  is_sound o = is_fit (reached o)

  pub going-is_sound : (p : Progress fl) → is_fit p ≡ true → is_sound (going p) ≡ true
  unfolding is_sound
  going-is_sound p h = h

  pub panicked-is_sound : (p : Progress fl) → is_fit p ≡ true → is_sound (panicked p) ≡ true
  unfolding is_sound
  panicked-is_sound p h = h

  pub zero-is_fit : (p : Progress fl) → is_fit p ≡ true → is_fit (Checks.zero_gauges fl p) ≡ true
  unfolding Checks.zero_gauges is_fit
  zero-is_fit p h = h

  status_values-is_fit :
      (status interpreter : ℕ) (p : Progress fl)
      → is_fit p ≡ true
      → is_fit (Checks.status_values fl status interpreter p) ≡ true
  unfolding is_fit
  status_values-is_fit status interpreter p h = all-append is_well_formed p.sent _ h refl

  pub >>=-is_sound :
      (o : Outcome (Progress fl)) (next : Progress fl → Outcome (Progress fl))
      → is_sound o ≡ true
      → ((p : Progress fl) → is_fit p ≡ true → is_sound (next p) ≡ true)
      → is_sound (o >>= next) ≡ true
  unfolding is_sound
  >>=-is_sound (going p) next h k = k p h
  >>=-is_sound (failed p) next h k = h
  >>=-is_sound (panicked p) next h k = h

  if-is_sound :
      (b : Bool) (o o' : Outcome (Progress fl))
      → is_sound o ≡ true
      → is_sound o' ≡ true
      → is_sound (if b then o else o') ≡ true
  if-is_sound true o o' h k = h
  if-is_sound false o o' h k = k

  if-is_fit :
      (b : Bool) (p p' : Progress fl)
      → is_fit p ≡ true
      → is_fit p' ≡ true
      → is_fit (if b then p else p') ≡ true
  if-is_fit true p p' h k = h
  if-is_fit false p p' h k = k

  pub send_all-is_fit :
      (ms : List (Metric Value)) (p : Progress fl)
      → are_well_formed ms ≡ true
      → is_fit p ≡ true
      → is_fit (Health.send_all fl ms p) ≡ true
  unfolding is_fit
  send_all-is_fit ms p h k = all-append is_well_formed p.sent ms k h

  send_number-is_sound :
      (d : Desc) (found : Option Text) (p : Progress fl)
      → length d.labels ≡ 0
      → is_fit p ≡ true
      → is_sound (send_number fl d found p) ≡ true
  unfolding is_sound
  send_number-is_sound d none p h k = k
  send_number-is_sound d (some digits) p h k = go (atoi digits)
    where
      go :
          (r : Result NumError ℤ)
          → is_sound (elim r [
            | ok v ↦ going (send fl (const_metric fl d (fl.of_int v) []) p)
            | err e ↦ failed p
          ])
            ≡ true
      go (ok v) = all-append is_well_formed p.sent _ k (rw h refl)
      go (err e) = k

  then_number-is_sound :
      (o : Outcome (Progress fl)) (d : Desc) (found : Option Text)
      → length d.labels ≡ 0
      → is_sound o ≡ true
      → is_sound (o >>= send_number fl d found) ≡ true
  then_number-is_sound o d found h k =
      >>=-is_sound o (send_number fl d found) k (λ p. send_number-is_sound d found p h)

  read_summary-is_sound :
      (s : Text) (p : Progress fl) → is_fit p ≡ true → is_sound (Checks.read_summary fl s p) ≡ true
  unfolding Checks.read_summary
  read_summary-is_sound s p h =
      let o1 = send_number fl Descs.stuck_degraded_pgs (Messages.stuck "degraded" s) p in
      let o2 = o1 >>= send_number fl Descs.stuck_unclean_pgs (Messages.stuck "unclean" s) in
      let o3 = o2 >>= send_number fl Descs.stuck_undersized_pgs (Messages.stuck "undersized" s) in
      let o4 = o3 >>= send_number fl Descs.stuck_stale_pgs (Messages.stuck "stale" s) in
      let h1 =
        send_number-is_sound Descs.stuck_degraded_pgs (Messages.stuck "degraded" s) p refl h in
      let h2 =
        then_number-is_sound o1 Descs.stuck_unclean_pgs (Messages.stuck "unclean" s) refl h1 in
      let h3 =
        then_number-is_sound o2 Descs.stuck_undersized_pgs (Messages.stuck "undersized" s) refl
          h2 in
      let h4 = then_number-is_sound o3 Descs.stuck_stale_pgs (Messages.stuck "stale" s) refl h3 in
      then_number-is_sound o4 Descs.slow_ops (Messages.slow_ops s) refl h4

  pub read_summaries-is_sound :
      (ss : List String) (p : Progress fl)
      → is_fit p ≡ true
      → is_sound (Checks.read_summaries fl ss p) ≡ true
  unfolding Checks.read_summaries
  read_summaries-is_sound [] p h = going-is_sound p h
  read_summaries-is_sound (s ∷ ss) p h =
      >>=-is_sound (Checks.read_summary fl (codes s) p) (Checks.read_summaries fl ss)
        (read_summary-is_sound (codes s) p h) (λ q k. read_summaries-is_sound ss q k)

  raise_all-is_fit :
      (fs : List Text) (p : Progress fl)
      → is_fit p ≡ true
      → is_fit (Checks.raise_all fl fs p) ≡ true
  unfolding Checks.raise_all is_fit
  raise_all-is_fit [] p h = h
  raise_all-is_fit (f ∷ fs) p h =
      raise_all-is_fit fs (Checks.raise fl (string_of f) p)
        (all-append is_well_formed p.sent _ h refl)

  read_message-is_sound :
      (key : String) (message : Text) (p : Progress fl)
      → is_fit p ≡ true
      → is_sound (Checks.read_message fl key message p) ≡ true
  unfolding Checks.read_message
  read_message-is_sound key message p h =
      if-is_sound _ _ _ (send_number-is_sound Descs.mons_down (Messages.mons_down message) p refl h)
        (if-is_sound _ _ _
          (send_number-is_sound Descs.slow_ops (Messages.slow_ops message) p refl h)
          (if-is_sound _ _ _
            (send_number-is_sound Descs.new_crash_report_count (Messages.new_crash_reports message)
              p refl h)
            (if-is_sound _ _ _
              (send_number-is_sound FlagDescs.too_many_repairs (Messages.too_many_repairs message) p
                refl h)
              (if-is_sound _ _ _
                (going-is_sound _
                  (raise_all-is_fit (Checks.flags_of (Messages.flags_set message)) p h))
                (going-is_sound p h)))))

  interpret-is_fit :
      (v : Version) (map_empty : Bool) (key : String) (p : Progress fl)
      → is_fit p ≡ true
      → is_fit (Checks.interpret fl v map_empty key p) ≡ true
  unfolding Checks.interpret is_fit
  interpret-is_fit v map_empty key p h = h

  pub read_checks-is_sound :
      (v : Version) (map_empty : Bool) (checks : List (String × String)) (p : Progress fl)
      → is_fit p ≡ true
      → is_sound (Checks.read_checks fl v map_empty checks p) ≡ true
  unfolding Checks.read_checks Checks.read_check
  read_checks-is_sound v map_empty [] p h = going-is_sound p h
  read_checks-is_sound v map_empty ((key, message) ∷ rest) p h =
      >>=-is_sound (Checks.read_check fl v map_empty key (codes message) p)
        (Checks.read_checks fl v map_empty rest)
        (>>=-is_sound (Checks.read_message fl key (codes message) p) _
          (read_message-is_sound key (codes message) p h)
          (λ q k. going-is_sound _ (interpret-is_fit v map_empty key q k)))
        (λ q k. read_checks-is_sound v map_empty rest q k)

  pub set_status-is_fit :
      (status : String) (p : Progress fl)
      → is_fit p ≡ true
      → is_fit (Checks.set_status fl status p) ≡ true
  unfolding Checks.set_status
  set_status-is_fit status p h = if-is_fit _ _ _ (status_values-is_fit 0 0 p h) (
      if-is_fit _ _ _ (status_values-is_fit 1 2 p h)
        (if-is_fit _ _ p (status_values-is_fit 2 3 p h) h))
