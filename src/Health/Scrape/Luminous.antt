-- ===== src/Health/Scrape/Luminous.antt =====
-- What a scrape of ceph/health.go sends of a cluster of Luminous or later, which prints `cluster:`.
use ceph_exporter.Base.{
  ◌≡◌, refl, ap, ◌∙◌, Bool, true, not, ◌&&◌, ◌||◌, some, List, [], ◌∷◌, ◌++◌, all, Text, codes,
  text_eq, starts_with, if◌then◌else◌, Bool-cases, inl, inr, arith,
}
use mathlib.Core.List.{Perm, append-nil}
use mathlib.Core.List.Perm as Perms
use mathlib.Core.Path.{subst}
use ceph_exporter.Float.{Float64}
use ceph_exporter.Prometheus.{Metric}
use ceph_exporter.Version.{Version}
use ceph_exporter.Conn.{Conn}
use ceph_exporter.Exporter.Interleaving.{Received, Received-Perm}
use ceph_exporter.Health.Progress.{reached}
use ceph_exporter.Health.Collector.{ClusterHealthCollector, Visit, collect}
use ceph_exporter.Health.Io.{
  collect_recovery_client_io, collect_recovery_io, collect_client_io, collect_cache_io,
  collect_line, collect_lines, lines, trim_space,
}
use ceph_exporter.Health.Io.Laws.{collect_lines-cluster}
use ceph_exporter.Health.Scrape.{scrape, senders, gauge_metrics}

-- The line has none of the beginnings that are looked for.
abbrev pub is_other : Text → Bool
is_other t = not (
    starts_with (codes "recovery io") t
    || starts_with (codes "recovery:") t
    || starts_with (codes "client io") t
    || starts_with (codes "client:") t
    || starts_with (codes "cache io") t)

-- The last of the cases, where none of the tests holds.
last_case :
    {A : Type 0} (a b c d e : Bool) (x y z w : A)
    → not (a || b || c || d || e) ≡ true
    → (if a || b then x else if c || d then y else if e then z else w) ≡ w
last_case a b c d e x y z w h = ground arith

both : (b c : Bool) → (b && c) ≡ true → (b ≡ true) × (c ≡ true)
both b c h = ground arith

module _ (fl : Float64) where
  open fl use {Value}

  collect_line-is_other : (t : Text) → is_other t ≡ true → collect_line fl t ≡ ([], true)
  unfolding collect_line
  collect_line-is_other t h =
      last_case (starts_with (codes "recovery io") t) (starts_with (codes "recovery:") t)
        (starts_with (codes "client io") t) (starts_with (codes "client:") t)
        (starts_with (codes "cache io") t) (collect_recovery_io fl t) (collect_client_io fl t)
        (collect_cache_io fl t) ([], true) h

  collect_lines-is_other :
      (ls : List Text)
      → all (λ l. is_other (trim_space l)) ls ≡ true
      → collect_lines fl ls ≡ ([], true)
  unfolding collect_lines
  collect_lines-is_other [] h = refl
  collect_lines-is_other (l ∷ ls) h =
      let (here, rest) = both (is_other (trim_space l)) (all (λ l. is_other (trim_space l)) ls) h in
      elim (Bool-cases (text_eq (trim_space l) (codes "cluster:"))) [
        | inl e ↦ rw e refl
        | inr e ↦
            rw (e, collect_line-is_other (trim_space l) here, collect_lines-is_other ls rest) refl
      ]

  luminous_io :
      (s : Text) (before : List Text) (l : Text) (after : List Text)
      → lines s ≡ before ++ (l ∷ after)
      → all (λ l. is_other (trim_space l)) before ≡ true
      → text_eq (trim_space l) (codes "cluster:") ≡ true
      → collect_recovery_client_io fl (some s) ≡ ([], true)
  unfolding collect_recovery_client_io
  luminous_io s before l after e h c =
      ap (collect_lines fl) e
      ∙ collect_lines-cluster fl before l after c
      ∙ collect_lines-is_other before h

  -- Where the plain status of the cluster has the line `cluster:`, and no line before it begins as
  -- one of rates does, a Collect sends exactly what `collect` sends and the gauges, in whatever order
  -- the goroutines run and the checks are visited: no rate is sent a second time, as it is on an older cluster.
  pub scrape-luminous :
      (visit : Visit) (conn : Conn) (s : Text) (before : List Text) (l : Text) (after : List Text)
      (version : Version) (c : ClusterHealthCollector fl) (order : List (Metric Value))
      → lines s ≡ before ++ (l ∷ after)
      → all (λ l. is_other (trim_space l)) before ≡ true
      → text_eq (trim_space l) (codes "cluster:") ≡ true
      → Received (senders fl visit conn (some s) version c) order
      → Perm (scrape fl visit conn order version c).1 (
          (reached (collect fl visit conn version c)).sent
          ++ gauge_metrics fl (reached (collect fl visit conn version c)))
  unfolding scrape senders
  scrape-luminous visit conn s before l after version c order e h k r =
      Perms.append_right (gauge_metrics fl (reached (collect fl visit conn version c))) (
        subst (λ (ms : List (Metric Value)). Perm order ms)
          (ap (λ io. (reached (collect fl visit conn version c)).sent ++ (io.0 ++ []))
              (luminous_io s before l after e h k)
            ∙ append-nil (reached (collect fl visit conn version c)).sent)
          (Received-Perm r))
