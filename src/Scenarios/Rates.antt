-- ===== src/Scenarios/Rates.antt =====
-- The theorems on the rates of the clients, at lines that Ceph prints.
use ceph_exporter.Base.{ℕ, ◌≡◌, refl, some, List, [], ◌∷◌, ◌++◌, true, Text, codes, split, arith}
use mathlib.Core.List.{Perm}
use ceph_exporter.Prometheus.{Metric}
use ceph_exporter.Version.{quincy}
use ceph_exporter.Conn.{Conn}
use ceph_exporter.Json.{str}
use ceph_exporter.Exporter.Interleaving.{Received, closed}
use ceph_exporter.Health.FlagDescs
use ceph_exporter.Health.Progress.{reached}
use ceph_exporter.Health.Collector.{
  ClusterHealthCollector, Visit, new_cluster_health_collector, collect,
}
use ceph_exporter.Health.Io.{
  sample, collect_client_io, collect_recovery_client_io, lines, within_limit, trim_space,
}
use ceph_exporter.Health.Io.Lines.{kilo, mega, hammer_line, jewel_line}
use ceph_exporter.Health.Io.Laws.{Fits, collect_client_io-lines}
use ceph_exporter.Health.Scrape.{scrape, senders, gauge_metrics}
use ceph_exporter.Health.Scrape.Luminous.{scrape-luminous}
use ceph_exporter.Scenarios.{drain, whole, object, cluster}

collect_client_io-lines_example :
    (collect_client_io whole (hammer_line 4273 kilo 2740 mega 2863) ≡ (
      sample whole FlagDescs.client_read_bytes_per_sec 4273000
          ∷ sample whole FlagDescs.client_write_bytes_per_sec 2740000000
          ∷ sample whole FlagDescs.client_io_ops 2863
          ∷ [],
      true,
    ))
    × (collect_client_io whole (jewel_line 4273 kilo 2740 mega 2863 5847) ≡ (
      sample whole FlagDescs.client_read_bytes_per_sec 4273000
          ∷ sample whole FlagDescs.client_write_bytes_per_sec 2740000000
          ∷ sample whole FlagDescs.client_io_read_ops 2863
          ∷ sample whole FlagDescs.client_io_write_ops 5847
          ∷ sample whole FlagDescs.client_io_ops 8710
          ∷ [],
      true,
    ))
unfolding Fits
collect_client_io-lines_example =
    collect_client_io-lines whole 4273 kilo 2740 mega 2863 5847 (omega arith) (omega arith)
      (omega arith) (omega arith) (omega arith)

-- The plain status of a cluster of Luminous.
abbrev status : Text
status = codes "  cluster:" ++ (10 ∷ (codes "  client:   10 kB/s rd, 5 op/s rd" ++ (10 ∷ [])))

status_lines :
    lines status ≡ [] ++ (codes "  cluster:" ∷ codes "  client:   10 kB/s rd, 5 op/s rd" ∷ [] ∷ [])
unfolding lines split within_limit
status_lines = refl

abbrev calm : Conn
calm =
    cluster (("status", object (("health", object (("status", str "HEALTH_OK") ∷ [])) ∷ [])) ∷ [])

abbrev in_reply_order : Visit
in_reply_order checks = checks

abbrev fresh : ClusterHealthCollector whole
fresh = new_cluster_health_collector whole

-- The goroutine of `collect` sends first.
abbrev order : List (Metric ℕ)
order =
    (reached (collect whole in_reply_order calm quincy fresh)).sent
    ++ ((collect_recovery_client_io whole (some status)).0 ++ [])

received : Received (senders whole in_reply_order calm (some status) quincy fresh) order
unfolding senders
received =
    drain (reached (collect whole in_reply_order calm quincy fresh)).sent
      (drain (collect_recovery_client_io whole (some status)).0 closed)

scrape-luminous_example : Perm (scrape whole in_reply_order calm order quincy fresh).1 (
    (reached (collect whole in_reply_order calm quincy fresh)).sent
    ++ gauge_metrics whole (reached (collect whole in_reply_order calm quincy fresh)))
unfolding trim_space
scrape-luminous_example =
    scrape-luminous whole in_reply_order calm status [] (codes "  cluster:")
      (codes "  client:   10 kB/s rd, 5 op/s rd" ∷ [] ∷ []) quincy fresh order status_lines refl
      refl received
