-- ===== src/ClusterUsage/Descs.antt =====
-- The descriptors that `NewClusterUsageCollector` of ceph/cluster_usage.go makes.
use ceph_exporter.Base.{[]}
use ceph_exporter.Prometheus.{Desc, describe}

abbrev pub global_capacity : Desc
global_capacity = describe "ceph_cluster_capacity_bytes" "Total capacity of the cluster" []

abbrev pub used_capacity : Desc
used_capacity = describe "ceph_cluster_used_bytes" "Capacity of the cluster currently in use" []

abbrev pub available_capacity : Desc
available_capacity = describe "ceph_cluster_available_bytes" "Available space within the cluster" []
