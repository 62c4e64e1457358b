-- ===== src/Mds/Descs.antt =====
-- The descriptors that `NewMDSCollector` of ceph/mds.go makes.
use ceph_exporter.Base.{[], ◌∷◌}
use ceph_exporter.Prometheus.{Desc, describe}

abbrev pub mds_state : Desc
mds_state =
    describe "ceph_mds_daemon_state" "MDS Daemon State" ("fs" ∷ "name" ∷ "rank" ∷ "state" ∷ [])

abbrev pub mds_blocked_ops : Desc
mds_blocked_ops =
    describe "ceph_mds_blocked_ops" "MDS Blocked Ops"
      ("fs" ∷ "name" ∷ "state" ∷ "optype" ∷ "fs_optype" ∷ "flag_point" ∷ "inode" ∷ [])
