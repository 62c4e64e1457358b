-- ===== src/RbdMirror/Descs.antt =====
-- The descriptors that `NewRbdMirrorStatusCollector` of ceph/rbd_mirror_status.go makes.
use ceph_exporter.Base.{[]}
use ceph_exporter.Prometheus.{Desc, describe}

abbrev pub rbd_mirror_status : Desc
rbd_mirror_status =
    describe "ceph_rbd_mirror_pool_status"
      "Health status of rbd-mirror, can vary only between 3 states (err:2, warn:1, ok:0)" []

abbrev pub rbd_mirror_daemon_status : Desc
rbd_mirror_daemon_status =
    describe "ceph_rbd_mirror_pool_daemon_status"
      "Health status of rbd-mirror daemons, can vary only between 3 states (err:2, warn:1, ok:0)" []

abbrev pub rbd_mirror_image_status : Desc
rbd_mirror_image_status =
    describe "ceph_rbd_mirror_pool_image_status"
      "Health status of rbd-mirror images, can vary only between 3 states (err:2, warn:1, ok:0)" []
