-- ===== src/Rgw/Descs.antt =====
-- The descriptors that `NewRGWCollector` of ceph/rgw.go makes.
use ceph_exporter.Base.{[], ◌∷◌}
use ceph_exporter.Prometheus.{Desc, describe}

abbrev pub gc_active_tasks : Desc
gc_active_tasks = describe "ceph_rgw_gc_active_tasks" "RGW GC active task count" []

abbrev pub gc_active_objects : Desc
gc_active_objects = describe "ceph_rgw_gc_active_objects" "RGW GC active object count" []

abbrev pub gc_pending_tasks : Desc
gc_pending_tasks = describe "ceph_rgw_gc_pending_tasks" "RGW GC pending task count" []

abbrev pub gc_pending_objects : Desc
gc_pending_objects = describe "ceph_rgw_gc_pending_objects" "RGW GC pending object count" []

abbrev pub active_reshards : Desc
active_reshards = describe "ceph_rgw_active_reshards" "RGW active bucket reshard operations" []

abbrev pub active_bucket_reshard : Desc
active_bucket_reshard =
    describe "ceph_rgw_bucket_reshard" "RGW bucket reshard operation" ("bucket" ∷ [])
