-- ===== src/Health/KnownChecks.antt =====
-- The checks that `NewClusterHealthCollector` of ceph/health.go knows, and how grave each is.
use ceph_exporter.Base.{ℕ, String, List, [], ◌∷◌}

abbrev pub known_checks : List (String × ℕ)
known_checks =
    ("AUTH_BAD_CAPS", 2)
    ∷ ("BLUEFS_AVAILABLE_SPACE", 1)
    ∷ ("BLUEFS_LOW_SPACE", 1)
    ∷ ("BLUEFS_SPILLOVER", 1)
    ∷ ("BLUESTORE_DISK_SIZE_MISMATCH", 1)
    ∷ ("BLUESTORE_FRAGMENTATION", 1)
    ∷ ("BLUESTORE_LEGACY_STATFS", 1)
    ∷ ("BLUESTORE_NO_COMPRESSION", 1)
    ∷ ("BLUESTORE_NO_PER_POOL_MAP", 1)
    ∷ ("CACHE_POOL_NEAR_FULL", 1)
    ∷ ("CACHE_POOL_NO_HIT_SET", 1)
    ∷ ("DEVICE_HEALTH", 1)
    ∷ ("DEVICE_HEALTH_IN_USE", 2)
    ∷ ("DEVICE_HEALTH_TOOMANY", 2)
    ∷ ("LARGE_OMAP_OBJECTS", 1)
    ∷ ("MANY_OBJECTS_PER_PG", 1)
    ∷ ("MGR_DOWN", 2)
    ∷ ("MGR_MODULE_DEPENDENCY", 1)
    ∷ ("MGR_MODULE_ERROR", 2)
    ∷ ("MON_CLOCK_SKEW", 2)
    ∷ ("MON_DISK_BIG", 1)
    ∷ ("MON_DISK_CRIT", 2)
    ∷ ("MON_DISK_LOW", 2)
    ∷ ("MON_DOWN", 2)
    ∷ ("MON_MSGR2_NOT_ENABLED", 2)
    ∷ ("OBJECT_MISPLACED", 1)
    ∷ ("OBJECT_UNFOUND", 2)
    ∷ ("OLD_CRUSH_STRAW_CALC_VERSION", 1)
    ∷ ("OLD_CRUSH_TUNABLES", 2)
    ∷ ("OSDMAP_FLAGS", 1)
    ∷ ("OSD_BACKFILLFULL", 2)
    ∷ ("OSD_CHASSIS_DOWN", 1)
    ∷ ("OSD_DATACENTER_DOWN", 1)
    ∷ ("OSD_DOWN", 1)
    ∷ ("OSD_FLAGS", 1)
    ∷ ("OSD_FULL", 2)
    ∷ ("OSD_HOST_DOWN", 1)
    ∷ ("OSD_NEARFULL", 2)
    ∷ ("OSD_NO_DOWN_OUT_INTERVAL", 2)
    ∷ ("OSD_NO_SORTBITWISE", 2)
    ∷ ("OSD_ORPHAN", 2)
    ∷ ("OSD_OSD_DOWN", 1)
    ∷ ("OSD_OUT_OF_ORDER_FULL", 2)
    ∷ ("OSD_PDU_DOWN", 1)
    ∷ ("OSD_POD_DOWN", 1)
    ∷ ("OSD_RACK_DOWN", 1)
    ∷ ("OSD_REGION_DOWN", 1)
    ∷ ("OSD_ROOM_DOWN", 1)
    ∷ ("OSD_ROOT_DOWN", 1)
    ∷ ("OSD_ROW_DOWN", 1)
    ∷ ("OSD_SCRUB_ERRORS", 2)
    ∷ ("OSD_TOO_MANY_REPAIRS", 1)
    ∷ ("PG_AVAILABILITY", 1)
    ∷ ("PG_BACKFILL_FULL", 2)
    ∷ ("PG_DAMAGED", 2)
    ∷ ("PG_DEGRADED", 1)
    ∷ ("PG_NOT_DEEP_SCRUBBED", 1)
    ∷ ("PG_NOT_SCRUBBED", 1)
    ∷ ("PG_RECOVERY_FULL", 2)
    ∷ ("PG_SLOW_SNAP_TRIMMING", 1)
    ∷ ("POOL_APP_NOT_ENABLED", 2)
    ∷ ("POOL_FULL", 2)
    ∷ ("POOL_NEAR_FULL", 2)
    ∷ ("POOL_TARGET_SIZE_BYTES_OVERCOMMITTED", 1)
    ∷ ("POOL_TARGET_SIZE_RATIO_OVERCOMMITTED", 1)
    ∷ ("POOL_TOO_FEW_PGS", 1)
    ∷ ("POOL_TOO_MANY_PGS", 1)
    ∷ ("RECENT_CRASH", 1)
    ∷ ("SLOW_OPS", 1)
    ∷ ("SMALLER_PGP_NUM", 1)
    ∷ ("TELEMETRY_CHANGED", 1)
    ∷ ("TOO_FEW_OSDS", 1)
    ∷ ("TOO_FEW_PGS", 1)
    ∷ ("TOO_MANY_PGS", 1)
    ∷ []
