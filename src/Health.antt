-- ===== src/Health.antt =====
-- ceph/health.go: the health of the cluster.
pub mod Descs
pub mod FlagDescs
pub mod KnownChecks
pub mod Messages
pub mod States
pub mod Progress
pub mod Checks
pub mod Reply
pub mod Totals
pub mod Collector
pub mod Io
pub mod Scrape
