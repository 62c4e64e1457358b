-- ===== src/Osd.antt =====
-- ceph/osd.go: the collector of OSD metrics, a part to each module below.
pub mod Descs
pub mod Labels
pub mod Scrub
pub mod Inactive
pub mod Replies
pub mod Decoders
pub mod Writes
pub mod Names
pub mod Usage
pub mod Gather
pub mod Sent
pub mod Collector
