-- ===== src/Osd/Gather.antt =====
-- `collectOSDMetadata`, `collectOSDPerf` and `collectOSDDump` of ceph/osd.go.
pub mod Flags
use ceph_exporter.Base.{
  String, Option, none, some, ◌>>=◌, List, [], ◌∷◌, ◌++◌, map, codes, string_of, string_beq, int_eq,
  if◌then◌else◌,
}
use ceph_exporter.Float.{Float64, parse, of_count}
use ceph_exporter.Json.{unmarshal}
use ceph_exporter.Conn.{Conn}
use ceph_exporter.Version.Decimal.{atoi, print_int}
use ceph_exporter.Osd.Replies.{
  PerfStat, DumpInfo, Dump, OsdMetadata, perf_command, dump_command, metadata_command,
}
use ceph_exporter.Osd.Decoders.{decode_perf, decode_dump, decode_metadata_list}
use ceph_exporter.Osd.Writes.{
  pg_upmap_items_total, commit_latency, apply_latency, osd_in, osd_up, osd_metadata, osd_full_ratio,
  osd_near_full_ratio, osd_backfill_full_ratio, osd_full, osd_near_full, osd_backfill_full, Write,
  write, going, failed, Run, ◌>>◌, done, number,
}
use ceph_exporter.Osd.Names.{Labels, with_id, labels_of, as_is, milliseconds}

module _ (fl : Float64) where
  open fl use {Value, of_int, mul, div}

  unfoldable pub metadata_write : OsdMetadata → Write Value
  unfolding print_int
  metadata_write m =
      write osd_metadata
        (string_of (print_int m.id)
          ∷ m.osd_objectstore
          ∷ m.ceph_version_when_created
          ∷ m.created_at
          ∷ [])
        (of_count fl 1)

  unfoldable pub from_metadata : Option (List OsdMetadata) → Run Value
  unfolding metadata_write
  from_metadata none = ([], failed)
  from_metadata (some ms) = (map metadata_write ms, going)

  -- collectOSDMetadata
  unfoldable pub collect_metadata : Conn → Run Value
  unfolding decode_metadata_list from_metadata
  collect_metadata conn =
      from_metadata (do buf ← conn.mon_command metadata_command; unmarshal decode_metadata_list buf)

  unfoldable pub perf_stat : Labels fl → PerfStat → Run Value
  unfolding labels_of
  perf_stat labels s = with_id fl (atoi (codes s.id)) λ id.
      number fl failed commit_latency (labels_of fl labels id) (milliseconds fl) s.commit_latency
      >> number fl failed apply_latency (labels_of fl labels id) (milliseconds fl) s.apply_latency

  unfoldable pub perf_stats : Labels fl → List PerfStat → Run Value
  unfolding perf_stat
  perf_stats labels [] = done
  perf_stats labels (s ∷ ss) = perf_stat labels s >> perf_stats labels ss

  unfoldable pub from_perf : Labels fl → Option (List PerfStat) → Run Value
  unfolding perf_stats
  from_perf labels none = ([], failed)
  from_perf labels (some ss) = perf_stats labels ss

  -- collectOSDPerf
  unfoldable pub collect_perf : Labels fl → Conn → Run Value
  unfolding decode_perf from_perf
  collect_perf labels conn =
      from_perf labels
        (do buf ← conn.mgr_command (perf_command ∷ []); unmarshal (decode_perf fl) buf)

  -- The switch on one state.
  abbrev pub state_write : List String → String → List (Write Value)
  state_write ls state =
      if string_beq state "full"
      then write osd_full ls (of_count fl 1) ∷ []
      else if string_beq state "nearfull"
      then write osd_near_full ls (of_count fl 1) ∷ []
      else if string_beq state "backfillfull"
      then write osd_backfill_full ls (of_count fl 1) ∷ []
      else []

  unfoldable pub state_writes : List String → List String → List (Write Value)
  state_writes ls [] = []
  state_writes ls (state ∷ states) = state_write ls state ++ state_writes ls states

  abbrev pub zero_states : List String → List (Write Value)
  zero_states ls =
      write osd_full ls (of_count fl 0)
      ∷ write osd_near_full ls (of_count fl 0)
      ∷ write osd_backfill_full ls (of_count fl 0)
      ∷ []

  unfoldable pub dump_info : Labels fl → DumpInfo → Run Value
  unfolding labels_of state_writes
  dump_info labels d = with_id fl (atoi (codes d.osd)) λ id.
      let ls = labels_of fl labels id in
      number fl failed osd_in ls (as_is fl) d.is_in
      >> number fl failed osd_up ls (as_is fl) d.up
      >> (zero_states ls ++ state_writes ls d.state, going)

  unfoldable pub dump_infos : Labels fl → List DumpInfo → Run Value
  unfolding dump_info
  dump_infos labels [] = done
  dump_infos labels (d ∷ ds) = dump_info labels d >> dump_infos labels ds

  -- The three ratios are read before any of them is set.
  unfoldable pub ratios : Dump → Option (List (Write Value))
  ratios d = do
    full ← parse fl d.full_ratio
    near_full ← parse fl d.near_full_ratio
    backfill_full ← parse fl d.backfill_full_ratio
    some (
        write osd_full_ratio [] full
        ∷ write osd_near_full_ratio [] near_full
        ∷ write osd_backfill_full_ratio [] backfill_full
        ∷ write pg_upmap_items_total [] (of_count fl d.upmap_items)
        ∷ [])

  abbrev pub if_read : Option (List (Write Value)) → Run Value
  if_read none = ([], failed)
  if_read (some ws) = (ws, going)

  unfoldable pub from_dump : Labels fl → Option Dump → Run Value
  unfolding ratios dump_infos
  from_dump labels none = ([], failed)
  from_dump labels (some d) = if_read (ratios d) >> dump_infos labels d.osds

  -- collectOSDDump
  unfoldable pub collect_dump : Labels fl → Conn → Run Value
  unfolding decode_dump from_dump
  collect_dump labels conn =
      from_dump labels (do buf ← conn.mon_command dump_command; unmarshal (decode_dump fl) buf)
