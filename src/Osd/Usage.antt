-- ===== src/Osd/Usage.antt =====
-- `collectOSDDF` of ceph/osd.go.
pub mod Columns
pub mod Laws
use ceph_exporter.Base.{Option, none, some, ◌>>=◌, List, [], ◌∷◌, int_eq}
use ceph_exporter.Float.{Float64}
use ceph_exporter.Json.{Buffer, unmarshal}
use ceph_exporter.Conn.{Conn}
use ceph_exporter.Osd.Replies.{DfNode, DfSummary, Df, df_command}
use ceph_exporter.Osd.Decoders.{decode_df}
use ceph_exporter.Osd.Writes.{
  crush_weight, depth, reweight, bytes, used_bytes, avail_bytes, utilization, variance, pgs,
  total_bytes, total_used_bytes, total_avail_bytes, average_util, going, returned, failed, Run,
  ◌>>◌, done, number,
}
use ceph_exporter.Osd.Names.{Labels, label_from_name, label_values, as_is, kilobytes}

module _ (fl : Float64) where
  open fl use {Value, of_int, mul, div}

  -- The round of collectOSDDF for one node. A size that cannot be read ends the function without an
  -- error; a number of groups that cannot be read is passed over.
  unfoldable pub df_node : Labels fl → DfNode → Run Value
  unfolding label_from_name
  df_node labels n =
      let ls = label_values fl n.name (label_from_name fl labels n.name) in
      number fl failed crush_weight ls (as_is fl) n.crush_weight
      >> number fl failed depth ls (as_is fl) n.depth
      >> number fl failed reweight ls (as_is fl) n.reweight
      >> number fl returned bytes ls (kilobytes fl) n.kb
      >> number fl failed used_bytes ls (kilobytes fl) n.used_kb
      >> number fl failed avail_bytes ls (kilobytes fl) n.avail_kb
      >> number fl failed utilization ls (as_is fl) n.utilization
      >> number fl failed variance ls (as_is fl) n.variance
      >> number fl going pgs ls (as_is fl) n.pgs

  unfoldable pub df_nodes : Labels fl → List DfNode → Run Value
  unfolding df_node
  df_nodes labels [] = done
  df_nodes labels (n ∷ ns) = df_node labels n >> df_nodes labels ns

  unfoldable pub df_summary : DfSummary → Run Value
  df_summary s =
      number fl failed total_bytes [] (kilobytes fl) s.total_kb
      >> number fl failed total_used_bytes [] (kilobytes fl) s.total_used_kb
      >> number fl failed total_avail_bytes [] (kilobytes fl) s.total_avail_kb
      >> number fl failed average_util [] (as_is fl) s.average_util

  unfoldable pub from_df : Labels fl → Option Df → Run Value
  unfolding df_nodes df_summary
  from_df labels none = ([], failed)
  from_df labels (some df) = df_nodes labels df.nodes >> df_summary df.summary

  -- collectOSDDF; `replace_nan` is bytes.Replace of all "-nan" by "0", on the bytes of a buffer.
  unfoldable pub df_reply : (Buffer → Buffer) → Conn → Option Df
  unfolding decode_df
  df_reply replace_nan conn = do
    buf ← conn.mgr_command (df_command ∷ [])
    unmarshal (decode_df fl) (replace_nan buf)

  unfoldable pub collect_df : (Buffer → Buffer) → Labels fl → Conn → Run Value
  unfolding from_df df_reply
  collect_df replace_nan labels conn = from_df labels (df_reply replace_nan conn)
