-- ===== src/RbdMirror.antt =====
-- ceph/rbd_mirror_status.go: the health of the mirroring of block devices.
mod Descs
pub mod Laws
use ceph_exporter.Base.{
  String, Bool, true, false, Option, none, some, List, [], ◌∷◌, ℤ, pos, negsuc, string_beq,
  if◌then◌else◌,
}
use ceph_exporter.Float.{Float64}
use ceph_exporter.Prometheus.{Desc, Metric, gauge}
use ceph_exporter.Json.{Json, Fields, Buffer, end, obj, str, find}
use ceph_exporter.Version.{Version, is_at_least, pacific}
use Descs.{rbd_mirror_status, rbd_mirror_daemon_status, rbd_mirror_image_status}

-- Describe, by whether the version that the collector has seen last is Pacific or later.
abbrev pub descriptors : Bool → List Desc
descriptors true = rbd_mirror_status ∷ rbd_mirror_daemon_status ∷ rbd_mirror_image_status ∷ []
descriptors false = rbd_mirror_status ∷ []

-- Unmarshal's error is logged and the collection goes on with what was read, so a part of the reply
-- that has another type than the struct leaves the zero of its field.
abbrev fields_or_none : Option Json → Fields
fields_or_none (some (obj fs)) = fs
fields_or_none _ = end

abbrev string_or_empty : Option Json → String
string_or_empty (some (str s)) = s
string_or_empty _ = ""

pub record PoolStatus : Type 0 where
  pub health : String
  pub daemon_health : String
  pub image_health : String

unfoldable pub read_status : Option Buffer → PoolStatus
unfolding find
read_status reply = record {
  health = string_or_empty (find "health" summary);
  daemon_health = string_or_empty (find "daemon_health" summary);
  image_health = string_or_empty (find "image_health" summary);
}
  where
    summary : Fields
    summary =
        fields_or_none (find "summary" (elim reply [ none ↦ end | some buf ↦ fields_or_none buf ]))

unfoldable pub status_to_int : String → ℤ
status_to_int status =
    if string_beq status "OK"
    then pos 0
    else if string_beq status "WARNING"
    then pos 1
    else if string_beq status "ERROR"
    then pos 2
    else negsuc 0

module _ (fl : Float64) where
  open fl use {Value, of_int}

  pub record RbdMirrorStatusCollector : Type 0 where
    pub version : Version
    pub status : Value
    pub daemon_status : Value
    pub image_status : Value

  abbrev gauge_metric : Desc → Value → Metric Value
  gauge_metric d x = record { desc = d; kind = gauge; value = x; labels = [] }

  abbrev metrics_for : Bool → RbdMirrorStatusCollector → List (Metric Value)
  metrics_for true c =
      gauge_metric rbd_mirror_status c.status
      ∷ gauge_metric rbd_mirror_daemon_status c.daemon_status
      ∷ gauge_metric rbd_mirror_image_status c.image_status
      ∷ []
  metrics_for false c = gauge_metric rbd_mirror_status c.status ∷ []

  unfoldable pub metrics_list : RbdMirrorStatusCollector → List (Metric Value)
  metrics_list c = metrics_for (is_at_least c.version pacific) c

  abbrev shown : String → Value
  shown status = of_int (status_to_int status)

  -- The daemon and image gauges are set from Pacific on.
  set_gauges : Bool → PoolStatus → RbdMirrorStatusCollector → RbdMirrorStatusCollector
  set_gauges true s c = record c {
    status = shown s.health;
    daemon_status = shown s.daemon_health;
    image_status = shown s.image_health;
  }
  set_gauges false s c = record c { status = shown s.health }

  -- Collect, with the output of `rbd mirror pool status`, if the command succeeds
  unfoldable pub collect :
      RbdMirrorStatusCollector
      → Option Buffer
      → Version
      → RbdMirrorStatusCollector × List (Metric Value)
  unfolding set_gauges metrics_list
  collect c reply version =
      let c' =
        set_gauges (is_at_least version pacific) (read_status reply)
          (record c { version = version }) in
      (c', metrics_list c')
