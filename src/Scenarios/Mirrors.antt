-- ===== src/Scenarios/Mirrors.antt =====
-- The theorems on the mirroring status, at a reply and at a command that fails.
use ceph_exporter.Base.{none, some, Option, [], ◌∷◌, All}
use ceph_exporter.Json.{Buffer, str}
use ceph_exporter.Version.{is_at_least, pacific, nautilus}
use ceph_exporter.RbdMirror.{read_status, RbdMirrorStatusCollector, collect}
use ceph_exporter.RbdMirror.Laws.{statuses, ShowStatuses, IsUnknown, collect-ShowsCode}
use ceph_exporter.Scenarios.{whole, object}

abbrev before : RbdMirrorStatusCollector whole
before = record { version = nautilus; status = 0; daemon_status = 0; image_status = 0 }

abbrev warning_reply : Option Buffer
warning_reply = some (
    some (
      object
        (("summary", object (("health", str "WARNING") ∷ ("daemon_health", str "OK") ∷ [])) ∷ [])))

collect-ShowsCode_example :
    ShowStatuses whole
      (statuses (is_at_least pacific pacific) (read_status warning_reply))
      (collect whole before warning_reply pacific).1
    × All (IsUnknown whole) (collect whole before none pacific).1
collect-ShowsCode_example = collect-ShowsCode whole before warning_reply pacific
