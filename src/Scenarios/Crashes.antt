-- ===== src/Scenarios/Crashes.antt =====
-- The theorems on crash reports, at three reports of two daemons.
use ceph_exporter.Base.{String, ◌≡◌, refl, true, some, List, [], ◌∷◌, lookup, strings_eq, string_eq}
use mathlib.Core.Option
use ceph_exporter.Prometheus.{series}
use ceph_exporter.Json.{Json, str, find, same_key, get, items}
use ceph_exporter.Conn.{Conn}
use ceph_exporter.Crashes.{CrashEntry, CephCrashLs, decode_crash_ls, reports, collect}
use ceph_exporter.Crashes.Counts.{labels_of, occurrences, collect-occurrences}
use ceph_exporter.Scenarios.{whole, object, array, cluster}

abbrev report : String → String → Json
report entity archived = object (
    ("entity_name", str entity)
    ∷ ("utsname_hostname", str "node1")
    ∷ ("archived", str archived)
    ∷ [])

abbrev crashed : Conn
crashed = cluster (
    ("crash ls", array (report "mgr.a" "" ∷ report "osd.1" "2024-01-01" ∷ report "mgr.a" "" ∷ []))
    ∷ [])

abbrev listed : List CephCrashLs
listed =
    record { entity = "mgr.a"; hostname = "node1"; archived = "" }
    ∷ record { entity = "osd.1"; hostname = "node1"; archived = "2024-01-01" }
    ∷ record { entity = "mgr.a"; hostname = "node1"; archived = "" }
    ∷ []

abbrev manager : CrashEntry
manager = record { entity = "mgr.a"; hostname = "node1"; is_new = true }

reports-listed : reports crashed ≡ some listed
unfolding reports decode_crash_ls find same_key get items lookup
reports-listed = refl

collect-occurrences_example : series (labels_of manager) (collect whole crashed) ≡ some 2
unfolding occurrences Option.map
collect-occurrences_example = collect-occurrences whole crashed listed manager reports-listed
