-- ===== src/Crashes.antt =====
-- ceph/crashes.go: crash reports counted by daemon, host and status.
pub mod Counts
use ceph_exporter.Base.{
  ℕ, zero, suc, ◌+◌, String, ◌≡◌, refl, ◌↔◌, Bool, true, false, ◌&&◌, Option, none, some, ◌>>=◌,
  List, [], ◌∷◌, map, arith, string_beq, eq_iff, Eq, lookup, insert, if◌then◌else◌,
}
use ceph_exporter.Float.{Float64, of_count}
use ceph_exporter.Prometheus.{Desc, Metric, gauge}
use ceph_exporter.Json.{Decoder, fields, get, string, slice, unmarshal}
use ceph_exporter.Conn.{Conn, Command, word}

abbrev pub crash_reports_desc : Desc
crash_reports_desc = record {
  name = "ceph_crash_reports";
  help = "Count of crashes reports per daemon, according to `ceph crash ls`";
  labels = "entity" ∷ "hostname" ∷ "status" ∷ [];
}

-- Describe
abbrev pub descriptors : List Desc
descriptors = crash_reports_desc ∷ []

pub record CrashEntry : Type 0 where
  pub entity : String
  pub hostname : String
  pub is_new : Bool

abbrev pub bool_beq : Bool → Bool → Bool
bool_beq true b = b
bool_beq false true = false
bool_beq false false = true

abbrev pub entry_beq : CrashEntry → CrashEntry → Bool
entry_beq a b =
    string_beq a.entity b.entity && string_beq a.hostname b.hostname && bool_beq a.is_new b.is_new

pub entry_beq_iff : (a b : CrashEntry) → (entry_beq a b ≡ true) ↔ (a ≡ b)
entry_beq_iff a b = ground (arith, eq_iff a.entity b.entity, eq_iff a.hostname b.hostname)

-- The key of Go's map: structs are compared field by field.
instance abbrev pub entry_eq : Eq CrashEntry
entry_eq = record { beq = entry_beq; beq_iff = entry_beq_iff }

pub record CephCrashLs : Type 0 where
  pub entity : String
  pub hostname : String
  pub archived : String

abbrev empty_ls : CephCrashLs
empty_ls = record { entity = ""; hostname = ""; archived = "" }

unfoldable pub decode_crash_ls : Decoder CephCrashLs
decode_crash_ls j = do
  fs ← fields j
  entity ← get "entity_name" "" string fs
  hostname ← get "utsname_hostname" "" string fs
  archived ← get "archived" "" string fs
  some (record { entity = entity; hostname = hostname; archived = archived })

-- A report is new until it is archived.
abbrev pub entry_of : CephCrashLs → CrashEntry
entry_of c = record { entity = c.entity; hostname = c.hostname; is_new = string_beq c.archived "" }

abbrev or_zero : Option ℕ → ℕ
or_zero none = 0
or_zero (some n) = n

-- crashes[entry]++
unfoldable pub bump : CrashEntry → List (CrashEntry × ℕ) → List (CrashEntry × ℕ)
bump e m = insert e (suc (or_zero (lookup e m))) m

unfoldable pub count_crashes : List (CrashEntry × ℕ) → List CephCrashLs → List (CrashEntry × ℕ)
unfolding bump
count_crashes m [] = m
count_crashes m (c ∷ cs) = count_crashes (bump (entry_of c) m) cs

abbrev pub crash_ls_command : Command
crash_ls_command = ("prefix", word "crash ls") ∷ ("format", word "json") ∷ []

-- The reports that the reply holds, if the command and the reply are in order.
unfoldable pub reports : Conn → Option (List CephCrashLs)
unfolding decode_crash_ls
reports conn = do
  buf ← conn.mon_command crash_ls_command
  unmarshal (slice empty_ls decode_crash_ls) buf

-- The map is empty where there is an error, which the caller only logs.
unfoldable pub tally : Option (List CephCrashLs) → List (CrashEntry × ℕ)
unfolding count_crashes
tally none = []
tally (some crash_data) = count_crashes [] crash_data

unfoldable pub get_crash_ls : Conn → List (CrashEntry × ℕ)
get_crash_ls conn = tally (reports conn)

abbrev pub status_name : Bool → String
status_name true = "new"
status_name false = "archived"

module _ (fl : Float64) where
  abbrev pub crash_metric : CrashEntry × ℕ → Metric fl.Value
  crash_metric (crash, count) = record {
    desc = crash_reports_desc;
    kind = gauge;
    value = of_count fl count;
    labels = crash.entity ∷ crash.hostname ∷ status_name crash.is_new ∷ [];
  }

  unfoldable pub collect : Conn → List (Metric fl.Value)
  unfolding get_crash_ls
  collect conn = map crash_metric (get_crash_ls conn)
