-- ===== src/Scenarios/Gateways.antt =====
-- The theorems on the gateways, at two tasks, of which one has a time that cannot be read.
use ceph_exporter.Base.{
  ℕ, ◌+◌, String, ◌≡◌, refl, false, Bool, Option, none, some, List, [], ◌∷◌, ℤ, pos, Text,
  string_eq, strings_eq,
}
use ceph_exporter.Base.Result.{ok, err}
use ceph_exporter.Json.{Buffer, Json, str, find, same_key, get, items}
use ceph_exporter.Version.Decimal.{atoi}
use ceph_exporter.Rgw.{RgwTaskGc, tasks_reply, RgwCollector, collect}
use ceph_exporter.Rgw.Laws.{tasks_where, has_expired, is_pending, ShowsTasks, collect-ShowsTasks}
use ceph_exporter.Scenarios.{whole, vectors, object, array}

-- A time that is a plain number stands for itself.
abbrev plain_time : Text → Option ℤ
plain_time s = elim (atoi s) [ ok n ↦ some n | err e ↦ none ]

abbrev ticks : ℕ → ℤ
ticks n = pos 100

abbrev gateways : Bool → RgwCollector whole vectors
gateways background = record {
  background = background;
  gc_active_tasks = [];
  gc_active_objects = [];
  gc_pending_tasks = [];
  gc_pending_objects = [];
  active_reshards = ([], 7) ∷ [];
  goroutines = 0;
}

abbrev task : String → Json
task time = object (("tag", str "t") ∷ ("time", str time) ∷ ("objs", array (object [] ∷ [])) ∷ [])

abbrev gc_list : Option Buffer
gc_list = some (some (array (task "60.5" ∷ task "soon" ∷ [])))

abbrev read_task : String → RgwTaskGc
read_task time = record {
  tag = "t";
  time = time;
  objects = record { pool = ""; oid = ""; key = ""; instance_id = "" } ∷ [];
}

abbrev read_tasks : List RgwTaskGc
read_tasks = read_task "60.5" ∷ read_task "soon" ∷ []

gc_list_read : tasks_reply gc_list ≡ some read_tasks
unfolding tasks_reply find same_key get items
gc_list_read = refl

collect-ShowsTasks_example :
    ShowsTasks plain_time ticks whole vectors
      (collect plain_time ticks whole vectors gc_list none (gateways false)).0
      read_tasks
    × (tasks_where (has_expired plain_time ticks) read_tasks
          + tasks_where (is_pending plain_time ticks) read_tasks
        ≡ 2)
collect-ShowsTasks_example =
    collect-ShowsTasks plain_time ticks whole vectors gc_list none (gateways false) read_tasks
      (λ n. refl) refl gc_list_read
