-- ===== src/Rgw.antt =====
-- ceph/rgw.go: the garbage collection and the resharding of the object gateways.
pub mod Descs
pub mod Laws
use ceph_exporter.Base.{
  ℕ, suc, ◌+◌, String, Bool, true, false, Option, none, some, ◌>>=◌, List, [], ◌∷◌, ◌++◌, map,
  length, ℤ, pos, ltb_ℤ, Text, codes, if◌then◌else◌, ◌==◌,
}
use ceph_exporter.Float.{Float64, of_count}
use ceph_exporter.Prometheus.{Desc, Metric, GaugeVecs, gauge, metrics_of}
use ceph_exporter.Json.{Buffer, Decoder, fields, get, string, int, slice, unmarshal}
use Descs.{
  gc_active_tasks, gc_active_objects, gc_pending_tasks, gc_pending_objects, active_reshards,
  active_bucket_reshard,
}

-- Describe
abbrev pub descriptors : List Desc
descriptors =
    gc_active_tasks ∷ gc_active_objects ∷ gc_pending_tasks ∷ gc_pending_objects ∷ active_reshards
    ∷ active_bucket_reshard ∷ []

pub record GcObject : Type 0 where
  pub pool : String
  pub oid : String
  pub key : String
  pub instance_id : String

pub record RgwTaskGc : Type 0 where
  pub tag : String
  pub time : String
  pub objects : List GcObject

-- Of a reshard operation, what the collector reads; the decoder reads the rest too.
pub record RgwReshardOp : Type 0 where
  pub bucket_name : String

zero_object : GcObject
zero_object = record { pool = ""; oid = ""; key = ""; instance_id = "" }

decode_object : Decoder GcObject
decode_object j = do
  fs ← fields j
  pool ← get "pool" "" string fs
  oid ← get "oid" "" string fs
  key ← get "ky" "" string fs
  instance_id ← get "instance" "" string fs
  some (record { pool = pool; oid = oid; key = key; instance_id = instance_id })

decode_task : Decoder RgwTaskGc
unfolding decode_object zero_object
decode_task j = do
  fs ← fields j
  tag ← get "tag" "" string fs
  time ← get "time" "" string fs
  objects ← get "objs" [] (slice zero_object decode_object) fs
  some (record { tag = tag; time = time; objects = objects })

decode_op : Decoder RgwReshardOp
decode_op j = do
  fs ← fields j
  time ← get "time" "" string fs
  tenant ← get "tenant" "" string fs
  bucket_name ← get "bucket_name" "" string fs
  bucket_id ← get "bucket_id" "" string fs
  new_instance_id ← get "new_instance_id" "" string fs
  old_num_shards ← get "old_num_shards" (pos 0) int fs
  new_num_shards ← get "new_num_shards" (pos 0) int fs
  some (record { bucket_name = bucket_name })

zero_task : RgwTaskGc
zero_task = record { tag = ""; time = ""; objects = [] }

zero_op : RgwReshardOp
zero_op = record { bucket_name = "" }

-- The output of radosgw-admin, if the command succeeds.
unfoldable pub tasks_reply : Option Buffer → Option (List RgwTaskGc)
unfolding decode_task zero_task
tasks_reply reply = do out ← reply; unmarshal (slice zero_task decode_task) out

unfoldable pub ops_reply : Option Buffer → Option (List RgwReshardOp)
unfolding decode_op zero_op
ops_reply reply = do out ← reply; unmarshal (slice zero_op decode_op) out

-- strings.SplitN(s, ".", 2)[0]
unfoldable pub before_dot : Text → Text
before_dot [] = []
before_dot (c ∷ s) = let rest = before_dot s in if c == b'.' then [] else c ∷ rest

-- The number of tasks, and of their objects, on either side.
pub record GcCounts : Type 0 where
  pub active_tasks : ℕ
  pub active_objects : ℕ
  pub pending_tasks : ℕ
  pub pending_objects : ℕ

abbrev pub no_tasks : GcCounts
no_tasks = record { active_tasks = 0; active_objects = 0; pending_tasks = 0; pending_objects = 0 }

abbrev pub add_task : Bool → ℕ → GcCounts → GcCounts
add_task true objects c = record c {
  active_tasks = c.active_tasks + 1;
  active_objects = c.active_objects + objects;
}
add_task false objects c = record c {
  pending_tasks = c.pending_tasks + 1;
  pending_objects = c.pending_objects + objects;
}

module _ (fl : Float64) (gv : GaugeVecs fl.Value) where
  -- The collector, with the number of goroutines that it has started.
  pub record RgwCollector : Type 0 where
    pub background : Bool
    pub gc_active_tasks : gv.Vec
    pub gc_active_objects : gv.Vec
    pub gc_pending_tasks : gv.Vec
    pub gc_pending_objects : gv.Vec
    pub active_reshards : gv.Vec
    pub goroutines : ℕ

  -- NewRGWCollector
  abbrev pub new_rgw_collector : Bool → RgwCollector
  new_rgw_collector background = record {
    background = background;
    gc_active_tasks = gv.new;
    gc_active_objects = gv.new;
    gc_pending_tasks = gv.new;
    gc_pending_objects = gv.new;
    active_reshards = gv.new;
    goroutines = 0;
  }

  -- What the vectors of collectorList send, at the end of Collect.
  unfoldable pub vec_metrics : RgwCollector → List (Metric fl.Value)
  vec_metrics r =
      metrics_of gv gc_active_tasks gauge r.gc_active_tasks
      ++ metrics_of gv gc_active_objects gauge r.gc_active_objects
      ++ metrics_of gv gc_pending_tasks gauge r.gc_pending_tasks
      ++ metrics_of gv gc_pending_objects gauge r.gc_pending_objects
      ++ metrics_of gv active_reshards gauge r.active_reshards

-- `parse_time` is time.Parse with the layout rgwGCTimeFormat; `clock n` is the n-th reading of
-- time.Now() in a collection.
module _ (parse_time : Text → Option ℤ) (clock : ℕ → ℤ) where
  abbrev or_now : ℕ → Option ℤ → ℤ
  or_now n none = clock n
  or_now n (some t) = t

  -- ExpiresAt
  unfoldable pub expires_at : ℕ → RgwTaskGc → ℤ
  unfolding before_dot
  expires_at n task = or_now n (parse_time (before_dot (codes task.time)))

  -- The loop over the tasks, of which the n-th may take the n-th reading after `now`, the first.
  unfoldable pub count_tasks : ℕ → GcCounts → List RgwTaskGc → GcCounts
  unfolding expires_at
  count_tasks n c [] = c
  count_tasks n c (task ∷ tasks) =
      count_tasks (suc n) (add_task (ltb_ℤ (expires_at n task) (clock 0)) (length task.objects) c)
        tasks

  module _ (fl : Float64) (gv : GaugeVecs fl.Value) where
    abbrev pub set_count : gv.Vec → ℕ → gv.Vec
    set_count vec n = gv.set vec [] (of_count fl n)

    unfoldable pub set_gc : GcCounts → RgwCollector fl gv → RgwCollector fl gv
    set_gc c r = record r {
      gc_active_tasks = set_count r.gc_active_tasks c.active_tasks;
      gc_pending_tasks = set_count r.gc_pending_tasks c.pending_tasks;
      gc_active_objects = set_count r.gc_active_objects c.active_objects;
      gc_pending_objects = set_count r.gc_pending_objects c.pending_objects;
    }

    abbrev pub reshard_metric : RgwReshardOp → Metric fl.Value
    reshard_metric op = record {
      desc = active_bucket_reshard;
      kind = gauge;
      value = of_count fl 1;
      labels = op.bucket_name ∷ [];
    }

    -- The second half of collect: an error leaves the gauge as it is.
    abbrev pub set_reshards :
        Option (List RgwReshardOp)
        → RgwCollector fl gv
        → RgwCollector fl gv × List (Metric fl.Value)
    set_reshards none r = (r, [])
    set_reshards (some ops) r = (
      record r { active_reshards = set_count r.active_reshards (length ops) },
      map reshard_metric ops,
    )

    -- collect, with the two replies; an error in the first ends it.
    unfoldable pub refresh :
        Option (List RgwTaskGc)
        → Option (List RgwReshardOp)
        → RgwCollector fl gv
        → RgwCollector fl gv × List (Metric fl.Value)
    unfolding count_tasks set_gc
    refresh none ops r = (r, [])
    refresh (some tasks) ops r = set_reshards ops (set_gc (count_tasks 1 no_tasks tasks) r)

    -- A round of backgroundCollect, which sends to the channel of the Collect that has started it.
    unfoldable pub background_round :
        Option Buffer
        → Option Buffer
        → RgwCollector fl gv
        → RgwCollector fl gv × List (Metric fl.Value)
    unfolding tasks_reply ops_reply refresh
    background_round gc reshard r = refresh (tasks_reply gc) (ops_reply reshard) r

    -- Collect, with the outputs of `radosgw-admin gc list` and `radosgw-admin reshard list`: the
    -- metrics that are sent before the series of the five vectors.
    unfoldable pub collect :
        Option Buffer
        → Option Buffer
        → RgwCollector fl gv
        → RgwCollector fl gv × List (Metric fl.Value)
    unfolding tasks_reply ops_reply refresh
    collect gc reshard r =
        if r.background
        then (record r { goroutines = suc r.goroutines }, [])
        else refresh (tasks_reply gc) (ops_reply reshard) r
